-- ===== src/Validate/Reach/Correct.antt =====
-- The walk visits exactly what can be reached from the start.
use mathlib.Core.Path.{subst}
use lang_orch.Base.{
  ℕ, zero, suc, ◌+◌, ◌≤◌, String, Bool, true, false, not, ◌||◌, List, [], ◌∷◌, ◌++◌, keep, length,
  length-append, ◌==◌, eq_iff, if◌then◌else◌, Bool-cases, ◌≡◌, ◌↔◌, ◌⊎◌, refl, inl, inr, arith,
}
use lang_orch.Draft.{BuilderNodeDraft}
use lang_orch.Store.{targets}
use lang_orch.Validate.Graph.{node_of, targets_of, contains, Edge, Walk, here, step}
use lang_orch.Validate.Reach.{walk, edge_count, visited_from}

pub contains-append :
    (xs ys : List String) (i : String) → contains (xs ++ ys) i ≡ (contains xs i || contains ys i)
contains-append [] ys i = refl
contains-append (x ∷ xs) ys i = ground (arith, contains-append xs ys i)

pub contains-keep :
    (p : String → Bool) (xs : List String) (i : String)
    → contains (keep p xs) i ≡ (if p i then contains xs i else false)
contains-keep p [] i = ground arith
contains-keep p (x ∷ xs) i = ground (arith, contains-keep p xs i, eq_iff x i)

length-keep-le : (p : String → Bool) (xs : List String) → length (keep p xs) ≤ length xs
length-keep-le p [] = omega arith
length-keep-le p (x ∷ xs) = ground (arith, length-keep-le p xs)

-- The transitions of the nodes that are not visited yet.
abbrev open_edges : List BuilderNodeDraft → List String → ℕ
open_edges [] v = 0
open_edges (n ∷ ns) v =
    (if contains v n.id then 0 else length (targets n.transitions)) + open_edges ns v

open_edges-nil : (ns : List BuilderNodeDraft) → open_edges ns [] ≡ edge_count ns
open_edges-nil [] = refl
open_edges-nil (n ∷ ns) = omega (arith, open_edges-nil ns)

open_edges-cons-le :
    (ns : List BuilderNodeDraft) (v : List String) (c : String)
    → open_edges ns (c ∷ v) ≤ open_edges ns v
open_edges-cons-le [] v c = omega arith
open_edges-cons-le (n ∷ ns) v c = ground (arith, open_edges-cons-le ns v c)

-- Visiting a node closes its transitions.
open_edges-visit :
    (ns : List BuilderNodeDraft) (v : List String) (c : String)
    → contains v c ≡ false
    → open_edges ns (c ∷ v) + length (targets_of ns c) ≤ open_edges ns v
unfolding targets_of node_of
open_edges-visit [] v c h = omega arith
open_edges-visit (n ∷ ns) v c h =
    ground
      (arith, open_edges-visit ns v c h, open_edges-cons-le ns v c, eq_iff n.id c, eq_iff c n.id)

module _ (ns : List BuilderNodeDraft) (start : String) where
  record Inv (v q : List String) : Type 0 where
    seen : (x : String) → contains v x ≡ true → Walk ns start x
    queued : (x : String) → contains q x ≡ true → Walk ns start x
    closed :
        (x y : String)
        → contains v x ≡ true
        → Edge ns x y
        → (contains v y ≡ true) ⊎ (contains q y ≡ true)
    source : (contains v start ≡ true) ⊎ (contains q start ≡ true)

  Inv-skip : (v q : List String) (c : String) → Inv v (c ∷ q) → contains v c ≡ true → Inv v q
  Inv-skip v q c h visited = record {
    seen = h.seen;
    queued = λ x m. h.queued x (ground arith);
    closed = λ x y m e. ground (arith, h.closed x y m e, eq_iff c y);
    source = ground (arith, h.source, eq_iff c start);
  }

  abbrev fresh_targets : List String → String → List String
  fresh_targets v c = keep (λ t. not (contains (c ∷ v) t)) (targets_of ns c)

  Inv-expand :
      (v q : List String) (c : String) → Inv v (c ∷ q) → Inv (c ∷ v) (q ++ fresh_targets v c)
  Inv-expand v q c h =
      let to_c : Walk ns start c = h.queued c (ground (arith, eq_iff c c)) in
      let added =
        λ (x : String). contains-keep (λ t. not (contains (c ∷ v) t)) (targets_of ns c) x in
      let both = λ (x : String). contains-append q (fresh_targets v c) x in
      record {
        seen = λ x m. elim (Bool-cases (c == x)) [
          | inl e ↦ subst (Walk ns start) ((eq_iff c x).0 e) to_c
          | inr other ↦ h.seen x (ground arith)
        ];
        queued = λ x m. elim (Bool-cases (contains q x)) [
          | inl old ↦ h.queued x (ground arith)
          | inr other ↦ step to_c (ground (arith, added x, both x))
        ];
        closed = λ x y m e. ground (arith, added y, both y, h.closed x y, eq_iff c x, eq_iff c y);
        source = ground (arith, h.source, both start, eq_iff c start);
      }

  -- With fuel for the queue and the open transitions the walk ends by an empty queue.
  walk-Inv :
      (fuel : ℕ) (v q : List String)
      → length q + open_edges ns v ≤ fuel
      → Inv v q
      → Inv (walk fuel ns v q) []
  unfolding walk
  walk-Inv zero v [] enough h = h
  walk-Inv zero v (c ∷ q) enough h = absurd (omega arith)
  walk-Inv (suc fuel) v [] enough h = h
  walk-Inv (suc fuel) v (c ∷ q) enough h = elim (Bool-cases (contains v c)) [
    | inl old ↦ rw (old, walk) (walk-Inv fuel v q (ground arith) (Inv-skip v q c h old))
    | inr new ↦
        rw (new, walk)
          (walk-Inv fuel (c ∷ v) (q ++ fresh_targets v c)
            (omega (
              arith,
              open_edges-visit ns v c new,
              length-append {0} q (fresh_targets v c),
              length-keep-le (λ t. not (contains (c ∷ v) t)) (targets_of ns c),
            ))
            (Inv-expand v q c h))
  ]

  visited_from-Inv : Inv (visited_from ns start) []
  unfolding visited_from
  visited_from-Inv =
      walk-Inv (suc (edge_count ns)) [] (start ∷ []) (omega (arith, open_edges-nil ns)) (record {
        seen = λ x m. cc;
        queued = λ x m. subst (Walk ns start) ((eq_iff start x).0 (ground arith)) here;
        closed = λ x y m e. cc;
        source = inr (ground (arith, eq_iff start start));
      })

  walked_visited : {x : String} → Walk ns start x → contains (visited_from ns start) x ≡ true
  walked_visited here = ground (arith, visited_from-Inv.source)
  walked_visited (step {v} {w} r e) =
      ground (arith, visited_from-Inv.closed v w (walked_visited r) e)

-- The walk marks an identifier if and only if transitions lead to it from the start.
pub visited_from_iff :
    (ns : List BuilderNodeDraft) (start x : String)
    → (contains (visited_from ns start) x ≡ true) ↔ Walk ns start x
visited_from_iff ns start x = ((visited_from-Inv ns start).seen x, walked_visited ns start)
