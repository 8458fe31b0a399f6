-- ===== src/Validate/Cycles/Finish.antt =====
-- A call of the search that finds no cycle finishes its identifier: the finished identifiers are in
-- topological order.
use mathlib.Core.Path.{subst}
use lang_orch.Base.{
  ℕ, zero, suc, ◌+◌, ◌≤◌, ◌<◌, String, Bool, true, false, ◌||◌, List, [], ◌∷◌, if◌then◌else◌, ◌==◌,
  eq_iff, Bool-cases, ◌≡◌, refl, sym, ap, ◌∙◌, inl, inr, arith,
}
use lang_orch.Draft.{BuilderNodeDraft}
use lang_orch.Validate.Graph.{node_of, targets_of, contains, Edge}
use lang_orch.Validate.Cycles.{CycleState, delete, leave, enter, close, try_targets, detect_cycle}
use lang_orch.Validate.Cycles.Sound.{stack-try_targets, stack-detect_cycle}

-- Nodes that are not visited yet.
abbrev pub open_nodes : List BuilderNodeDraft → List String → ℕ
open_nodes [] v = 0
open_nodes (n ∷ ns) v = (if contains v n.id then 0 else 1) + open_nodes ns v

abbrev pub Within : List String → List String → Type 0
Within v w = (x : String) → contains v x ≡ true → contains w x ≡ true

pub open_nodes-antitone :
    (ns : List BuilderNodeDraft) (v w : List String)
    → Within v w
    → open_nodes ns w ≤ open_nodes ns v
open_nodes-antitone [] v w h = omega arith
open_nodes-antitone (n ∷ ns) v w h = ground (arith, open_nodes-antitone ns v w h, h n.id)

open_nodes-enter-le :
    (ns : List BuilderNodeDraft) (v : List String) (i : String)
    → open_nodes ns (i ∷ v) ≤ open_nodes ns v
open_nodes-enter-le [] v i = omega arith
open_nodes-enter-le (n ∷ ns) v i = ground (arith, open_nodes-enter-le ns v i)

-- A node with a target is one of the draft, so to enter it lowers the count.
open_nodes-enter-lt :
    (ns : List BuilderNodeDraft) (v : List String) (i : String) (t : String) (ts : List String)
    → contains v i ≡ false
    → targets_of ns i ≡ t ∷ ts
    → open_nodes ns (i ∷ v) < open_nodes ns v
unfolding targets_of node_of
open_nodes-enter-lt [] v i t ts new h = cc
open_nodes-enter-lt (n ∷ ns) v i t ts new h = ground (
  arith,
  open_nodes-enter-lt ns v i t ts new,
  open_nodes-enter-le ns v i,
  eq_iff n.id i,
  eq_iff i n.id,
)

module _ (ns : List BuilderNodeDraft) where
  -- Finished identifiers, newest first: the targets of each stand behind it.
  abbrev pub Sorted : List String → Type 0
  Sorted [] = Unit
  Sorted (x ∷ xs) = ((y : String) → Edge ns x y → contains xs y ≡ true) × Sorted xs

  pub record Inv (s : CycleState) (done : List String) : Type 0 where
    pub sorted : Sorted done
    pub split : (x : String) → contains s.visited x ≡ (contains s.stack x || contains done x)

  pub record Grown (s s' : CycleState) (done done' : List String) : Type 0 where
    pub inv : Inv s' done'
    pub more : Within done done'
    pub seen : Within s.visited s'.visited

  -- A call that finds no cycle finishes its identifier.
  abbrev pub Finishes : ℕ → (String → CycleState → Bool × CycleState) → Type 0
  Finishes fuel detect =
      (t : String) (s : CycleState) (done : List String)
      → open_nodes ns s.visited < fuel
      → Inv s done
      → (detect t s).0 ≡ false
      → (done' : List String) × Grown s (detect t s).1 done done' × (contains done' t ≡ true)

  Finishes-try_targets :
      (fuel : ℕ) (detect : String → CycleState → Bool × CycleState)
      → Finishes fuel detect
      → (ts : List String) (s : CycleState) (done : List String) → open_nodes ns s.visited < fuel
      → Inv s done
      → (try_targets detect ts s).0 ≡ false
      → (done' : List String) × Grown s (try_targets detect ts s).1 done done' × Within ts done'
  unfolding try_targets
  Finishes-try_targets fuel detect fin [] s done enough v h =
      (done, record { inv = v; more = λ x m. m; seen = λ x m. m }, λ x m. cc)
  Finishes-try_targets fuel detect fin (t ∷ ts) s done enough v h =
      elim (Bool-cases (detect t s).0) [
        | inl hit ↦ absurd (ground arith)
        | inr miss ↦
            let (done₁, g₁, held) = fin t s done enough v miss in
            let (done₂, g₂, rest) =
              Finishes-try_targets fuel detect fin ts (detect t s).1 done₁
                (omega (arith, open_nodes-antitone ns s.visited (detect t s).1.visited g₁.seen))
                g₁.inv (ground arith) in
            (
              done₂,
              rw (miss, try_targets)
                  (record {
                    inv = g₂.inv;
                    more = λ x m. g₂.more x (g₁.more x m);
                    seen = λ x m. g₂.seen x (g₁.seen x m);
                  }),
              λ x m. elim (Bool-cases (t == x)) [
                | inl same ↦
                    g₂.more x (subst (λ z. contains done₁ z ≡ true) ((eq_iff t x).0 same) held)
                | inr other ↦ rest x (ground arith)
              ],
            )
      ]

  close-false :
      (i : String) (r : Bool × CycleState) → r.0 ≡ false → close i r ≡ (false, leave i r.1)
  close-false i (false, s) h = refl
  close-false i (true, s) h = cc

  pub close-flag : (i : String) (r : Bool × CycleState) → (close i r).0 ≡ r.0
  close-flag i (false, s) = refl
  close-flag i (true, s) = refl

  Inv-enter : (t : String) (s : CycleState) (done : List String) → Inv s done → Inv (enter t s) done
  Inv-enter t s done v = record { sorted = v.sorted; split = λ x. ground (arith, v.split x) }

  -- The targets of an identifier that is entered.
  Finishes-targets :
      (fuel : ℕ) (t : String) (s : CycleState) (done : List String)
      → Finishes fuel (detect_cycle fuel ns)
      → open_nodes ns s.visited < suc fuel
      → contains s.visited t ≡ false
      → Inv s done
      → (try_targets (detect_cycle fuel ns) (targets_of ns t) (enter t s)).0 ≡ false
      → (done' : List String) × Grown
          (enter t s)
          (try_targets (detect_cycle fuel ns) (targets_of ns t) (enter t s)).1
          done
          done'
        × Within (targets_of ns t) done'
  unfolding try_targets
  Finishes-targets fuel t s done fin enough new v h = on_targets (targets_of ns t) refl h
    where
      on_targets :
          (ts : List String)
          → targets_of ns t ≡ ts
          → (try_targets (detect_cycle fuel ns) ts (enter t s)).0 ≡ false
          → (done' : List String) × Grown
              (enter t s)
              (try_targets (detect_cycle fuel ns) ts (enter t s)).1
              done
              done'
            × Within ts done'
      on_targets [] e h =
          (done, record { inv = Inv-enter t s done v; more = λ x m. m; seen = λ x m. m }, λ x m. cc)
      on_targets (u ∷ us) e h =
          Finishes-try_targets fuel (detect_cycle fuel ns) fin (u ∷ us) (enter t s) done
            (omega (arith, open_nodes-enter-lt ns s.visited t u us new e)) (Inv-enter t s done v) h

  pub Finishes-detect_cycle : (fuel : ℕ) → Finishes fuel (detect_cycle fuel ns)
  unfolding detect_cycle
  Finishes-detect_cycle zero t s done enough v h = absurd (omega arith)
  Finishes-detect_cycle (suc fuel) t s done enough v h = elim (Bool-cases (contains s.stack t)) [
    | inl on ↦ absurd (ground arith)
    | inr off ↦ elim (Bool-cases (contains s.visited t)) [
      | inl old ↦ (
        done,
        rw (off, old, detect_cycle) (record { inv = v; more = λ x m. m; seen = λ x m. m }),
        ground (arith, v.split t),
      )
      | inr new ↦
          let tried = try_targets (detect_cycle fuel ns) (targets_of ns t) (enter t s) in
          let failed : tried.0 ≡ false = ground (arith, close-flag t tried) in
          let (done', g, targets_done) =
            Finishes-targets fuel t s done (Finishes-detect_cycle fuel) enough new v failed in
          let ends : detect_cycle (suc fuel) ns t s ≡ (false, leave t tried.1) =
            ground (arith, close-false t tried failed) in
          let inner : tried.1.stack ≡ t ∷ s.stack =
            stack-try_targets (detect_cycle fuel ns) (stack-detect_cycle fuel ns) (targets_of ns t)
              (enter t s) in
          let outer : delete t tried.1.stack ≡ s.stack =
            ap (λ (r : Bool × CycleState). r.1.stack) (sym ends)
            ∙ stack-detect_cycle (suc fuel) ns t s in
          (
            t ∷ done',
            rw ends (record {
              inv = record {
                sorted = (λ y e. targets_done y e, g.inv.sorted);
                split = λ x. ground (arith, g.inv.split x, inner, outer);
              };
              more = λ x m. ground (arith, g.more x m);
              seen = λ x m. g.seen x (ground arith);
            }),
            ground (arith, eq_iff t t),
          )
    ]
  ]
