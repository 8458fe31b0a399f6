-- ===== src/Store/Ids/Fresh.antt =====
-- The `while` loop of `addDraftNode` and `duplicateDraftNode`. It ends by its test within one round
-- more than there are nodes, since each round meets another node.
use native.Mathlib.Decide.{ℕ_discrete}
use text.Mathlib.TextLemmas.{append_cancel_left}
use lang_orch.Base.{
  ℕ, zero, suc, ◌+◌, ◌≤◌, ◌<◌, String, true, false, not, List, [], ◌∷◌, length, keep, Bool-cases,
  ◌==◌, show_inj, eq_iff, ◌≡◌, refl, ◌≢◌, ◌⊎◌, inl, inr, arith,
}
use lang_orch.Draft.{BuilderNodeKind, kind_name, BuilderNodeDraft}
use lang_orch.Store.{has_node, node_id_at, next_free, new_node_id}

node_id_at_inj : (k : BuilderNodeKind) (a b : ℕ) → node_id_at k a ≡ node_id_at k b → a ≡ b
node_id_at_inj k a b h =
    show_inj a b (append_cancel_left "_" _ _ (append_cancel_left (kind_name k) _ _ h))

-- Without the nodes of one identifier.
abbrev without : String → List BuilderNodeDraft → List BuilderNodeDraft
without i = keep (λ n. not (n.id == i))

has_node-without :
    (i j : String) (ns : List BuilderNodeDraft) → i ≢ j → has_node (without i ns) j ≡ has_node ns j
has_node-without i j [] ne = refl
has_node-without i j (n ∷ ns) ne =
    ground (arith, eq_iff n.id i, eq_iff n.id j, has_node-without i j ns)

length-without-le : (i : String) (ns : List BuilderNodeDraft) → length (without i ns) ≤ length ns
length-without-le i [] = omega arith
length-without-le i (n ∷ ns) = ground (arith, length-without-le i ns)

length-without-lt :
    (i : String) (ns : List BuilderNodeDraft)
    → has_node ns i ≡ true
    → length (without i ns) < length ns
length-without-lt i [] h = cc
length-without-lt i (n ∷ ns) h = ground (arith, length-without-le i ns, length-without-lt i ns)

module _ (k : BuilderNodeKind) where
  -- The candidates from `start` on, `count` of them, are all taken.
  abbrev pub Taken : List BuilderNodeDraft → ℕ → ℕ → Type 0
  Taken ns start zero = Unit
  Taken ns start (suc count) =
      (has_node ns (node_id_at k start) ≡ true) × Taken ns (start + 1) count

  Taken-without :
      (ns : List BuilderNodeDraft) (i start count : ℕ)
      → i < start
      → Taken ns start count
      → Taken (without (node_id_at k i) ns) start count
  Taken-without ns i start zero h t = tt
  Taken-without ns i start (suc count) h t = (
    rw
        (has_node-without (node_id_at k i) (node_id_at k start) ns
          (λ e. omega (arith, node_id_at_inj k i start e)))
        t.0,
    Taken-without ns i (start + 1) count (omega arith) t.1,
  )

  -- There are at least as many nodes as taken candidates.
  Taken-le :
      (count start : ℕ) (ns : List BuilderNodeDraft) → Taken ns start count → count ≤ length ns
  Taken-le zero start ns t = omega arith
  Taken-le (suc count) start ns t = omega (
    arith,
    length-without-lt (node_id_at k start) ns t.0,
    Taken-le count (start + 1) (without (node_id_at k start) ns)
        (Taken-without ns start (start + 1) count (omega arith) t.1),
  )

  next_free_cases :
      (fuel start : ℕ) (ns : List BuilderNodeDraft)
      → (has_node ns (node_id_at k (next_free fuel ns k start)) ≡ false) ⊎ Taken ns start fuel
  unfolding next_free
  next_free_cases zero start ns = inr tt
  next_free_cases (suc fuel) start ns = elim (Bool-cases (has_node ns (node_id_at k start))) [
    | inr free ↦ inl (rw (free, next_free) free)
    | inl taken ↦ elim (next_free_cases fuel (start + 1) ns) [
      | inl found ↦ inl (rw (taken, next_free) found)
      | inr more ↦ inr (taken, more)
    ]
  ]

-- The identifier that the search returns belongs to no node of the draft.
pub new_node_id_fresh :
    (ns : List BuilderNodeDraft) (k : BuilderNodeKind) → has_node ns (new_node_id ns k) ≡ false
unfolding new_node_id
new_node_id_fresh ns k = elim (next_free_cases k (suc (length ns)) (length ns + 1) ns) [
  | inl found ↦ found
  | inr all_taken ↦
      absurd (omega (arith, Taken-le k (suc (length ns)) (length ns + 1) ns all_taken))
]

-- The index of the result is the first free one: each candidate before it is taken.
pub next_free_first :
    (k : BuilderNodeKind) (fuel start i : ℕ) (ns : List BuilderNodeDraft)
    → start ≤ i
    → i < next_free fuel ns k start
    → has_node ns (node_id_at k i) ≡ true
unfolding next_free
next_free_first k zero start i ns h lt = absurd (omega arith)
next_free_first k (suc fuel) start i ns h lt =
    elim (Bool-cases (has_node ns (node_id_at k start))) [
      | inr free ↦ absurd (let e = rw (free, next_free) at lt in omega arith)
      | inl taken ↦ elim (ℕ_discrete i start) [
        | yes e ↦ rw e taken
        | no ne ↦
            next_free_first k fuel (start + 1) i ns (omega arith) (rw (taken, next_free) at lt)
      ]
    ]
