-- ===== src/Store/Ids/Distinct.antt =====
-- Which identifiers a list of nodes has after each operation, and that they stay distinct.
use lang_orch.Base.{
  String, false, ◌||◌, List, [], ◌∷◌, ◌++◌, map, if◌then◌else◌, ◌==◌, eq_iff, ◌≡◌, refl, Bool-cases,
  inl, inr, arith,
}
use lang_orch.Draft.{BuilderNodeDraft}
use lang_orch.Store.{has_node, other_than}

-- No two nodes have one identifier.
abbrev pub Distinct : List BuilderNodeDraft → Type 0
Distinct [] = Unit
Distinct (n ∷ ns) = (has_node ns n.id ≡ false) × Distinct ns

pub has_node-append :
    (ns ms : List BuilderNodeDraft) (i : String)
    → has_node (ns ++ ms) i ≡ (has_node ns i || has_node ms i)
has_node-append [] ms i = refl
has_node-append (n ∷ ns) ms i = ground (arith, has_node-append ns ms i)

pub Distinct-concat :
    (ns : List BuilderNodeDraft) (m : BuilderNodeDraft)
    → has_node ns m.id ≡ false
    → Distinct ns
    → Distinct (ns ++ m ∷ [])
Distinct-concat [] m h d = (refl, tt)
Distinct-concat (n ∷ ns) m h d = (
  ground (arith, has_node-append ns (m ∷ []) n.id, eq_iff n.id m.id, eq_iff m.id n.id),
  Distinct-concat ns m (ground arith) d.1,
)

module _ (f : BuilderNodeDraft → BuilderNodeDraft)
    (same : (n : BuilderNodeDraft) → (f n).id ≡ n.id) where
  pub has_node-map :
      (ns : List BuilderNodeDraft) (i : String) → has_node (map f ns) i ≡ has_node ns i
  has_node-map [] i = refl
  has_node-map (n ∷ ns) i = rw (same n, has_node-map ns i)

  pub Distinct-map : (ns : List BuilderNodeDraft) → Distinct ns → Distinct (map f ns)
  Distinct-map [] d = tt
  Distinct-map (n ∷ ns) d = (rw (same n, has_node-map ns n.id) d.0, Distinct-map ns d.1)

pub has_node-other_than :
    (i j : String) (ns : List BuilderNodeDraft)
    → has_node (other_than i ns) j ≡ (if i == j then false else has_node ns j)
has_node-other_than i j [] = ground arith
has_node-other_than i j (n ∷ ns) =
    ground (arith, eq_iff n.id i, eq_iff n.id j, eq_iff i j, has_node-other_than i j ns)

pub Distinct-other_than :
    (i : String) (ns : List BuilderNodeDraft) → Distinct ns → Distinct (other_than i ns)
Distinct-other_than i [] d = tt
Distinct-other_than i (n ∷ ns) d = elim (Bool-cases (n.id == i)) [
  | inl hit ↦ rw hit (Distinct-other_than i ns d.1)
  | inr miss ↦ rw miss (ground (arith, has_node-other_than i n.id ns), Distinct-other_than i ns d.1)
]
