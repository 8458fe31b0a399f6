-- ===== src/Store/Find.antt =====
-- What is found in a draft after one of its nodes is updated: `updateDraftNode` and the functions like it of
-- frontend/src/builder-v2/store/builder-store.ts.
use lang_orch.Base.{
  String, false, Option, none, some, List, [], ◌∷◌, map, if◌then◌else◌, ◌==◌, eq_iff, ◌≡◌, refl, ap,
  Bool-cases, inl, inr,
}
use lang_orch.Draft.{BuilderNodeDraft}
use lang_orch.Store.{find_node}

abbrev pub map_option :
    (BuilderNodeDraft → BuilderNodeDraft) → Option BuilderNodeDraft → Option BuilderNodeDraft
map_option f none = none
map_option f (some n) = some (f n)

module _ (i : String) (f : BuilderNodeDraft → BuilderNodeDraft)
    (same_id : (n : BuilderNodeDraft) → (f n).id ≡ n.id) where
  pub find_node-updated :
      (ns : List BuilderNodeDraft)
      → find_node i (map (λ n. if n.id == i then f n else n) ns) ≡ map_option f (find_node i ns)
  unfolding find_node
  find_node-updated [] = refl
  find_node-updated (n ∷ ns) = elim (Bool-cases (n.id == i)) [
    | inl same ↦ rw (same, same_id n, same) refl
    | inr differ ↦ rw (differ, differ) (find_node-updated ns)
  ]

  pub find_node-kept :
      (j : String) (ns : List BuilderNodeDraft)
      → (i == j) ≡ false
      → find_node j (map (λ n. if n.id == i then f n else n) ns) ≡ find_node j ns
  unfolding find_node
  find_node-kept j [] h = refl
  find_node-kept j (n ∷ ns) h = elim (Bool-cases (n.id == i)) [
    | inl same ↦
        let e : n.id ≡ i = (eq_iff n.id i).0 same in
        rw (same, same_id n, e, h) (find_node-kept j ns h)
    | inr differ ↦ rw differ (
        ap (λ (o : Option BuilderNodeDraft). if n.id == j then some n else o)
          (find_node-kept j ns h))
  ]
