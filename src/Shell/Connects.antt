-- ===== src/Shell/Connects.antt =====
-- What connecting two nodes on the canvas changes.
use lang_orch.Base.{
  String, Bool, true, false, ◌&&◌, ◌||◌, Option, none, some, or_else, List, [], ◌∷◌, ◌++◌, map, any,
  if◌then◌else◌, ◌==◌, eq_iff, is_empty, ◌≡◌, refl, sym, ap, ◌∙◌, arith, Bool-cases, inl, inr,
}
use lang_orch.Draft.{BuilderTransition, BuilderNodeDraft, BuilderDraftDocument}
use lang_orch.Store.Find.{map_option, find_node-updated, find_node-kept}
use lang_orch.Store.{
  find_node, target_of, patch_transition, update_draft_transition, add_draft_transition,
}
use lang_orch.Export.Convert.{transition_target}
use lang_orch.Shell.{set_target, transition_exists, connect}

-- The target of a key of a node.
unfoldable pub target_at : Option BuilderNodeDraft → String → Option String
target_at none k = none
target_at (some n) k = transition_target n.transitions k

abbrev has_key : String → List BuilderTransition → Bool
has_key k ts = any (λ (t : BuilderTransition). t.key == k) ts

equal_self : (k : String) → (k == k) ≡ true
equal_self k = ground (arith, eq_iff k k)

module _ (k target : String) (full : is_empty target ≡ false) where
  target-patched :
      (ts : List BuilderTransition)
      → transition_target (map (λ t. patch_transition k (set_target target) t) ts) k
        ≡ (if has_key k ts then some target else none)
  unfolding transition_target patch_transition
  target-patched [] = refl
  target-patched (t ∷ ts) = elim (Bool-cases (t.key == k)) [
    | inl same ↦ rw (same, same, full) refl
    | inr differ ↦ rw (differ, differ) (target-patched ts)
  ]

other-patched :
    (k j target : String)
    → (k == j) ≡ false
    → (ts : List BuilderTransition)
    → transition_target (map (λ t. patch_transition k (set_target target) t) ts) j
      ≡ transition_target ts j
unfolding transition_target patch_transition
other-patched k j target h [] = refl
other-patched k j target h (t ∷ ts) = elim (Bool-cases (t.key == k)) [
  | inl same ↦
      let e : t.key ≡ k = (eq_iff t.key k).0 same in rw (same, e, h) (other-patched k j target h ts)
  | inr differ ↦ rw differ (
      ap (λ o. or_else (if t.key == j then target_of t else none) o)
        (other-patched k j target h ts))
]

abbrev unset : String → BuilderTransition
unset key = record { key = key; target_node_id = none; label = none }

has_key-added : (k : String) (ts : List BuilderTransition) → has_key k (ts ++ unset k ∷ []) ≡ true
has_key-added k [] = rw (equal_self k) refl
has_key-added k (t ∷ ts) = rw (has_key-added k ts) (or_true (t.key == k))
  where
    or_true : (b : Bool) → (b || true) ≡ true
    or_true b = ground arith

abbrev no_target : Option String
no_target = none

none_either : (b : Bool) → (if b then no_target else no_target) ≡ no_target
none_either true = refl
none_either false = refl

target-added :
    (k j : String) (ts : List BuilderTransition)
    → transition_target (ts ++ unset k ∷ []) j ≡ transition_target ts j
unfolding transition_target
target-added k j [] = rw (none_either (k == j)) refl
target-added k j (t ∷ ts) =
    ap (λ o. or_else (if t.key == j then target_of t else none) o) (target-added k j ts)

abbrev patched : String → String → BuilderNodeDraft → BuilderNodeDraft
patched k target n = record n {
  transitions = map (λ t. patch_transition k (set_target target) t) n.transitions;
}

abbrev extended : String → BuilderNodeDraft → BuilderNodeDraft
extended k n = record n { transitions = n.transitions ++ unset k ∷ [] }

-- The updater on the source itself.
abbrev connected : String → String → BuilderNodeDraft → BuilderNodeDraft
connected k target n =
    if has_key k n.transitions then patched k target n else patched k target (extended k n)

find_node-connect :
    (source k target : String) (d : BuilderDraftDocument) (n : BuilderNodeDraft)
    → find_node source d.nodes ≡ some n
    → find_node source (connect source k target d).nodes ≡ some (connected k target n)
unfolding connect transition_exists update_draft_transition add_draft_transition
find_node-connect source k target d n e = rw e (elim (Bool-cases (has_key k n.transitions)) [
  | inl there ↦
      rw (there) (find_node-updated source (patched k target) (λ m. refl) d.nodes ∙ rw e refl)
  | inr absent ↦ rw (absent) (
      find_node-updated source (patched k target) (λ m. refl) _
      ∙ ap (λ o. map_option (patched k target) o)
          (find_node-updated source (extended k) (λ m. refl) d.nodes)
      ∙ ap (λ o. map_option (patched k target) (map_option (extended k) o)) e)
])

find_node-connect_other :
    (source k target : String) (d : BuilderDraftDocument) (i : String)
    → (source == i) ≡ false
    → find_node i (connect source k target d).nodes ≡ find_node i d.nodes
unfolding connect update_draft_transition add_draft_transition
find_node-connect_other source k target d i h =
    elim (Bool-cases (transition_exists k (find_node source d.nodes))) [
      | inl there ↦ rw (there) (find_node-kept source (patched k target) (λ m. refl) i d.nodes h)
      | inr absent ↦ rw (absent) (
          find_node-kept source (patched k target) (λ m. refl) i _ h
          ∙ find_node-kept source (extended k) (λ m. refl) i d.nodes h)
    ]

target-set :
    (k target j : String) (ts : List BuilderTransition)
    → is_empty target ≡ false
    → has_key k ts ≡ true
    → transition_target (map (λ t. patch_transition k (set_target target) t) ts) j
      ≡ (if k == j then some target else transition_target ts j)
target-set k target j ts full there = elim (Bool-cases (k == j)) [
  | inl same ↦
      let g : k ≡ j = (eq_iff k j).0 same in
      rw (same, sym g) (target-patched k target full ts ∙ rw there refl)
  | inr differ ↦ rw differ (other-patched k j target differ ts)
]

target-connected :
    (k target j : String) (n : BuilderNodeDraft)
    → is_empty target ≡ false
    → transition_target (connected k target n).transitions j
      ≡ (if k == j then some target else transition_target n.transitions j)
target-connected k target j n full = elim (Bool-cases (has_key k n.transitions)) [
  | inl there ↦ rw there (target-set k target j n.transitions full there)
  | inr absent ↦ rw absent (
      target-set k target j (n.transitions ++ unset k ∷ []) full (has_key-added k n.transitions)
      ∙ ap (λ o. if k == j then some target else o) (target-added k j n.transitions))
]

-- Connecting a node of the draft to a target that is not empty gives the node's key this target. Every
-- other key of the node, and every key of each other node, has the target that it had.
pub target_at-connect :
    (source k target : String) (d : BuilderDraftDocument) (n : BuilderNodeDraft) (i j : String)
    → find_node source d.nodes ≡ some n
    → is_empty target ≡ false
    → target_at (find_node i (connect source k target d).nodes) j
      ≡ (if source == i && k == j then some target else target_at (find_node i d.nodes) j)
unfolding target_at
target_at-connect source k target d n i j e full = elim (Bool-cases (source == i)) [
  | inl same ↦
      let g : source ≡ i = (eq_iff source i).0 same in
      rw (same, sym g, find_node-connect source k target d n e, e)
        (target-connected k target j n full)
  | inr differ ↦ rw (differ, find_node-connect_other source k target d i differ) refl
]
