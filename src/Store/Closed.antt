-- ===== src/Store/Closed.antt =====
-- Well-formed drafts: distinct identifiers, and every transition and the start node point to a node
-- of the draft. The calls of the builder's components are the constructors of `Edit`.
pub mod Laws
pub mod Step
use lang_orch.Base.{
  String, Bool, true, Option, none, some, List, ◌||◌, all, is_empty, Value, Fields, ◌≡◌,
}
use lang_orch.Draft.{
  BuilderNodeKind, BuilderNodePosition, BuilderTransition, BuilderNodeDraft, BuilderDraftDocument,
}
use lang_orch.Store.{
  has_node, NodePatch, TransitionPatch, Layout, load_draft_document, add_draft_node,
  update_draft_node, update_draft_node_config, update_draft_transition, add_draft_transition,
  remove_draft_transition, remove_draft_node, update_draft_node_positions, auto_layout_draft,
  duplicate_draft_node, set_draft_start_node,
}
use lang_orch.Store.Ids.Distinct.{Distinct}

-- A missing target is fine, and the empty text counts as missing.
abbrev pub target_exists : List BuilderNodeDraft → Option String → Bool
target_exists ns none = true
target_exists ns (some i) = is_empty i || has_node ns i

abbrev pub closed_transitions : List BuilderNodeDraft → List BuilderTransition → Bool
closed_transitions ns ts = all (λ t. target_exists ns t.target_node_id) ts

abbrev pub closed_nodes : List BuilderNodeDraft → List BuilderNodeDraft → Bool
closed_nodes ns ms = all (λ m. closed_transitions ns m.transitions) ms

pub record IsWellFormed (d : BuilderDraftDocument) : Type 0 where
  pub distinct : Distinct d.nodes
  pub closed : closed_nodes d.nodes d.nodes ≡ true
  pub start : target_exists d.nodes d.start_node_id ≡ true

pub data Edit : Type 0 where
  add : BuilderNodeKind → Edit
  update : String → NodePatch → Edit
  configure : String → Fields → Edit
  retarget : String → String → TransitionPatch → Edit
  connect : String → String → Edit
  disconnect : String → String → Edit
  delete : String → Edit
  move : List (String × BuilderNodePosition) → Edit
  layout : Layout → Edit
  duplicate : String → BuilderNodePosition → Edit
  start_at : String → Edit
  load : (String → Option Value) → Edit

pub apply_edit : BuilderDraftDocument → Edit → BuilderDraftDocument
apply_edit d (add k) = add_draft_node d k
apply_edit d (update i p) = update_draft_node d i p
apply_edit d (configure i p) = update_draft_node_config d i p
apply_edit d (retarget i k p) = update_draft_transition d i k p
apply_edit d (connect i k) = add_draft_transition d i k
apply_edit d (disconnect i k) = remove_draft_transition d i k
apply_edit d (delete i) = remove_draft_node d i
apply_edit d (move ps) = update_draft_node_positions d ps
apply_edit d (layout dagre) = auto_layout_draft dagre d
apply_edit d (duplicate i offset) = duplicate_draft_node d i offset
apply_edit d (start_at i) = set_draft_start_node d i
apply_edit d (load parse_json) = load_draft_document parse_json d

abbrev pub patch_exists : List BuilderNodeDraft → Option (List BuilderTransition) → Bool
patch_exists ns none = true
patch_exists ns (some ts) = closed_transitions ns ts

abbrev pub target_patch_exists : List BuilderNodeDraft → Option (Option String) → Bool
target_patch_exists ns none = true
target_patch_exists ns (some o) = target_exists ns o

-- What the caller sees to: a patch renames no node, and new targets exist.
abbrev pub Admissible : BuilderDraftDocument → Edit → Type 0
Admissible d (update i p) = (p.id ≡ none) × (patch_exists d.nodes p.transitions ≡ true)
Admissible d (retarget i k p) = target_patch_exists d.nodes p.target_node_id ≡ true
Admissible d (start_at i) = has_node d.nodes i ≡ true
Admissible d (add k) = Unit
Admissible d _ = Unit
