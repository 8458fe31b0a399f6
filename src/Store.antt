-- ===== src/Store.antt =====
-- The operations on a draft: frontend/src/builder-v2/store/builder-store.ts.
-- `JSON.parse` is the parameter `parse_json` (`none` where it throws). The layout engine dagre is the
-- parameter `dagre`: the centre that it gives a node, after the nodes and the edges were set.
pub mod Find
pub mod Ids
pub mod Closed
pub mod Normal
mod Tests
mod Legacy
unfoldable pub use Legacy.{
  action_text, legacy_keys, remove_all, merge_parsed, merge_mapping, normalized_operation,
  normalize_legacy_processing_config, normalize_config, normalize_loaded_node, load_draft_document,
}
use lang_orch.Base.{
  ℕ, zero, suc, ◌+◌, ◌*◌, String, Bool, true, false, not, ◌&&◌, Option, none, some, get_or, or_else,
  List, [], ◌∷◌, ◌++◌, map, any, keep, find, head?, length, if◌then◌else◌, ◌==◌, ◌<>◌, is_empty,
  is_blank, trim, show, ℤ, pos, ◌+ℤ◌, ◌-ℤ◌, Value, undefined, null, bool, num, str, arr, obj,
  no_elements, element, Fields, no_fields, field, get, put, merge, remove, is_filled_array,
}
use lang_orch.Draft.{
  BuilderNodeKind, sequence, logic, loop, parallel, human_approval, llm_action, processing,
  verification, transform, subflow, terminate, kind_name, BuilderNodePosition, BuilderTransition,
  NodeUi, BuilderNodeDraft, Viewport, ValidationReport, BuilderDraftDocument,
}
use lang_orch.Draft.Registry.{blueprint}

-- `Partial<BuilderDraftDocument>`
pub record DraftOverrides : Type 0 where
  pub procedure_id : Option String
  pub procedure_version : Option String
  pub start_node_id : Option String
  pub nodes : Option (List BuilderNodeDraft)
  pub viewport : Option Viewport
  pub validation : Option ValidationReport

unfoldable pub create_empty_draft_document : DraftOverrides → BuilderDraftDocument
create_empty_draft_document o = record {
  procedure_id = get_or o.procedure_id "reference-procedure";
  procedure_version = get_or o.procedure_version "draft";
  start_node_id = o.start_node_id;
  nodes = get_or o.nodes [];
  viewport = o.viewport;
  validation = o.validation;
}

-- `nodes.some((node) => node.id === id)`
abbrev pub has_node : List BuilderNodeDraft → String → Bool
has_node nodes i = any (λ n. n.id == i) nodes

abbrev pub node_id_at : BuilderNodeKind → ℕ → String
node_id_at kind index = kind_name kind <> "_" <> show index

-- The `while` loop that looks for a free identifier, on fuel; `Ids` shows that one round more than
-- there are nodes is enough.
pub next_free : ℕ → List BuilderNodeDraft → BuilderNodeKind → ℕ → ℕ
next_free zero nodes kind index = index
next_free (suc fuel) nodes kind index =
    let later = next_free fuel nodes kind (index + 1) in
    if has_node nodes (node_id_at kind index) then later else index

unfoldable pub new_node_id : List BuilderNodeDraft → BuilderNodeKind → String
new_node_id nodes kind =
    node_id_at kind (next_free (suc (length nodes)) nodes kind (length nodes + 1))

abbrev unset : String → BuilderTransition
unset key = record { key = key; target_node_id = none; label = none }

unfoldable pub new_node : List BuilderNodeDraft → BuilderNodeKind → BuilderNodeDraft
unfolding blueprint
new_node nodes kind = record {
  id = new_node_id nodes kind;
  kind = kind;
  title = (blueprint kind).title;
  description = some "";
  agent = none;
  position = record { x = pos 96; y = pos (96 + length nodes * 104) };
  config = (blueprint kind).default_config;
  transitions = map unset (blueprint kind).transition_keys;
  ui = none;
}

unfoldable pub add_draft_node : BuilderDraftDocument → BuilderNodeKind → BuilderDraftDocument
add_draft_node draft kind =
    let node = new_node draft.nodes kind in
    record draft {
      start_node_id = some (get_or draft.start_node_id node.id);
      nodes = draft.nodes ++ node ∷ [];
    }

-- `nodes.map((node) => (node.id === nodeId ? f(node) : node))`
abbrev pub update_where :
    String → (BuilderNodeDraft → BuilderNodeDraft) → BuilderDraftDocument → BuilderDraftDocument
update_where i f draft = record draft {
  nodes = map (λ n. if n.id == i then f n else n) draft.nodes;
}

-- `Partial<BuilderNodeDraft>`: the fields that are given replace those of the node.
pub record NodePatch : Type 0 where
  pub id : Option String
  pub kind : Option BuilderNodeKind
  pub title : Option String
  pub description : Option (Option String)
  pub agent : Option (Option String)
  pub position : Option BuilderNodePosition
  pub config : Option Fields
  pub transitions : Option (List BuilderTransition)
  pub ui : Option (Option NodeUi)

unfoldable pub patch_node : NodePatch → BuilderNodeDraft → BuilderNodeDraft
patch_node p n = record {
  id = get_or p.id n.id;
  kind = get_or p.kind n.kind;
  title = get_or p.title n.title;
  description = get_or p.description n.description;
  agent = get_or p.agent n.agent;
  position = get_or p.position n.position;
  config = get_or p.config n.config;
  transitions = get_or p.transitions n.transitions;
  ui = get_or p.ui n.ui;
}

unfoldable pub update_draft_node : BuilderDraftDocument → String → NodePatch → BuilderDraftDocument
unfolding patch_node
update_draft_node draft i patch = update_where i (patch_node patch) draft

unfoldable pub update_draft_node_config :
    BuilderDraftDocument → String → Fields → BuilderDraftDocument
update_draft_node_config draft i patch =
    update_where i (λ n. record n { config = merge n.config patch }) draft

-- `{ key?: string; targetNodeId?: string | null }`
pub record TransitionPatch : Type 0 where
  pub key : Option String
  pub target_node_id : Option (Option String)

unfoldable pub patch_transition : String → TransitionPatch → BuilderTransition → BuilderTransition
patch_transition k p t =
    if t.key == k
    then record t {
      key = get_or p.key t.key;
      target_node_id = get_or p.target_node_id t.target_node_id;
    }
    else t

unfoldable pub update_draft_transition :
    BuilderDraftDocument → String → String → TransitionPatch → BuilderDraftDocument
unfolding patch_transition
update_draft_transition draft i k patch =
    update_where i (λ n. record n { transitions = map (patch_transition k patch) n.transitions })
      draft

unfoldable pub add_draft_transition : BuilderDraftDocument → String → String → BuilderDraftDocument
add_draft_transition draft i k =
    update_where i (λ n. record n { transitions = n.transitions ++ unset k ∷ [] }) draft

unfoldable pub remove_draft_transition :
    BuilderDraftDocument → String → String → BuilderDraftDocument
remove_draft_transition draft i k =
    update_where i (λ n. record n { transitions = keep (λ t. not (t.key == k)) n.transitions })
      draft

-- `transition.targetNodeId === nodeId`
abbrev pub is_target : String → Option String → Bool
is_target i none = false
is_target i (some t) = t == i

unfoldable pub clear_target : String → BuilderTransition → BuilderTransition
clear_target i t = if is_target i t.target_node_id then record t { target_node_id = none } else t

unfoldable pub clear_targets : String → BuilderNodeDraft → BuilderNodeDraft
unfolding clear_target
clear_targets i n = record n { transitions = map (clear_target i) n.transitions }

abbrev pub other_than : String → List BuilderNodeDraft → List BuilderNodeDraft
other_than i = keep (λ n. not (n.id == i))

abbrev pub first_id : List BuilderNodeDraft → Option String
first_id [] = none
first_id (n ∷ ns) = some n.id

unfoldable pub remove_draft_node : BuilderDraftDocument → String → BuilderDraftDocument
unfolding clear_targets
remove_draft_node draft i =
    let remaining = map (clear_targets i) (other_than i draft.nodes) in
    record draft {
      start_node_id =
          if is_target i draft.start_node_id then first_id remaining else draft.start_node_id;
      nodes = remaining;
    }

-- A `Map` built from entries: the last entry of a key counts.
abbrev pub entry_of {ℓ} : {A : Type ℓ} → String → List (String × A) → Option A
entry_of i [] = none
entry_of i ((j, p) ∷ ps) = or_else (entry_of i ps) (if j == i then some p else none)

-- `positionMap.get(node.id) ?? node.position`
unfoldable pub place : List (String × BuilderNodePosition) → BuilderNodeDraft → BuilderNodeDraft
place positions n = record n { position = get_or (entry_of n.id positions) n.position }

unfoldable pub update_draft_node_positions :
    BuilderDraftDocument → List (String × BuilderNodePosition) → BuilderDraftDocument
unfolding place
update_draft_node_positions draft positions = record draft {
  nodes = map (place positions) draft.nodes;
}

unfoldable pub find_node : String → List BuilderNodeDraft → Option BuilderNodeDraft
find_node i nodes = find (λ n. n.id == i) nodes

abbrev duplicate_of :
    List BuilderNodeDraft → BuilderNodeDraft → BuilderNodePosition → BuilderNodeDraft
duplicate_of nodes source offset = record source {
  id = new_node_id nodes source.kind;
  title = source.title <> " (copy)";
  position = record { x = source.position.x +ℤ offset.x; y = source.position.y +ℤ offset.y };
  transitions =
      map (λ (t : BuilderTransition). record t { target_node_id = none }) source.transitions;
}

unfoldable pub duplicate_draft_node :
    BuilderDraftDocument → String → BuilderNodePosition → BuilderDraftDocument
unfolding find_node
duplicate_draft_node draft i offset = elim (find_node i draft.nodes) [
  | none ↦ draft
  | some source ↦ record draft {
    nodes = draft.nodes ++ duplicate_of draft.nodes source offset ∷ [];
  }
]

unfoldable pub set_draft_start_node : BuilderDraftDocument → String → BuilderDraftDocument
set_draft_start_node draft i = record draft { start_node_id = some i }

-- `transition.targetNodeId` as a condition: an empty text is no target.
abbrev pub target_of : BuilderTransition → Option String
target_of t = elim t.target_node_id [ none ↦ none | some i ↦ if is_empty i then none else some i ]

-- The targets of the transitions that point somewhere.
unfoldable pub targets : List BuilderTransition → List String
targets [] = []
targets (t ∷ ts) = elim (target_of t) [ none ↦ targets ts | some i ↦ i ∷ targets ts ]

edges_from : List BuilderNodeDraft → List (String × String)
edges_from [] = []
edges_from (n ∷ ns) = map (λ i. (n.id, i)) (targets n.transitions) ++ edges_from ns

-- Node ids, edges, and a node's id to the centre that dagre gives it.
abbrev pub Layout : Type 0
Layout = List String → List (String × String) → String → Option BuilderNodePosition

-- `dagreLayout` of legacy/transforms.ts: from a node's centre to its corner.
corner : BuilderNodePosition → BuilderNodePosition
corner p = record { x = p.x -ℤ pos 114; y = p.y -ℤ pos 62 }

unfoldable pub dagre_layout :
    Layout
    → List String
    → List (String × String)
    → List String
    → List (String × BuilderNodePosition)
unfolding corner
dagre_layout dagre nodes edges [] = []
dagre_layout dagre nodes edges (i ∷ is) = elim (dagre nodes edges i) [
  | none ↦ dagre_layout dagre nodes edges is
  | some p ↦ (i, corner p) ∷ dagre_layout dagre nodes edges is
]

unfoldable pub auto_layout_draft : Layout → BuilderDraftDocument → BuilderDraftDocument
unfolding edges_from targets dagre_layout
auto_layout_draft dagre draft =
    let ids = map (λ (n : BuilderNodeDraft). n.id) draft.nodes in
    update_draft_node_positions draft (dagre_layout dagre ids (edges_from draft.nodes) ids)
