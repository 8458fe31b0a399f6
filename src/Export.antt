-- ===== src/Export.antt =====
-- From a draft to the workflow that the backend runs:
-- frontend/src/builder-v2/transforms/draft-to-ckp.ts. `JSON.parse` is the parameter `parse_json`.
-- A node's assignments `if (x) ckpNode.k = x` are a list of keys with optional values, in order.
pub mod Convert
pub mod Normalize
pub mod Kinds
pub mod Keys
pub mod Next
pub mod Graph
mod Tests
use lang_orch.Base.{
  String, Bool, true, false, not, ◌&&◌, ◌||◌, Option, none, some, List, [], ◌∷◌, if◌then◌else◌,
  is_blank, trim, Value, undefined, bool, str, arr, obj, Fields, no_fields, field, get, put, merge,
  truthy, is_filled_array,
}
use lang_orch.Draft.{
  BuilderNodeKind, sequence, logic, loop, parallel, human_approval, terminate, kind_name,
  BuilderNodeDraft, BuilderDraftDocument,
}
use lang_orch.Export.Convert.{
  parse_json_like, is_ui_only, is_undefined, put_some, put_all, first_target, trimmed,
}
use lang_orch.Export.Kinds.{assignments}

-- `Object.assign(base, extra)` where the extra text is an object.
abbrev pub assign_object : Value → Fields → Fields
assign_object (obj p) o = merge o p
assign_object v o = o

unfoldable pub head_fields : BuilderNodeDraft → Fields
head_fields n =
    put_all
      (("description", trimmed n.description)
        ∷ ("agent", trimmed n.agent)
        ∷ ("is_checkpoint", if truthy (get "isCheckpoint" n.config) then some (bool true) else none)
        ∷ [])
      (field "type" (str (kind_name n.kind)) no_fields)

-- `node.kind === "sequence" && Array.isArray(steps) && steps.length > 0`
unfoldable pub put_steps : BuilderNodeKind → Value → Fields → Fields
put_steps sequence steps o = if is_filled_array steps then put "steps" steps o else o
put_steps k steps o = o

-- The kinds whose next node the fallback fills in.
unfoldable pub has_fallback : BuilderNodeKind → Bool
has_fallback terminate = false
has_fallback logic = false
has_fallback human_approval = false
has_fallback loop = false
has_fallback parallel = false
has_fallback k = true

unfoldable pub put_fallback : BuilderNodeDraft → Fields → Fields
unfolding has_fallback
put_fallback n o =
    if has_fallback n.kind && not (truthy (get "next_node" o))
    then put_some "next_node" (first_target n.transitions ("next" ∷ [])) o
    else o

pub record CkpWorkflowGraph : Type 0 where
  pub start_node : Option String
  pub nodes : Fields

module _ (parse_json : String → Option Value) where
  -- the loop over the entries of the configuration
  unfoldable pub copy_config : Fields → Fields → Fields
  copy_config base no_fields = base
  copy_config base (field k v o) =
      copy_config
        (if is_undefined v || is_ui_only k then base else put k (parse_json_like parse_json v) base)
        o

  -- `extraJsonText`
  unfoldable pub assign_extra : Value → Fields → Fields
  assign_extra (str s) o =
      if is_blank s then o else assign_object (parse_json_like parse_json (str s)) o
  assign_extra v o = o

  unfoldable pub build_base_node : BuilderNodeDraft → Fields
  unfolding assign_extra
  build_base_node n =
      assign_extra (get "extraJsonText" n.config) (copy_config (head_fields n) n.config)

  unfoldable pub export_node : BuilderNodeDraft → Fields
  unfolding build_base_node put_steps put_fallback
  export_node n = put_fallback n (
      put_steps n.kind (get "steps" n.config)
        (put_all (assignments parse_json n.kind n) (build_base_node n)))

  unfoldable pub export_nodes : Fields → List BuilderNodeDraft → Fields
  export_nodes nodes [] = nodes
  export_nodes nodes (n ∷ ns) = export_nodes (put n.id (obj (export_node n)) nodes) ns

  unfoldable pub draft_document_to_ckp_workflow : BuilderDraftDocument → CkpWorkflowGraph
  unfolding export_nodes
  draft_document_to_ckp_workflow draft = record {
    start_node = draft.start_node_id;
    nodes = export_nodes no_fields draft.nodes;
  }
