-- ===== src/Import.antt =====
-- From a workflow to a draft: frontend/src/builder-v2/legacy/transforms.ts (edgeColor and ckpToRf) and
-- frontend/src/builder-v2/transforms/ckp-to-draft.ts. `JSON.stringify` with an indent of 2 is the
-- parameter `print_json`, the layout engine is `dagre`. A field that the code casts without a test is a value. A node,
-- branch or rule that is no object is read as one without fields; `null`, where the code throws, is left out.
pub mod Edges
pub mod Nodes
pub mod Transitions
pub mod Laws
pub mod Round
pub mod Links
pub mod Kept
pub mod Exported
pub mod Plain
mod Tests
use lang_orch.Base.{
  ℕ, String, Bool, true, false, not, ◌&&◌, ◌||◌, Option, none, some, get_or, List, [], ◌∷◌, map,
  keep, if◌then◌else◌, ◌==◌, is_empty, pos, at, Value, undefined, null, bool, str, obj, Fields,
  no_fields, field, get, merge, nullish, truthy,
}
use lang_orch.Draft.{BuilderNodePosition, BuilderTransition}
use lang_orch.Store.{Layout, dagre_layout}
use lang_orch.Import.Edges.{Edge, node_entries, ckp_edges}
use lang_orch.Import.Nodes.{BuilderNodeData, node_data}

-- A node of the canvas: its identifier and its data; the position follows with the layout.
pub record RfNode : Type 0 where
  pub id : String
  pub position : BuilderNodePosition
  pub node_data : BuilderNodeData

-- What `ckpToRf` reads of a workflow.
pub record Workflow : Type 0 where
  pub start_node : Value
  pub nodes : Value

unfoldable pub raw_nodes : Value → Fields
raw_nodes (obj o) = o
raw_nodes v = no_fields

abbrev origin : BuilderNodePosition
origin = record { x = pos 0; y = pos 0 }

abbrev pub end_points : Edge → String × String
end_points e = (e.source, e.target)

module _ (print_json : Value → String) where
  unfoldable pub rf_node : Value → List (String × BuilderNodePosition) → String × Fields → RfNode
  rf_node start_node positions (i, node) = record {
    id = i;
    position = get_or (at i positions) origin;
    node_data = node_data print_json start_node i node;
  }

module _ (print_json : Value → String) (dagre : Layout) where
  unfoldable pub ckp_to_rf : Workflow → List RfNode × List Edge
  unfolding raw_nodes rf_node
  ckp_to_rf w =
      let start_node = nullish w.start_node (str "") in
      let entries = node_entries (raw_nodes w.nodes) in
      let edges = ckp_edges entries [] in
      let ids = map (λ (e : String × Fields). e.0) entries in
      let positions = dagre_layout dagre ids (map (λ e. end_points e) edges) ids in
      (map (λ e. rf_node print_json start_node positions e) entries, edges)

-- The node of a draft before its kind is known to be one of the eleven.
pub record ImportedNode : Type 0 where
  pub id : String
  pub kind : Value
  pub title : String
  pub description : Value
  pub agent : Value
  pub position : BuilderNodePosition
  pub config : Fields
  pub transitions : List BuilderTransition

pub record ImportedDraft : Type 0 where
  pub procedure_id : String
  pub procedure_version : String
  pub start_node_id : Value
  pub nodes : List ImportedNode

unfoldable pub transition_key : Option String → String
transition_key none = "next"
transition_key (some s) = if is_empty s then "next" else s

abbrev transition_label : Option String → Option String
transition_label none = none
transition_label (some s) = if is_empty s then none else some s

unfoldable pub transition_of_edge : Edge → BuilderTransition
unfolding transition_key
transition_of_edge e = record {
  key = transition_key e.label;
  target_node_id = some e.target;
  label = transition_label e.label;
}

unfoldable pub edges_of : String → List Edge → List Edge
edges_of i edges = keep (λ (e : Edge). e.source == i) edges

unfoldable pub fields_of : List (String × Value) → Fields
fields_of [] = no_fields
fields_of ((k, v) ∷ ps) = field k v (fields_of ps)

unfoldable pub imported_config : BuilderNodeData → Fields
unfolding fields_of
imported_config d = merge d.extra (
    fields_of (
      ("status", d.status)
      ∷ ("approvalPrompt", d.approval_prompt)
      ∷ ("decisionType", d.decision_type)
      ∷ ("timeoutMs", d.timeout_ms)
      ∷ ("llmPrompt", d.llm_prompt)
      ∷ ("llmModel", d.llm_model)
      ∷ ("orchestrationMode", bool d.orchestration_mode)
      ∷ ("orchestrationBranches", d.orchestration_branches)
      ∷ ("loopMaxIterations", d.loop_max_iterations)
      ∷ ("loopContinueCondition", d.loop_continue_condition)
      ∷ ("parallelWaitAll", bool d.parallel_wait_all)
      ∷ ("logicDefaultNext", d.logic_default_next)
      ∷ ("action", d.action)
      ∷ ("inputMapping", str d.input_mapping)
      ∷ ("outputMapping", str d.output_mapping)
      ∷ ("transformer", d.transformer)
      ∷ ("verificationRules", d.verification_rules)
      ∷ ("subflowId", d.subflow_id)
      ∷ ("subflowVersion", d.subflow_version)
      ∷ ("onFailureNode", str d.on_failure_node)
      ∷ ("retryMaxAttempts", d.retry_max_attempts)
      ∷ ("retryBackoffMs", d.retry_backoff_ms)
      ∷ ("extraJsonText", undefined)
      ∷ ("operations", get "operations" d.extra)
      ∷ ("steps", d.steps)
      ∷ ("checks", d.checks)
      ∷ ("transformations", get "transformations" d.extra)
      ∷ ("outputs", d.outputs)
      ∷ ("isCheckpoint", bool d.is_checkpoint)
      ∷ []))

unfoldable pub imported_node : List Edge → RfNode → ImportedNode
unfolding transition_of_edge edges_of imported_config
imported_node edges n = record {
  id = n.id;
  kind = n.node_data.node_type;
  title = n.node_data.label;
  description = if truthy n.node_data.description then n.node_data.description else undefined;
  agent = if truthy n.node_data.agent then n.node_data.agent else null;
  position = n.position;
  config = imported_config n.node_data;
  transitions = map (λ e. transition_of_edge e) (edges_of n.id edges);
}

module _ (print_json : Value → String) (dagre : Layout) where
  unfoldable pub ckp_workflow_to_draft_document :
      Workflow → (procedure_id procedure_version : Option String) → ImportedDraft
  unfolding ckp_to_rf imported_node
  ckp_workflow_to_draft_document w procedure_id procedure_version =
      let rf = ckp_to_rf print_json dagre w in
      record {
        procedure_id = get_or procedure_id "reference-procedure";
        procedure_version = get_or procedure_version "draft";
        start_node_id = nullish w.start_node null;
        nodes = map (λ n. imported_node rf.1 n) rf.0;
      }
