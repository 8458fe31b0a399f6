-- ===== src/Draft/Registry.antt =====
-- The node registry: frontend/src/builder-v2/registry/node-definitions.ts. `blueprint` holds the
-- entries, `builder_node_blueprints` lists them in the order of the file.
pub mod Laws
mod Tests
use lang_orch.Base.{
  String, Bool, true, List, [], ◌∷◌, map, Option, find, ◌==◌, pos, finite, bool, num, str, arr, obj,
  no_elements, Fields, no_fields, field,
}
use lang_orch.Draft.{
  BuilderNodeKind, sequence, logic, loop, parallel, human_approval, llm_action, processing,
  verification, transform, subflow, terminate, kind_name, BuilderNodeBlueprint, Category,
  deterministic, intelligent, control,
}

abbrev entry :
    BuilderNodeKind → String → Category → String → List String → Fields → BuilderNodeBlueprint
entry k t c s keys config = record {
  kind = k;
  title = t;
  category = c;
  summary = s;
  transition_keys = keys;
  default_config = config;
}

unfoldable pub blueprint : BuilderNodeKind → BuilderNodeBlueprint
blueprint sequence =
    entry sequence "Sequence" deterministic
      "Run a deterministic list of steps with explicit bindings and ordered execution."
      ("next" ∷ []) (field "steps" (arr no_elements) no_fields)
blueprint logic =
    entry logic "Logic" control
      "Route the workflow using rule expressions, default paths, and outcome branches."
      ("true" ∷ "false" ∷ "default" ∷ []) (field "rules" (arr no_elements) no_fields)
blueprint loop =
    entry loop "Loop" control
      "Repeat work until a continue condition fails or the iteration cap is reached."
      ("loop body" ∷ "done" ∷ [])
      (field "max_iterations" (num (finite (pos 10)))
        (field "continue_condition" (str "") no_fields))
blueprint parallel =
    entry parallel "Parallel" control
      "Fan out into named branches and optionally wait for all branches to finish."
      ("branch" ∷ "next" ∷ [])
      (field "wait_all" (bool true) (field "branches" (arr no_elements) no_fields))
blueprint human_approval =
    entry human_approval "Approval" control
      "Pause the run for a human decision with approval, rejection, and timeout outcomes."
      ("approve" ∷ "reject" ∷ "timeout" ∷ [])
      (field "prompt" (str "") (field "decision_type" (str "approve_reject") no_fields))
blueprint llm_action =
    entry llm_action "LLM Action" intelligent
      "Invoke a model prompt and optionally enable orchestration behavior for branching flows."
      ("next" ∷ []) (field "prompt" (str "") (field "model" (str "") no_fields))
blueprint processing =
    entry processing "Processing" deterministic
      "Execute internal processing operations and continue on the next path." ("next" ∷ [])
      (field "operations" (arr no_elements) no_fields)
blueprint verification =
    entry verification "Verification" control
      "Evaluate checks, fail or warn inline, then continue on the next path." ("next" ∷ [])
      (field "rules" (arr no_elements) no_fields)
blueprint transform =
    entry transform "Transform" deterministic
      "Apply runtime transformations with explicit source, expression, and output targets."
      ("next" ∷ []) (field "transformations" (arr no_elements) no_fields)
blueprint subflow =
    entry subflow "Subflow" deterministic
      "Delegate execution to another procedure version and continue when it returns." ("next" ∷ [])
      (field "subflow_id" (str "") (field "version" (str "") no_fields))
blueprint terminate =
    entry terminate "Terminate" control
      "Finish the workflow with a final status and shaped output payload." []
      (field "status" (str "success") (field "outputs" (obj no_fields) no_fields))

abbrev pub builder_node_blueprints : List BuilderNodeBlueprint
builder_node_blueprints = map blueprint (
    sequence ∷ logic ∷ loop ∷ parallel ∷ human_approval ∷ llm_action ∷ processing ∷ verification
    ∷ transform ∷ subflow ∷ terminate ∷ [])

-- `nodeDefinitionMap[kind]` and `getBuilderNodeDefinition(kind)`
unfoldable pub get_builder_node_definition : BuilderNodeKind → Option BuilderNodeBlueprint
unfolding blueprint
get_builder_node_definition k = find (λ d. kind_name d.kind == kind_name k) builder_node_blueprints
