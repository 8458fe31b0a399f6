-- ===== src/Import/Nodes.antt =====
-- The data of a node (frontend/src/builder-v2/legacy/transforms.ts, lines 54 to 136).
use lang_orch.Base.{
  String, Bool, true, false, not, List, [], ◌∷◌, if◌then◌else◌, ◌==◌, ◌<>◌, Value, undefined, null,
  str, arr, obj, Elements, no_elements, element, Fields, get, nullish, truthy, to_text,
}
use lang_orch.Store.{remove_all}
use lang_orch.Import.Edges.{property}

pub record BuilderNodeData : Type 0 where
  pub label : String
  pub node_type : Value
  pub description : Value
  pub agent : Value
  pub is_start : Bool
  pub is_checkpoint : Bool
  pub status : Value
  pub approval_prompt : Value
  pub decision_type : Value
  pub timeout_ms : Value
  pub llm_prompt : Value
  pub llm_model : Value
  pub orchestration_mode : Bool
  pub orchestration_branches : Value
  pub loop_max_iterations : Value
  pub loop_continue_condition : Value
  pub parallel_wait_all : Bool
  pub logic_default_next : Value
  pub action : Value
  pub input_mapping : String
  pub output_mapping : String
  pub transformer : Value
  pub verification_rules : Value
  pub subflow_id : Value
  pub subflow_version : Value
  pub steps : Value
  pub checks : Value
  pub outputs : Value
  pub on_failure_node : String
  pub retry_max_attempts : Value
  pub retry_backoff_ms : Value
  pub extra : Fields

-- The keys that are not kept as extra.
abbrev pub known_keys : List String
known_keys =
    "type" ∷ "description" ∷ "agent" ∷ "is_checkpoint" ∷ "status" ∷ "prompt" ∷ "decision_type"
    ∷ "timeout_ms" ∷ "model" ∷ "next_node" ∷ "on_approve" ∷ "on_reject" ∷ "on_timeout" ∷ "on_true"
    ∷ "on_false" ∷ "on_pass" ∷ "on_fail" ∷ "on_error" ∷ "on_failure" ∷ "default_next"
    ∷ "default_next_node" ∷ "loop_body" ∷ "body_node" ∷ "branches" ∷ "orchestration_mode"
    ∷ "max_iterations" ∷ "continue_condition" ∷ "wait_all" ∷ "wait_strategy" ∷ "branch_failure"
    ∷ "action" ∷ "input_mapping" ∷ "output_mapping" ∷ "transformer" ∷ "rules" ∷ "checks" ∷ "steps"
    ∷ "outputs" ∷ "subflow_id" ∷ "version" ∷ "retry" ∷ []

abbrev or_text : Value → Value
or_text v = nullish v (str "")

-- `(node.branches as string[]).join(", ")`
abbrev branch_text : Value → String
branch_text undefined = ""
branch_text null = ""
branch_text v = to_text v

more_branches : Elements → String
more_branches no_elements = ""
more_branches (element v vs) = ", " <> branch_text v <> more_branches vs

join_branches : Elements → String
unfolding more_branches
join_branches no_elements = ""
join_branches (element v vs) = branch_text v <> more_branches vs

unfoldable pub orchestration_branches_of : Value → Value
unfolding join_branches
orchestration_branches_of (arr vs) = str (join_branches vs)
orchestration_branches_of v = or_text v

abbrev is_text : String → Value → Bool
is_text t (str s) = s == t
is_text t v = false

unfoldable pub parallel_wait_all_of : Value → Value → Bool
parallel_wait_all_of undefined undefined = true
parallel_wait_all_of undefined wait_all = truthy wait_all
parallel_wait_all_of wait_strategy wait_all = not (is_text "any" wait_strategy)

abbrev array_or_empty : Value → Value
array_or_empty (arr vs) = arr vs
array_or_empty v = arr no_elements

abbrev object_or_undefined : Value → Value
object_or_undefined (obj o) = obj o
object_or_undefined v = undefined

abbrev text_or_empty : Value → String
text_or_empty (str s) = s
text_or_empty v = ""

module _ (print_json : Value → String) where
  abbrev mapping_text : Value → String
  mapping_text v = if truthy v then print_json v else ""

  abbrev rules_text : Value → Value
  rules_text (arr vs) = str (print_json (arr vs))
  rules_text (obj o) = str (print_json (obj o))
  rules_text v = or_text v

  unfoldable pub node_data : Value → String → Fields → BuilderNodeData
  unfolding orchestration_branches_of parallel_wait_all_of remove_all property
  node_data start_node i node = record {
    label = i;
    node_type = nullish (get "type" node) (str "sequence");
    description = or_text (get "description" node);
    agent = or_text (get "agent" node);
    is_start = is_text i start_node;
    is_checkpoint = truthy (get "is_checkpoint" node);
    status = or_text (get "status" node);
    approval_prompt = or_text (get "prompt" node);
    decision_type = or_text (get "decision_type" node);
    timeout_ms = get "timeout_ms" node;
    llm_prompt = or_text (get "prompt" node);
    llm_model = or_text (get "model" node);
    orchestration_mode = truthy (get "orchestration_mode" node);
    orchestration_branches = orchestration_branches_of (get "branches" node);
    loop_max_iterations = get "max_iterations" node;
    loop_continue_condition = or_text (get "continue_condition" node);
    parallel_wait_all = parallel_wait_all_of (get "wait_strategy" node) (get "wait_all" node);
    logic_default_next = nullish (get "default_next_node" node) (or_text (get "default_next" node));
    action = or_text (get "action" node);
    input_mapping = mapping_text (get "input_mapping" node);
    output_mapping = mapping_text (get "output_mapping" node);
    transformer = or_text (get "transformer" node);
    verification_rules = rules_text (get "rules" node);
    subflow_id = or_text (get "subflow_id" node);
    subflow_version = or_text (get "version" node);
    steps = array_or_empty (get "steps" node);
    checks = array_or_empty (get "checks" node);
    outputs = object_or_undefined (get "outputs" node);
    on_failure_node = text_or_empty (get "on_failure" node);
    retry_max_attempts = property "max_attempts" (get "retry" node);
    retry_backoff_ms = property "backoff_ms" (get "retry" node);
    extra = remove_all known_keys node;
  }
