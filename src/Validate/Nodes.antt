-- ===== src/Validate/Nodes.antt =====
-- The checks of one node (lines 20 to 138). `Number` of a text is the parameter `parse_number`.
pub mod Laws
use lang_orch.Base.{
  to_number, ℕ, String, Bool, true, false, not, ◌&&◌, ◌||◌, Option, none, some, List, [], ◌∷◌, ◌++◌,
  any, find, if◌then◌else◌, ◌==◌, ◌<>◌, is_blank, is_empty, pos, negsuc, ltb_ℤ, Number, finite,
  infinity, nan, Value, undefined, null, bool, num, str, arr, obj, Fields, get, nullish, truthy,
  is_filled_array, to_text, join_items, is_some,
}
use lang_orch.Draft.{
  BuilderNodeKind, sequence, logic, loop, parallel, human_approval, llm_action, processing,
  verification, transform, subflow, terminate, BuilderTransition, BuilderNodeDraft, Issue,
  ValidationReport,
}
use lang_orch.Store.{has_node, target_of}

abbrev pub report_of : List Issue → List Issue → ValidationReport
report_of es ws = record { errors = es; warnings = ws }

-- Reports one after the other.
infixr 60 ◌andthen◌
abbrev pub ◌andthen◌ : ValidationReport → ValidationReport → ValidationReport
a andthen b = report_of (a.errors ++ b.errors) (a.warnings ++ b.warnings)

abbrev pub issue_at : String → String → Issue
issue_at i m = record { node_id = some i; message = m }

-- `if (test) errors.push(…)` and `if (test) warnings.push(…)`
abbrev pub error_if : Bool → Issue → ValidationReport
error_if true e = report_of (e ∷ []) []
error_if false e = report_of [] []

abbrev pub warn_if : Bool → Issue → ValidationReport
warn_if true w = report_of [] (w ∷ [])
warn_if false w = report_of [] []

-- `!String(value ?? "").trim()`
abbrev pub blank_value : Value → Bool
blank_value v = is_blank (to_text (nullish v (str "")))

-- `config[k] ?? config[l]`
abbrev pub get_either : String → String → Fields → Value
get_either k l c = nullish (get k c) (get l c)

abbrev has_key : String → List BuilderTransition → Bool
has_key k ts = any (λ t. t.key == k) ts

pub check_transition : List BuilderNodeDraft → String → BuilderTransition → ValidationReport
check_transition nodes i t = elim (target_of t) [
  | none ↦
      report_of []
        (issue_at i ("Transition '" <> t.key <> "' does not point to a target yet.") ∷ [])
  | some target ↦
      error_if (not (has_node nodes target))
        (issue_at i ("Transition '" <> t.key <> "' points to missing node '" <> target <> "'."))
]

unfoldable pub check_transitions :
    List BuilderNodeDraft → String → List BuilderTransition → ValidationReport
check_transitions nodes i [] = report_of [] []
check_transitions nodes i (t ∷ ts) = check_transition nodes i t andthen check_transitions nodes i ts

check_approval : BuilderNodeDraft → ValidationReport
check_approval n =
    warn_if (not (has_key "approve" n.transitions))
      (issue_at n.id "Approval step is missing an approve path.")
    andthen warn_if (not (has_key "reject" n.transitions))
        (issue_at n.id "Approval step is missing a reject path.")
    andthen warn_if (blank_value (get_either "prompt" "approvalPrompt" n.config))
        (issue_at n.id "Approval step has no prompt text — reviewers will see a blank request.")

check_llm : BuilderNodeDraft → ValidationReport
check_llm n =
    error_if (blank_value (get_either "model" "llmModel" n.config))
      (issue_at n.id "LLM Action requires a model to be set before it can run.")
    andthen warn_if (blank_value (get_either "prompt" "llmPrompt" n.config))
        (issue_at n.id "LLM Action has no prompt — the model will receive an empty input.")

-- `transitions.find((t) => t.key === "loop body")?.targetNodeId ?? config.body_node`
pub loop_body : BuilderNodeDraft → Value
loop_body n = elim (find (λ t. t.key == "loop body") n.transitions) [
  | none ↦ get "body_node" n.config
  | some t ↦ elim t.target_node_id [ none ↦ get "body_node" n.config | some i ↦ str i ]
]

-- `number < 1`
abbrev below_one : Number → Bool
below_one (finite n) = ltb_ℤ n (pos 1)
below_one (infinity positive) = not positive
below_one nan = false

-- `maxIter !== undefined && Number(maxIter) < 1`
pub too_few : (String → Number) → Value → Bool
too_few parse_number undefined = false
too_few parse_number v = below_one (to_number parse_number v)

check_loop : (String → Number) → BuilderNodeDraft → ValidationReport
check_loop parse_number n =
    error_if (blank_value (get "iterator" n.config))
      (issue_at n.id "Loop requires an iterator variable name (for example 'items').")
    andthen error_if (blank_value (get "iterator_variable" n.config))
        (issue_at n.id "Loop requires a current item variable to expose each iteration value.")
    andthen error_if (blank_value (loop_body n))
        (issue_at n.id "Loop requires a 'loop body' transition target.")
    andthen error_if
        (too_few parse_number (get_either "max_iterations" "loopMaxIterations" n.config))
        (issue_at n.id "Loop max iterations must be at least 1.")

check_subflow : BuilderNodeDraft → ValidationReport
check_subflow n =
    error_if (blank_value (get_either "subflow_id" "subflowId" n.config))
      (issue_at n.id "Subflow step requires a procedure ID to delegate to.")

check_processing : BuilderNodeDraft → ValidationReport
check_processing n =
    error_if
      (not (is_filled_array (get "operations" n.config)) && blank_value (get "action" n.config))
      (issue_at n.id "Processing step requires an action name.")
    andthen warn_if
        (not (is_filled_array (get "operations" n.config))
          && not (blank_value (get "action" n.config)))
        (issue_at n.id
          "This node still uses the legacy single-action processing shape. Converting it to explicit operations is recommended.")
    andthen warn_if
        (any (λ t. t.key == "pass" || t.key == "fail" || t.key == "error") n.transitions)
        (issue_at n.id
          "Processing nodes execute a single next path. Legacy pass/fail/error edges are ignored at runtime.")

check_transform : BuilderNodeDraft → ValidationReport
check_transform n =
    error_if
      (not (is_filled_array (get "transformations" n.config))
        && blank_value (get "transformer" n.config))
      (issue_at n.id "Transform step requires at least one transformation.")
    andthen warn_if
        (not (is_filled_array (get "transformations" n.config))
          && not (blank_value (get "transformer" n.config)))
        (issue_at n.id
          "Legacy transformer/input-output mapping config is no longer executable on its own. Add explicit transformations.")

check_parallel : BuilderNodeDraft → ValidationReport
check_parallel n =
    error_if (not (is_filled_array (get "branches" n.config)))
      (issue_at n.id "Parallel node needs at least one branch defined.")
    andthen warn_if
        (not (any (λ t. t.key == "next" && is_some (target_of t)) n.transitions)
          && not (truthy (get "next_node" n.config)))
        (issue_at n.id
          "Parallel node has no join path yet. Add a 'next' transition for the post-merge step.")

check_sequence : BuilderNodeDraft → ValidationReport
check_sequence n =
    warn_if (not (is_filled_array (get "steps" n.config)))
      (issue_at n.id "Sequence node has no steps configured yet.")

check_verification : BuilderNodeDraft → ValidationReport
check_verification n = warn_if (has_key "fail" n.transitions) (
    issue_at n.id
      "Verification failures are handled inside each check. Separate fail edges are not executed by the backend.")

unfoldable check_kind : (String → Number) → BuilderNodeKind → BuilderNodeDraft → ValidationReport
check_kind parse_number human_approval n = check_approval n
check_kind parse_number llm_action n = check_llm n
check_kind parse_number loop n = check_loop parse_number n
check_kind parse_number subflow n = check_subflow n
check_kind parse_number processing n = check_processing n
check_kind parse_number transform n = check_transform n
check_kind parse_number parallel n = check_parallel n
check_kind parse_number sequence n = check_sequence n
check_kind parse_number verification n = check_verification n
check_kind parse_number logic n = report_of [] []
check_kind parse_number terminate n = report_of [] []

-- `node.kind !== "terminate" && node.transitions.length === 0`
abbrev pub is_dead_end : BuilderNodeKind → List BuilderTransition → Bool
is_dead_end terminate ts = false
is_dead_end k [] = true
is_dead_end k (t ∷ ts) = false

unfoldable pub check_node :
    (String → Number) → List BuilderNodeDraft → BuilderNodeDraft → ValidationReport
unfolding check_transitions check_transition check_kind check_approval check_llm check_loop
    loop_body too_few check_subflow check_processing check_transform check_parallel check_sequence
    check_verification
check_node parse_number nodes n =
    warn_if (is_blank n.title) (issue_at n.id "This step has no title yet.")
    andthen warn_if (is_dead_end n.kind n.transitions)
        (issue_at n.id "This step has no outgoing path yet.")
    andthen check_transitions nodes n.id n.transitions
    andthen check_kind parse_number n.kind n

unfoldable pub check_nodes :
    (String → Number) → List BuilderNodeDraft → List BuilderNodeDraft → ValidationReport
check_nodes parse_number nodes [] = report_of [] []
check_nodes parse_number nodes (n ∷ ns) =
    check_node parse_number nodes n andthen check_nodes parse_number nodes ns
