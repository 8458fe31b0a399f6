-- ===== src/Export/Convert.antt =====
-- The conversions of untyped configuration values (lines 5 to 87).
use lang_orch.Base.{
  String, Bool, true, false, not, Option, none, some, List, [], ◌∷◌, any, keep, if◌then◌else◌,
  is_blank, trim, ◌==◌, Number, finite, Value, bool, num, str, arr, obj, undefined, Elements,
  no_elements, element, Fields, put, or_else,
}
use lang_orch.Draft.{BuilderTransition}
use lang_orch.Store.{target_of, targets}

-- Keys that only the editor uses.
abbrev pub ui_only_config_keys : List String
ui_only_config_keys =
    "approvalPrompt" ∷ "decisionType" ∷ "timeoutMs" ∷ "llmPrompt" ∷ "llmModel" ∷ "orchestrationMode"
    ∷ "orchestrationBranches" ∷ "loopMaxIterations" ∷ "loopContinueCondition" ∷ "parallelWaitAll"
    ∷ "logicDefaultNext" ∷ "inputMapping" ∷ "outputMapping" ∷ "verificationRules" ∷ "subflowId"
    ∷ "subflowVersion" ∷ "onFailureNode" ∷ "retryMaxAttempts" ∷ "retryBackoffMs" ∷ "extraJsonText"
    ∷ "isCheckpoint" ∷ []

abbrev pub is_ui_only : String → Bool
is_ui_only k = any (λ j. j == k) ui_only_config_keys

-- The parsed text, or the value itself where it does not parse.
abbrev pub parsed_or : Option Value → Value → Value
parsed_or none v = v
parsed_or (some p) v = p

unfoldable pub parse_json_like : (String → Option Value) → Value → Value
parse_json_like parse_json (str s) =
    if is_blank s then undefined else parsed_or (parse_json (trim s)) (str s)
parse_json_like parse_json v = v

abbrev pub is_undefined : Value → Bool
is_undefined undefined = true
is_undefined v = false

abbrev object_of : Value → Option Fields
object_of (obj o) = some o
object_of v = none

abbrev objects_of : Elements → List Fields
objects_of no_elements = []
objects_of (element (obj o) vs) = o ∷ objects_of vs
objects_of (element v vs) = objects_of vs

abbrev array_of : Value → List Fields
array_of (arr vs) = objects_of vs
array_of v = []

unfoldable pub as_object : (String → Option Value) → Value → Option Fields
unfolding parse_json_like
as_object parse_json v = object_of (parse_json_like parse_json v)

unfoldable pub as_array : (String → Option Value) → Value → List Fields
unfolding parse_json_like
as_array parse_json v = array_of (parse_json_like parse_json v)

unfoldable pub as_string : Value → Option String
as_string (str s) = if is_blank s then none else some (trim s)
as_string v = none

unfoldable pub as_boolean : Value → Option Bool
as_boolean (bool b) = some b
as_boolean v = none

unfoldable pub as_number : Value → Option Number
as_number (num (finite n)) = some (finite n)
as_number v = none

-- `transitions.find((t) => t.key === key && t.targetNodeId)?.targetNodeId`
unfoldable pub transition_target : List BuilderTransition → String → Option String
transition_target [] k = none
transition_target (t ∷ ts) k =
    or_else (if t.key == k then target_of t else none) (transition_target ts k)

-- `getTransitionTarget(node, ...keys)`
unfoldable pub first_target : List BuilderTransition → List String → Option String
unfolding transition_target
first_target ts [] = none
first_target ts (k ∷ ks) = or_else (transition_target ts k) (first_target ts ks)

abbrev reserved_keys : List String
reserved_keys = "default" ∷ "done" ∷ "loop body" ∷ "next" ∷ "approve" ∷ "reject" ∷ "timeout" ∷ []

unfoldable pub conditional_targets : List BuilderTransition → List String
unfolding targets
conditional_targets ts = targets (keep (λ t. not (any (λ k. k == t.key) reserved_keys)) ts)

-- `text?.trim()` where that is not empty
abbrev pub trimmed : Option String → Option Value
trimmed none = none
trimmed (some s) = if is_blank s then none else some (str (trim s))

abbrev pub text : Option String → Option Value
text none = none
text (some s) = some (str s)

unfoldable pub put_some : String → Option String → Fields → Fields
put_some k none o = o
put_some k (some s) o = put k (str s) o

unfoldable pub put_all : List (String × Option Value) → Fields → Fields
put_all [] o = o
put_all ((k, none) ∷ ps) o = put_all ps o
put_all ((k, some v) ∷ ps) o = put_all ps (put k v o)
