-- ===== src/Export/Normalize.antt =====
-- The lists and texts that the assignments are made of (lines 121 to 296).
use lang_orch.Base.{
  ℕ, ◌+◌, String, Bool, true, false, ◌&&◌, ◌||◌, Option, none, some, get_or, or_else, List, [], ◌∷◌,
  ◌++◌, map, if◌then◌else◌, is_blank, is_some, trim, drop, show, ◌==◌, ◌<>◌, starts_with,
  is_lower_case, split_on, Number, Value, num, str, arr, obj, items, Fields, no_fields, field, get,
}
use lang_orch.Draft.{BuilderTransition}
use lang_orch.Store.{target_of}
use lang_orch.Export.Convert.{as_string}

-- An array of objects, assigned where it is not empty.
abbrev pub objects : List Fields → Option Value
objects [] = none
objects (o ∷ os) = some (arr (items (map obj (o ∷ os))))

abbrev pub object : Option Fields → Option Value
object none = none
object (some o) = some (obj o)

abbrev pub number : Option Number → Option Value
number none = none
number (some n) = some (num n)

-- The first of some keys that holds a text.
unfoldable pub first_string : Fields → List String → Option String
first_string o [] = none
first_string o (k ∷ ks) = or_else (as_string (get k o)) (first_string o ks)

-- `transitionTargets[index]`
abbrev pub head_or_none : List String → Option String
head_or_none [] = none
head_or_none (t ∷ ts) = some t

abbrev pub tail : List String → List String
tail [] = []
tail (t ∷ ts) = ts

abbrev pub rule : Option String → Option String → List Fields
rule (some c) (some n) = field "condition" (str c) (field "next_node" (str n) no_fields) ∷ []
rule c n = []

-- `normalizeLogicRules`: the targets fall behind the rules in step.
unfoldable pub logic_rules : List Fields → List String → List Fields
unfolding first_string
logic_rules [] ts = []
logic_rules (r ∷ rs) ts =
    rule (first_string r ("condition" ∷ "expression" ∷ []))
      (or_else (first_string r ("next_node" ∷ "next" ∷ [])) (head_or_none ts))
    ++ logic_rules rs (tail ts)

-- `asString(severity)?.toLowerCase() === "warning"`
abbrev pub is_warning : Option String → Bool
is_warning none = false
is_warning (some s) = is_lower_case s "warning"

abbrev pub check : ℕ → Fields → Option String → List Fields
check index c none = []
check index c (some condition) =
    field "id" (str (get_or (as_string (get "id" c)) ("check_" <> show index))) (
      field "condition" (str condition) (
        field "on_fail"
          (str (
            get_or (as_string (get "on_fail" c))
              (if is_warning (as_string (get "severity" c)) then "warn" else "fail_workflow")))
          (field "message" (str (get_or (as_string (get "message" c)) "")) no_fields)))
    ∷ []

-- `normalizeVerificationChecks`, with the index that names a check
unfoldable pub verification_checks : ℕ → List Fields → List Fields
unfolding first_string
verification_checks index [] = []
verification_checks index (c ∷ cs) =
    check index c (first_string c ("condition" ∷ "expression" ∷ []))
    ++ verification_checks (index + 1) cs

abbrev pub branch_fields : String → String → Fields
branch_fields i start = field "branch_id" (str i) (field "start_node" (str start) no_fields)

abbrev pub branch : ℕ → Fields → Option String → List Fields
branch index b none = []
branch index b (some start) =
    branch_fields (get_or (first_string b ("branch_id" ∷ "name" ∷ [])) ("branch_" <> show index))
      start
    ∷ []

unfoldable pub explicit_branches : ℕ → List Fields → List Fields
explicit_branches index [] = []
explicit_branches index (b ∷ bs) =
    branch index b (first_string b ("start_node" ∷ "target" ∷ "entry_node" ∷ []))
    ++ explicit_branches (index + 1) bs

-- `transition.targetNodeId && (key === "branch" || key.startsWith("branch:"))`
abbrev pub is_branch : BuilderTransition → Bool
is_branch t = is_some (target_of t) && (t.key == "branch" || starts_with t.key "branch:")

unfoldable pub transition_branches : ℕ → List BuilderTransition → List Fields
transition_branches index [] = []
transition_branches index (t ∷ ts) =
    branch_fields (if t.key == "branch" then "branch_" <> show index else drop 7 t.key)
      (get_or (target_of t) "")
    ∷ transition_branches (index + 1) ts

abbrev pub or_if_empty : List Fields → List Fields → List Fields
or_if_empty [] os = os
or_if_empty (o ∷ os) ps = o ∷ os

-- `asString(ws) ?? (waitAll) === false ? "any" : "all"`: the comparison binds first, then `??`, and the
-- conditional is last, so any text counts as true.
abbrev pub wait_strategy : Option String → Option Bool → String
wait_strategy (some s) wait_all = "any"
wait_strategy none (some false) = "any"
wait_strategy none _ = "all"

unfoldable pub non_blank : List String → List Value
non_blank [] = []
non_blank (s ∷ ss) = if is_blank s then non_blank ss else str (trim s) ∷ non_blank ss

-- `rawBranches.split(",").map(trim).filter(Boolean)`
abbrev pub branch_names : Option String → Option Value
branch_names none = none
branch_names (some s) = some (arr (items (non_blank (split_on 44 s))))

-- `orchestration_mode` is assigned only where it is on.
abbrev pub is_on : Option Bool → Bool
is_on (some true) = true
is_on b = false
