-- ===== src/Validate/Cycles.antt =====
-- The depth-first search for cycles (lines 162 to 189), on fuel for its depth.
pub mod Sound
pub mod Silent
mod Finish
pub mod Complete
use text.Mathlib.Text.{find?}
use lang_orch.Base.{
  ℕ, zero, suc, String, Bool, true, false, not, ◌&&◌, Option, none, some, List, [], ◌∷◌, ◌++◌, any,
  keep, length, if◌then◌else◌, ◌==◌, ◌<>◌, is_some,
}
use lang_orch.Draft.{BuilderNodeDraft, Issue}
use lang_orch.Validate.Graph.{targets_of, contains}

-- `cycleVisited`, `cycleStack` and the errors so far
pub record CycleState : Type 0 where
  pub visited : List String
  pub stack : List String
  pub errors : List Issue

abbrev is_at : String → Option String → Bool
is_at i none = false
is_at i (some j) = j == i

cycle_issue : String → Issue
cycle_issue i = record {
  node_id = some i;
  message =
      "Cycle detected: '" <> i
      <> "' eventually loops back to itself. Use a Loop node to model intentional repetition.";
}

-- The push, unless an error of the node already has `cycle` in its message.
unfoldable pub report_cycle : String → List Issue → List Issue
unfolding cycle_issue
report_cycle i es =
    if any (λ (e : Issue). is_at i e.node_id && is_some (find? e.message "cycle")) es
    then es
    else es ++ cycle_issue i ∷ []

-- `cycleStack.delete(nodeId)`
abbrev pub delete : String → List String → List String
delete i = keep (λ j. not (j == i))

abbrev pub leave : String → CycleState → CycleState
leave i s = record s { stack = delete i s.stack }

abbrev pub enter : String → CycleState → CycleState
enter i s = record s { visited = i ∷ s.visited; stack = i ∷ s.stack }

-- The loop over the targets: the first that lies on a cycle ends it.
unfoldable pub try_targets :
    (String → CycleState → Bool × CycleState) → List String → CycleState → Bool × CycleState
try_targets detect [] s = (false, s)
try_targets detect (t ∷ ts) s =
    let later = try_targets detect ts (detect t s).1 in if (detect t s).0 then detect t s else later

abbrev pub close : String → Bool × CycleState → Bool × CycleState
close i (true, s) = (true, leave i (record s { errors = report_cycle i s.errors }))
close i (false, s) = (false, leave i s)

unfoldable pub detect_cycle : ℕ → List BuilderNodeDraft → String → CycleState → Bool × CycleState
detect_cycle zero nodes i s = (false, s)
detect_cycle (suc fuel) nodes i s =
    let searched =
      close i (try_targets (detect_cycle fuel nodes) (targets_of nodes i) (enter i s)) in
    if contains s.stack i then (true, s) else if contains s.visited i then (false, s) else searched

-- The outer loop. A chain of calls visits another node at each call but the last, so one more than
-- the number of nodes is enough fuel.
unfoldable pub detect_from :
    ℕ → List BuilderNodeDraft → List BuilderNodeDraft → CycleState → CycleState
detect_from fuel nodes [] s = s
detect_from fuel nodes (n ∷ ns) s =
    detect_from fuel nodes ns
      (if contains s.visited n.id then s else (detect_cycle fuel nodes n.id s).1)

unfoldable pub detect_cycles : List BuilderNodeDraft → List Issue → List Issue
detect_cycles nodes errors =
    (detect_from (suc (length nodes)) nodes nodes
      (record { visited = []; stack = []; errors = errors })).errors
