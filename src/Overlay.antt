-- ===== src/Overlay.antt =====
-- The state of a run, shown on the builder's canvas: frontend/src/builder-v2/execution/run-overlay.ts.
-- The time that a text reads as, the order of `localeCompare` and the number that a text reads as are
-- the parameters `time`, `precedes` and `parse_number`. Iterations and totals are whole numbers.
pub mod Traversals
pub mod States
pub mod Sticky
pub mod Failures
mod Tests
use lang_orch.Base.{String, Bool, Option, none, some, List, Number, ℤ, ℕ}
use lang_orch.Overlay.Traversals.{RunEvent, build_edge_traversal_counts}
use lang_orch.Overlay.States.{BuilderNodeExecutionSummary, build_node_state_map}

-- The fields of a run that the overlay reads.
pub record Run : Type 0 where
  pub run_id : String
  pub status : String
  pub last_node_id : Option String
  pub started_at : Option String
  pub updated_at : String

pub record BuilderRunOverlay : Type 0 where
  pub run_id : String
  pub status : String
  pub last_node_id : Option String
  pub started_at : Option String
  pub updated_at : String
  pub node_states : List (String × BuilderNodeExecutionSummary)
  pub edge_traversals : List (String × ℕ)

pub build_builder_run_overlay :
    (String → ℤ)
    → (String → String → Bool)
    → (String → Number)
    → Option Run
    → List RunEvent
    → Option BuilderRunOverlay
build_builder_run_overlay time precedes parse_number none events = none
build_builder_run_overlay time precedes parse_number (some run) events = some (record {
  run_id = run.run_id;
  status = run.status;
  last_node_id = run.last_node_id;
  started_at = run.started_at;
  updated_at = run.updated_at;
  node_states = build_node_state_map parse_number events run.last_node_id run.status;
  edge_traversals = build_edge_traversal_counts time precedes events;
})
