-- ===== src/Overlay/Traversals.antt =====
-- How often a run went from one node to the next (lines 27 to 51).
pub mod Laws
use lang_orch.Base.{
  ℕ, ◌+◌, String, Bool, true, false, not, ◌&&◌, ◌||◌, Option, none, some, get_or, List, [], ◌∷◌,
  keep, if◌then◌else◌, ◌==◌, ◌<>◌, is_empty, is_some, ℤ, ltb_ℤ, Value, Fields, at, set,
}

pub record RunEvent : Type 0 where
  pub event_id : String
  pub event_type : String
  pub node_id : Option String
  pub step_id : Option String
  pub payload : Option Fields
  pub created_at : String

-- `event.node_id` where it is truthy
unfoldable pub node_of_event : RunEvent → Option String
node_of_event e = elim e.node_id [ none ↦ none | some i ↦ if is_empty i then none else some i ]

is_start : RunEvent → Bool
unfolding node_of_event
is_start e = e.event_type == "node_started" && is_some (node_of_event e)

module _ (time : String → ℤ) (precedes : String → String → Bool) where
  -- The comparison of the sort, whether `right` comes strictly first.
  comes_first : RunEvent → RunEvent → Bool
  comes_first right left =
      ltb_ℤ (time right.created_at) (time left.created_at)
      || not (ltb_ℤ (time left.created_at) (time right.created_at))
        && precedes right.event_id left.event_id

  -- The sort is stable.
  insert_event : RunEvent → List RunEvent → List RunEvent
  insert_event e [] = e ∷ []
  insert_event e (f ∷ fs) =
      let later = insert_event e fs in if comes_first f e then f ∷ later else e ∷ f ∷ fs

  sort_events : List RunEvent → List RunEvent
  sort_events [] = []
  sort_events (e ∷ es) = insert_event e (sort_events es)

  pub started_events : List RunEvent → List RunEvent
  unfolding comes_first insert_event sort_events is_start
  started_events events = sort_events (keep is_start events)

abbrev pub edge_key : String → String → String
edge_key from to = from <> "=>" <> to

-- `counts[key] = (counts[key] ?? 0) + 1`
pub count_one : String → List (String × ℕ) → List (String × ℕ)
count_one k counts = set k (get_or (at k counts) 0 + 1) counts

pub count_step : Option String → Option String → List (String × ℕ) → List (String × ℕ)
count_step (some from) (some to) counts = count_one (edge_key from to) counts
count_step from to counts = counts

-- The loop over the neighbours.
pub count_steps : List RunEvent → List (String × ℕ) → List (String × ℕ)
unfolding count_step
count_steps [] counts = counts
count_steps (e ∷ es) counts = elim es [
  | [] ↦ counts
  | f ∷ fs ↦ count_steps es (count_step (node_of_event e) (node_of_event f) counts)
]

pub build_edge_traversal_counts :
    (String → ℤ) → (String → String → Bool) → List RunEvent → List (String × ℕ)
unfolding count_steps
build_edge_traversal_counts time precedes events =
    count_steps (started_events time precedes events) []
