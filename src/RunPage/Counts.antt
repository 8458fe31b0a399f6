-- ===== src/RunPage/Counts.antt =====
-- Which nodes the page summarises, and with which state.
use lang_orch.Base.{
  String, Bool, true, false, ◌||◌, Option, none, some, get_or, List, [], ◌∷◌, All, any, map, Fields,
  no_fields, if◌then◌else◌, ◌==◌, eq_iff, ◌≡◌, refl, ap, sym, ◌∙◌, arith, Bool-cases, inl, inr,
  Option-cases, at, set, ℤ,
}
use lang_orch.Overlay.Traversals.{RunEvent, node_of_event}
use lang_orch.RunPage.{NodeState, StatusMap, state_in}
use lang_orch.RunPage.Summaries.{
  NodeExecutionSummary, PageSummaries, Steps, new_summary, touch, note_event, step_of_event,
  step_error, with_override, summarized, record_event, record_one, record_events, step_values,
  sort_by, is_earlier, build_node_execution_summaries,
}
use lang_orch.RunPage.Sorting.{one_if, count_if, count_if-sort_by, any-sort_by, All-sort_by}
use lang_orch.RunPage.Rows.{
  names, or_turn, Table, has_row, rows_at, has_row-set, HasOneRowEach, HasOneRowEach-set,
}

node_id-if :
    (b : Bool) (x y : NodeExecutionSummary) (i : String)
    → x.node_id ≡ i
    → y.node_id ≡ i
    → (if b then x else y).node_id ≡ i
node_id-if true x y i h g = h
node_id-if false x y i h g = g

node_id-note_event :
    (t : String) (e : RunEvent) (payload : Fields) (s : NodeExecutionSummary)
    → (note_event t e payload s).node_id ≡ s.node_id
unfolding note_event
node_id-note_event t e payload s = node_id-if (t == "node_started") _ _ _ refl (
    node_id-if (t == "node_completed") _ _ _ refl (
      node_id-if (t == "node_paused") _ _ _ refl (
        node_id-if (t == "approval_requested") _ _ _ refl (
          node_id-if (t == "node_error") _ _ _ refl
            (node_id-if (t == "sla_breached") _ _ _ refl refl)))))

node_id-step_error :
    (o : Option String) (e : RunEvent) (payload : Fields) (s : NodeExecutionSummary)
    → (step_error o e payload s).node_id ≡ s.node_id
unfolding step_error
node_id-step_error none e payload s = refl
node_id-step_error (some i) e payload s =
    node_id-if (e.event_type == "step_error_notification") _ _ _ refl refl

node_id-with_override :
    (o : Option NodeState) (s : NodeExecutionSummary) → (with_override o s).node_id ≡ s.node_id
unfolding with_override
node_id-with_override none s = refl
node_id-with_override (some state) s = refl

status-with_override :
    (o : Option NodeState) (s : NodeExecutionSummary)
    → (with_override o s).status ≡ get_or o (with_override o s).status
unfolding with_override
status-with_override none s = refl
status-with_override (some state) s = refl

module _ (node_state_map : StatusMap) where
  -- A row is the summary of its key, with the state that the map has for it.
  abbrev pub IsShownAs : NodeExecutionSummary → Type 0
  IsShownAs s = s.status ≡ get_or (state_in (at s.node_id node_state_map)) s.status

  abbrev IsRow : String × NodeExecutionSummary → Type 0
  IsRow p = ((p.1).node_id ≡ p.0) × IsShownAs p.1

  IsRow-set :
      (k : String) (s : NodeExecutionSummary) (t : Table)
      → IsRow (k, s)
      → All (λ p. IsRow p) t
      → All (λ p. IsRow p) (set k s t)
  unfolding set
  IsRow-set k s [] r h = (r, tt)
  IsRow-set k s ((j, q) ∷ t) r h = elim (Bool-cases (j == k)) [
    | inl same ↦ let e : j ≡ k = (eq_iff j k).0 same in rw same ((r.0 ∙ sym e, r.1), h.1)
    | inr differ ↦ rw differ (h.0, IsRow-set k s t r h.1)
  ]

  row-at :
      (k : String) (t : Table)
      → All (λ p. IsRow p) t
      → (get_or (at k t) (new_summary k)).node_id ≡ k
  unfolding at
  row-at k [] h = refl
  row-at k ((j, q) ∷ t) h = elim (Bool-cases (j == k)) [
    | inl same ↦ let e : j ≡ k = (eq_iff j k).0 same in rw same (h.0.0 ∙ e)
    | inr differ ↦ rw differ (row-at k t h.1)
  ]

  IsRow-summarized :
      (k : String) (e : RunEvent) (steps : Steps) (before : Option NodeExecutionSummary)
      → (get_or before (new_summary k)).node_id ≡ k
      → IsRow (k, summarized node_state_map k e steps before)
  unfolding summarized touch
  IsRow-summarized k e steps before h =
      let payload = get_or e.payload no_fields in
      let touched = touch e payload (get_or before (new_summary k)) in
      let noted = note_event e.event_type e payload touched in
      let erred = step_error (step_of_event e) e payload noted in
      let last = record erred { steps = step_values steps } in
      let same : (summarized node_state_map k e steps before).node_id ≡ k =
        node_id-with_override (state_in (at k node_state_map)) last
        ∙ node_id-step_error (step_of_event e) e payload noted
        ∙ node_id-note_event e.event_type e payload touched
        ∙ h in
      (
        same,
        status-with_override (state_in (at k node_state_map)) last
            ∙ ap
                (λ (j : String).
                  get_or (state_in (at j node_state_map))
                    (summarized node_state_map k e steps before).status)
                (sym same),
      )

  record IsTable (t : Table) : Type 0 where
    rows : All (λ p. IsRow p) t
    once : HasOneRowEach t

  IsTable-record_event :
      (i : String) (e : RunEvent) (o : PageSummaries)
      → IsTable o.nodes
      → IsTable (record_event node_state_map i e o).nodes
  unfolding record_event
  IsTable-record_event i e o h = record {
    rows =
        IsRow-set i _ o.nodes (IsRow-summarized i e _ (at i o.nodes) (row-at i o.nodes h.rows))
          h.rows;
    once = HasOneRowEach-set i _ o.nodes h.once;
  }

  IsTable-record_one :
      (e : RunEvent) (o : PageSummaries)
      → IsTable o.nodes
      → IsTable (record_one node_state_map e o).nodes
  unfolding record_one
  IsTable-record_one e o h = elim (Option-cases (node_of_event e)) [
    | inl missing ↦ rw (missing, record_one) h
    | inr (i, there) ↦ rw (there, record_one) (IsTable-record_event i e o h)
  ]

  IsTable-record_events :
      (es : List RunEvent) (o : PageSummaries)
      → IsTable o.nodes
      → IsTable (record_events node_state_map es o).nodes
  unfolding record_events
  IsTable-record_events [] o h = h
  IsTable-record_events (e ∷ es) o h =
      IsTable-record_events es (record_one node_state_map e o) (IsTable-record_one e o h)

  has_row-record_one :
      (i : String) (e : RunEvent) (o : PageSummaries)
      → has_row i (record_one node_state_map e o).nodes ≡ (names i e || has_row i o.nodes)
  unfolding record_event record_one names
  has_row-record_one i e o = elim (Option-cases (node_of_event e)) [
    | inl missing ↦ rw (missing, record_one, names) refl
    | inr (j, there) ↦ rw (there, record_one, names) (has_row-set i j _ o.nodes)
  ]

  has_row-record_events :
      (i : String) (es : List RunEvent) (o : PageSummaries)
      → has_row i (record_events node_state_map es o).nodes
        ≡ (any (λ e. names i e) es || has_row i o.nodes)
  unfolding record_events
  has_row-record_events i [] o = refl
  has_row-record_events i (e ∷ es) o =
      has_row-record_events i es (record_one node_state_map e o)
      ∙ ap (λ b. any (λ f. names i f) es || b) (has_row-record_one i e o)
      ∙ or_turn (any (λ f. names i f) es) (names i e) (has_row i o.nodes)

IsIdFor : Table → Type 0
IsIdFor t =
    (i : String)
    → count_if (λ (s : NodeExecutionSummary). s.node_id == i)
        (map (λ (p : String × NodeExecutionSummary). p.1) t)
      ≡ rows_at i t

module _ (node_state_map : StatusMap) where
  rows-IsIdFor : (t : Table) → All (λ p. IsRow node_state_map p) t → IsIdFor t
  unfolding IsIdFor count_if
  rows-IsIdFor [] h i = refl
  rows-IsIdFor ((k, s) ∷ t) h i =
      let same : s.node_id ≡ k = h.0.0 in let rest = rows-IsIdFor t h.1 i in rw (same, rest) refl

  rows-shown :
      (t : Table)
      → All (λ p. IsRow node_state_map p) t
      → All (λ s. IsShownAs node_state_map s) (map (λ (p : String × NodeExecutionSummary). p.1) t)
  rows-shown [] h = tt
  rows-shown ((k, s) ∷ t) h = (h.0.1, rows-shown t h.1)

module _ (time event_number : String → ℤ) (events : List RunEvent)
    (node_state_map : StatusMap) where
  final : PageSummaries
  final =
      record_events node_state_map (sort_by (is_earlier time event_number) events)
        (record { nodes = []; steps_by_node = [] })

  final-IsTable : IsTable node_state_map final.nodes
  unfolding final HasOneRowEach count_if
  final-IsTable =
      IsTable-record_events node_state_map (sort_by (is_earlier time event_number) events)
        (record { nodes = []; steps_by_node = [] }) (record { rows = tt; once = λ i. refl })

or_false : (b : Bool) → (b || false) ≡ b
or_false b = ground arith

-- There is one summary for each node that an event names, and none for any other.
pub build_node_execution_summaries-once :
    (time event_number : String → ℤ) (events : List RunEvent) (node_state_map : StatusMap)
    (i : String)
    → count_if
        (λ (s : NodeExecutionSummary). s.node_id == i)
        (build_node_execution_summaries time event_number events node_state_map)
      ≡ one_if (any (λ e. names i e) events)
unfolding build_node_execution_summaries final IsIdFor HasOneRowEach
build_node_execution_summaries-once time event_number events node_state_map i =
    let table = final-IsTable time event_number events node_state_map in
    let sorted = sort_by (is_earlier time event_number) events in
    count_if-sort_by (λ (s : NodeExecutionSummary). s.node_id == i) _ _
    ∙ rows-IsIdFor node_state_map _ table.rows i
    ∙ table.once i
    ∙ ap (λ b. one_if b)
        (has_row-record_events node_state_map i sorted (record { nodes = []; steps_by_node = [] })
          ∙ or_false (any (λ e. names i e) sorted)
          ∙ any-sort_by (λ e. names i e) (is_earlier time event_number) events)

-- Each summary of a node that the state map has shows the state of that map.
pub build_node_execution_summaries-shown :
    (time event_number : String → ℤ) (events : List RunEvent) (node_state_map : StatusMap)
    → All
        (λ s. IsShownAs node_state_map s)
        (build_node_execution_summaries time event_number events node_state_map)
unfolding build_node_execution_summaries final
build_node_execution_summaries-shown time event_number events node_state_map =
    All-sort_by (λ s. IsShownAs node_state_map s) _ _
      (rows-shown node_state_map _ (final-IsTable time event_number events node_state_map).rows)
