-- ===== src/Validate/Tests.antt =====
-- The check at concrete drafts.
use mathlib.Core.Path.{subst}
use lang_orch.Base.{
  String, true, Option, none, some, List, [], ◌∷◌, Number, nan, pos, no_fields, ◌≡◌, ◌↔◌, refl,
  eq_iff, arith,
}
use lang_orch.Draft.{sequence, BuilderTransition, BuilderNodeDraft, BuilderDraftDocument, Issue}
use lang_orch.Store.{targets}
use lang_orch.Validate.Graph.{contains, targets_of, node_of, Edge, Walk, here, step}
use lang_orch.Validate.Reach.{visited_from}
use lang_orch.Validate.Reach.Correct.{visited_from_iff}
use lang_orch.Validate.Cycles.{
  CycleState, detect_cycle, detect_cycles, try_targets, report_cycle, detect_from,
}
use lang_orch.Validate.Cycles.Sound.{CycleFrom, detect_cycle_sound}
use lang_orch.Validate.Cycles.Complete.{detect_cycles_complete}
use lang_orch.Validate.Document.{validate_draft_document}
use lang_orch.Validate.Document.Laws.{IsPublishable, validate_draft_document_iff}

abbrev node_to : String → List String → BuilderNodeDraft
node_to i ts = record {
  id = i;
  kind = sequence;
  title = i;
  description = none;
  agent = none;
  position = record { x = pos 0; y = pos 0 };
  config = no_fields;
  transitions = transitions_to ts;
  ui = none;
}
  where
    transitions_to : List String → List BuilderTransition
    transitions_to [] = []
    transitions_to (t ∷ ts) =
        record { key = "next"; target_node_id = some t; label = none } ∷ transitions_to ts

abbrev draft_of : List BuilderNodeDraft → BuilderDraftDocument
draft_of nodes = record {
  procedure_id = "p";
  procedure_version = "1";
  start_node_id = some "a";
  nodes = nodes;
  viewport = none;
  validation = none;
}

-- `a` leads to `b`, which leads back to itself.
abbrev tail_loop : List BuilderNodeDraft
tail_loop = node_to "a" ("b" ∷ []) ∷ node_to "b" ("b" ∷ []) ∷ []

abbrev no_number : String → Number
no_number s = nan

visited_from_iff_example :
    (contains (visited_from tail_loop "a") "b" ≡ true) ↔ Walk tail_loop "a" "b"
visited_from_iff_example = visited_from_iff tail_loop "a" "b"

abbrev unvisited : CycleState
unvisited = record { visited = []; stack = []; errors = [] }

detect_cycle_sound_example : CycleFrom tail_loop "a"
unfolding detect_cycle try_targets targets_of node_of targets report_cycle
detect_cycle_sound_example = detect_cycle_sound tail_loop 3 "a" unvisited refl refl

abbrev chain : List BuilderNodeDraft
chain = node_to "a" ("b" ∷ []) ∷ node_to "b" [] ∷ []

detect_cycles_complete_example : ¬ Walk chain "b" "a"
unfolding detect_cycles detect_from detect_cycle try_targets targets_of node_of targets
detect_cycles_complete_example = detect_cycles_complete chain [] refl "a" "b" refl

validate_draft_document_iff_example :
    ((validate_draft_document no_number (draft_of chain)).errors ≡ [])
    ↔ IsPublishable no_number (draft_of chain)
validate_draft_document_iff_example =
    validate_draft_document_iff no_number (draft_of chain) (λ e. cc)

-- The report blames `a` as well, though no transition leads back to it.
blamed : List Issue → List (Option String)
blamed [] = []
blamed (e ∷ es) = e.node_id ∷ blamed es

blamed-tail_loop : blamed (detect_cycles tail_loop []) ≡ some "b" ∷ some "a" ∷ []
unfolding blamed detect_cycles detect_from detect_cycle try_targets targets_of node_of targets
    report_cycle
blamed-tail_loop = refl

only_b : {x : String} → Walk tail_loop "b" x → x ≡ "b"
unfolding targets_of node_of targets
only_b here = refl
only_b (step {v} {w} r e) =
    let from_b : Edge tail_loop "b" w = subst (λ z. Edge tail_loop z w) (only_b r) e in
    ground (arith, eq_iff "b" w)

a_not_on_cycle : ¬ Walk tail_loop "b" "a"
a_not_on_cycle w = ground (arith, only_b w, eq_iff "a" "b")
