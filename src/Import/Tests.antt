-- ===== src/Import/Tests.antt =====
-- Workflows and drafts to import.
use lang_orch.Base.{
  String, Option, none, some, List, [], ◌∷◌, All, map, ◌≡◌, refl, pos, Value, str, obj, arr,
  element, no_elements, no_fields, field, get, has, true, to_text,
}
use lang_orch.Draft.{
  BuilderNodeKind, human_approval, loop, terminate, BuilderTransition, BuilderNodeDraft,
  BuilderDraftDocument,
}
use lang_orch.Store.{Layout}
use lang_orch.Import.{Workflow, raw_nodes, ckp_workflow_to_draft_document}
use lang_orch.Import.Edges.{
  node_entries, node_links, direct_link, either_link, branch_links, rule_links, branch_label,
  condition_label, link_if, property,
}
use lang_orch.Import.Transitions.{each_once, is_absent, link_transitions, transition_to}
use lang_orch.Import.Laws.{outline, ckp_workflow_to_draft_document-outline}
use lang_orch.Import.Round.{reimported}
use lang_orch.Import.Links.{kept}
use lang_orch.Import.Kept.{is_fixed, next_target, approval_target, body_target}
use lang_orch.Import.Plain.{IsPlain, kept_transitions, reimported-kept}
use lang_orch.Export.Convert.{first_target, transition_target}

abbrev no_json : String → Option Value
no_json s = none

abbrev no_text : Value → String
no_text v = ""

abbrev no_layout : Layout
no_layout nodes edges i = none

abbrev rule : Value
rule = obj (field "next_node" (str "b") (field "condition" (str "x > 1") no_fields))

abbrev branch : Value
branch = obj (field "entry_node" (str "c") no_fields)

abbrev workflow : Workflow
workflow = record {
  start_node = str "a";
  nodes = obj (
      field "a"
        (obj (
          field "type" (str "logic") (
            field "rules" (arr (element rule no_elements))
              (field "default_next" (str "c") no_fields))))
        (field "b"
          (obj (
            field "branches" (arr (element branch (element (str "d") no_elements)))
              (field "next_node" (str "") no_fields)))
          no_fields));
}

ckp_workflow_to_draft_document-outline_example :
    map (λ n. outline n) (ckp_workflow_to_draft_document no_text no_layout workflow none none).nodes
    ≡ ("a", str "logic", transition_to "default" "c" ∷ transition_to "x > 1" "b" ∷ [])
      ∷ ("b", str "sequence", transition_to "branch" "c" ∷ [])
      ∷ []
unfolding each_once is_absent node_entries raw_nodes link_transitions node_links direct_link
    either_link branch_links rule_links branch_label condition_label link_if property get to_text
ckp_workflow_to_draft_document-outline_example =
    ckp_workflow_to_draft_document-outline no_text no_layout workflow none none refl

abbrev to : String → String → BuilderTransition
to key target = record { key = key; target_node_id = some target; label = none }

abbrev node : String → BuilderNodeKind → List BuilderTransition → BuilderNodeDraft
node i kind ts = record {
  id = i;
  kind = kind;
  title = i;
  description = none;
  agent = none;
  position = record { x = pos 0; y = pos 0 };
  config = no_fields;
  transitions = ts;
  ui = none;
}

abbrev draft : BuilderDraftDocument
draft = record {
  procedure_id = "p";
  procedure_version = "1";
  start_node_id = some "ask";
  nodes =
      node "ask" human_approval (to "reject" "end" ∷ to "approve" "repeat" ∷ to "note" "end" ∷ [])
      ∷ node "repeat" loop (to "loop body" "ask" ∷ to "done" "end" ∷ [])
      ∷ node "end" terminate []
      ∷ [];
  viewport = none;
  validation = none;
}

node-IsPlain :
    (i : String) (kind : BuilderNodeKind) (ts : List BuilderTransition)
    → is_fixed kind ≡ true
    → IsPlain (node i kind ts)
unfolding get has
node-IsPlain i kind ts h = record { lacks_lem = refl; extra_lem = refl; fixed_lem = h }

draft-IsPlain : All (λ n. IsPlain n) draft.nodes
unfolding is_fixed
draft-IsPlain = (
  node-IsPlain "ask" human_approval
      (to "reject" "end" ∷ to "approve" "repeat" ∷ to "note" "end" ∷ []) refl,
  (
    node-IsPlain "repeat" loop (to "loop body" "ask" ∷ to "done" "end" ∷ []) refl,
    (node-IsPlain "end" terminate [] refl, tt),
  ),
)

reimported-kept_example :
    map (λ n. outline n) (reimported no_json no_text no_layout draft).nodes
    ≡ (
      "ask",
      str "human_approval",
      transition_to "approve" "repeat" ∷ transition_to "reject" "end" ∷ [],
    )
      ∷ ("repeat", str "loop", transition_to "" "end" ∷ transition_to "loop body" "ask" ∷ [])
      ∷ ("end", str "terminate", [])
      ∷ []
unfolding kept_transitions kept next_target approval_target body_target first_target
    transition_target
reimported-kept_example =
    reimported-kept no_json no_text no_layout draft (refl, (refl, (refl, tt))) draft-IsPlain
