-- ===== src/Export/Tests.antt =====
-- The export at concrete nodes.
use lang_orch.Base.{
  String, false, Option, none, some, [], ◌∷◌, pos, Value, str, obj, num, finite, Fields, no_fields,
  field, get, has, ◌≡◌, refl, trim, split_on, show, is_lower_case,
}
use lang_orch.Draft.{sequence, parallel, BuilderNodeKind, BuilderNodeDraft, BuilderDraftDocument}
use lang_orch.Store.{find_node}
use lang_orch.Export.{export_node, draft_document_to_ckp_workflow}
use lang_orch.Export.Convert.{as_string, transition_target}
use lang_orch.Export.Normalize.{logic_rules, verification_checks}
use lang_orch.Export.Keys.{IsNotInExtra, export_node-hides}
use lang_orch.Export.Next.{single_next, export_node-next_node}
use lang_orch.Export.Graph.{draft_document_to_ckp_workflow-nodes}

abbrev no_json : String → Option Value
no_json s = none

abbrev node_with : String → BuilderNodeKind → Fields → BuilderNodeDraft
node_with i k config = record {
  id = i;
  kind = k;
  title = i;
  description = some " d ";
  agent = none;
  position = record { x = pos 0; y = pos 0 };
  config = config;
  transitions = record { key = "next"; target_node_id = some "done"; label = none } ∷ [];
  ui = none;
}

abbrev retrying : BuilderNodeDraft
retrying = node_with "work" sequence (
    field "retryMaxAttempts" (num (finite (pos 3)))
      (field "extraJsonText" (str " ") (field "steps" (str "x") no_fields)))

abbrev waits_for_all : BuilderNodeDraft
waits_for_all = node_with "fork" parallel (field "wait_strategy" (str "all") no_fields)

abbrev forked : BuilderDraftDocument
forked = record {
  procedure_id = "p";
  procedure_version = "1";
  start_node_id = some "work";
  nodes = retrying ∷ waits_for_all ∷ [];
  viewport = none;
  validation = none;
}

export_node-hides_example : has "retryMaxAttempts" (export_node no_json retrying) ≡ false
unfolding IsNotInExtra
export_node-hides_example =
    export_node-hides no_json retrying "retryMaxAttempts" refl (λ s p e q. cc q)

export_node-next_node_example : get "next_node" (export_node no_json retrying) ≡ str "done"
unfolding get as_string transition_target single_next
export_node-next_node_example = export_node-next_node no_json retrying "done" refl refl

draft_document_to_ckp_workflow-nodes_example :
    get "fork" (draft_document_to_ckp_workflow no_json forked).nodes
    ≡ obj (export_node no_json waits_for_all)
unfolding find_node
draft_document_to_ckp_workflow-nodes_example =
    draft_document_to_ckp_workflow-nodes no_json forked "fork" (refl, (refl, tt))

-- A rule takes the target at its own position among the transitions, and one without a condition is
-- left out.
rules_in_step :
    logic_rules
      (field "condition" (str "a") no_fields
        ∷ no_fields
        ∷ field "expression" (str "c") (field "next" (str "z") no_fields)
        ∷ [])
      ("x" ∷ "y" ∷ [])
    ≡ (field "condition" (str "a") (field "next_node" (str "x") no_fields))
      ∷ (field "condition" (str "c") (field "next_node" (str "z") no_fields))
      ∷ []
unfolding logic_rules get as_string trim
rules_in_step = refl

-- The number in a check's identifier counts the checks that were left out.
checks_numbered :
    (verification_checks 1
        (no_fields ∷ field "condition" (str "c") (field "severity" (str "Warning") no_fields) ∷ [])
      ≡ field "id" (str "check_2") (
          field "condition"
            (str "c")
            (field "on_fail" (str "warn") (field "message" (str "") no_fields)))
        ∷ [])
unfolding verification_checks get as_string trim show is_lower_case
checks_numbered = refl

names_split : split_on 44 "a,b,,c" ≡ ("a" ∷ "b" ∷ "" ∷ "c" ∷ [])
unfolding split_on
names_split = refl
