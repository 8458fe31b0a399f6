-- ===== src/Validate/Document.antt =====
-- `validateDraftDocument`: the checks in the order of the source.
pub mod Laws
use lang_orch.Base.{
  String, Bool, true, false, not, ◌&&◌, Option, none, some, List, [], ◌∷◌, ◌++◌, if◌then◌else◌,
  ◌<>◌, is_empty, Number,
}
use lang_orch.Draft.{BuilderNodeDraft, BuilderDraftDocument, Issue, ValidationReport}
use lang_orch.Store.{has_node}
use lang_orch.Validate.Graph.{contains}
use lang_orch.Validate.Nodes.{report_of, ◌andthen◌, issue_at, error_if, warn_if, check_nodes}
use lang_orch.Validate.Reach.{visited_from}
use lang_orch.Validate.Cycles.{detect_cycles}

-- `draft.startNodeId` as a condition: the empty text is no start node.
abbrev pub start_of : Option String → Option String
start_of none = none
start_of (some i) = if is_empty i then none else some i

check_start : List BuilderNodeDraft → Option String → ValidationReport
check_start nodes none =
    report_of
      (record {
        node_id = none;
        message = "A start node is required before this workflow can be published.";
      }
        ∷ [])
      []
check_start nodes (some i) = error_if (not (has_node nodes i)) (record {
  node_id = none;
  message = "The selected start node '" <> i <> "' does not exist in this draft.";
})

unreachable_warnings : List String → List BuilderNodeDraft → ValidationReport
unreachable_warnings visited [] = report_of [] []
unreachable_warnings visited (n ∷ ns) =
    warn_if (not (contains visited n.id))
      (issue_at n.id "This step is not reachable from the current start node.")
    andthen unreachable_warnings visited ns

-- The walks, made from an existing start node only. The search for cycles sees the errors so far.
check_graph : List BuilderNodeDraft → Option String → ValidationReport → ValidationReport
check_graph nodes none r = r
check_graph nodes (some i) r =
    let walked = r andthen unreachable_warnings (visited_from nodes i) nodes in
    if has_node nodes i then report_of (detect_cycles nodes walked.errors) walked.warnings else r

check_all : (String → Number) → List BuilderNodeDraft → Option String → ValidationReport
check_all parse_number nodes start =
    check_graph nodes start (check_start nodes start andthen check_nodes parse_number nodes nodes)

unfoldable pub validate_draft_document : (String → Number) → BuilderDraftDocument → ValidationReport
unfolding check_all check_graph check_start unreachable_warnings
validate_draft_document parse_number draft = elim draft.nodes [
  | [] ↦ report_of [] (record { node_id = none; message = "This draft has no nodes yet." } ∷ [])
  | n ∷ ns ↦ check_all parse_number draft.nodes (start_of draft.start_node_id)
]
