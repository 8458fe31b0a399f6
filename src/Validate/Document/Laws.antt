-- ===== src/Validate/Document/Laws.antt =====
-- When a draft has no errors.
use lang_orch.Base.{
  String, true, Option, none, some, List, [], ◌∷◌, all, Number, Bool-cases, ◌≡◌, ◌≢◌, ◌↔◌, refl,
  ◌∙◌, inl, inr, arith,
}
use lang_orch.Draft.{BuilderNodeDraft, BuilderDraftDocument, ValidationReport}
use lang_orch.Store.{has_node}
use lang_orch.Store.Closed.{closed_nodes}
use lang_orch.Validate.Graph.{Edge, Walk}
use lang_orch.Validate.Nodes.{◌andthen◌, check_nodes}
use lang_orch.Validate.Nodes.Laws.{append-eq-nil, is_ready, check_nodes_iff}
use lang_orch.Validate.Reach.{visited_from}
use lang_orch.Validate.Cycles.Silent.{errors-detect_cycles}
use lang_orch.Validate.Cycles.Complete.{detect_cycles-eq-nil, detect_cycles_complete}
use lang_orch.Validate.Document.{
  start_of, check_start, unreachable_warnings, check_graph, check_all, validate_draft_document,
}

-- A start node is set and exists.
abbrev pub StartExists : List BuilderNodeDraft → Option String → Type 0
StartExists ns none = ⊥
StartExists ns (some i) = has_node ns i ≡ true

-- No transition of a node starts a walk back to it.
abbrev pub Acyclic : List BuilderNodeDraft → Type 0
Acyclic ns = (x y : String) → Edge ns x y → ¬ Walk ns y x

-- What the builder asks of a draft before it can be published.
pub record IsPublishable (parse_number : String → Number) (d : BuilderDraftDocument) : Type 0 where
  pub start : StartExists d.nodes (start_of d.start_node_id)
  pub closed : closed_nodes d.nodes d.nodes ≡ true
  pub ready : all (λ n. is_ready parse_number n.kind n) d.nodes ≡ true
  pub acyclic : Acyclic d.nodes

errors-unreachable_warnings :
    (visited : List String) (ns : List BuilderNodeDraft)
    → (unreachable_warnings visited ns).errors ≡ []
unfolding unreachable_warnings
errors-unreachable_warnings visited [] = refl
errors-unreachable_warnings visited (n ∷ ns) =
    ground (arith, errors-unreachable_warnings visited ns)

check_start_iff :
    (ns : List BuilderNodeDraft) (o : Option String)
    → ((check_start ns o).errors ≡ []) ↔ StartExists ns o
unfolding check_start
check_start_iff ns none = (λ h. cc, λ h. absurd h)
check_start_iff ns (some i) = ground arith

module _ (ns : List BuilderNodeDraft) (i : String) (r : ValidationReport)
    (found : has_node ns i ≡ true) where
  check_graph_iff : ((check_graph ns (some i) r).errors ≡ []) ↔ ((r.errors ≡ []) × Acyclic ns)
  unfolding check_graph
  check_graph_iff = rw found (
    λ h. (
      ((append-eq-nil r.errors _).0 (detect_cycles-eq-nil ns _ h)).0,
      detect_cycles_complete ns _ h,
    ),
    λ h.
        errors-detect_cycles ns h.1 _
        ∙ (append-eq-nil r.errors _).1 (h.0, errors-unreachable_warnings (visited_from ns i) ns),
  )

check_all_iff :
    (parse_number : String → Number) (ns : List BuilderNodeDraft) (o : Option String)
    → ((check_all parse_number ns o).errors ≡ []) ↔ (
        StartExists ns o
        × (closed_nodes ns ns ≡ true)
        × (all (λ n. is_ready parse_number n.kind n) ns ≡ true)
        × Acyclic ns)
unfolding check_all check_graph check_start
check_all_iff parse_number ns none = (λ h. absurd (ground arith), λ h. absurd h.0)
check_all_iff parse_number ns (some i) =
    let nodes = check_nodes parse_number ns ns in
    let r = check_start ns (some i) andthen nodes in
    let parts = append-eq-nil (check_start ns (some i)).errors nodes.errors in
    (
      λ h. elim (Bool-cases (has_node ns i)) [
        | inl found ↦
            let (none_before, acyclic) = (check_graph_iff ns i r found).0 h in
            let (closed, ready) = (check_nodes_iff parse_number ns ns).0 (parts.0 none_before).1 in
            (found, closed, ready, acyclic)
        | inr missing ↦ absurd (ground arith)
      ],
      λ h. (check_graph_iff ns i r h.0).1 (
        parts.1 (
          (check_start_iff ns (some i)).1 h.0,
          (check_nodes_iff parse_number ns ns).1 (h.1, h.2),
        ),
        h.3,
      ),
    )

-- A draft with nodes has no errors if and only if it is publishable: its start node and all targets
-- exist, each node has what its kind needs, and no transition starts a walk back to its node.
pub validate_draft_document_iff :
    (parse_number : String → Number) (d : BuilderDraftDocument)
    → d.nodes ≢ []
    → ((validate_draft_document parse_number d).errors ≡ []) ↔ IsPublishable parse_number d
unfolding validate_draft_document
validate_draft_document_iff parse_number d ne = on_nodes d.nodes ne
  where
    on_nodes :
        (ns : List BuilderNodeDraft)
        → ns ≢ []
        → ((validate_draft_document parse_number (record d { nodes = ns })).errors ≡ [])
          ↔ IsPublishable parse_number (record d { nodes = ns })
    on_nodes [] ne = absurd (ne refl)
    on_nodes (n ∷ ns) ne =
        let whole = check_all_iff parse_number (n ∷ ns) (start_of d.start_node_id) in
        (
          λ h.
              let (start, closed, ready, acyclic) = whole.0 h in
              record { start = start; closed = closed; ready = ready; acyclic = acyclic },
          λ v. whole.1 (v.start, v.closed, v.ready, v.acyclic),
        )
