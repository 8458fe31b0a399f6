-- ===== src/History/Moves.antt =====
-- Changes of position and the history. The fingerprint leaves positions out, and a change that it
-- does not see is not applied.
use lang_orch.Base.{
  String, Bool, Option, none, List, [], ◌∷◌, map, length-map, eq_iff, Value, ◌≡◌, refl, ap, ◌∙◌,
  arith,
}
use lang_orch.Draft.{BuilderNodePosition, BuilderNodeDraft, BuilderDraftDocument}
use lang_orch.Store.{place, update_draft_node_positions, normalize_loaded_node, load_draft_document}
use lang_orch.History.{
  DraftHistoryState, node_fingerprint, draft_fingerprint, clone_draft, apply_draft_change,
}
use lang_orch.History.Loaded.{IsLoadedDraft}

module _ (parse_json : String → Option Value) (ps : List (String × BuilderNodePosition)) where
  fingerprints-place :
      (ns : List BuilderNodeDraft)
      → map node_fingerprint (map (normalize_loaded_node parse_json) (map (place ps) ns))
        ≡ map node_fingerprint (map (normalize_loaded_node parse_json) ns)
  unfolding node_fingerprint normalize_loaded_node place
  fingerprints-place [] = refl
  fingerprints-place (n ∷ ns) = cc (fingerprints-place ns)

  fingerprint-place :
      (d : BuilderDraftDocument)
      → draft_fingerprint (clone_draft parse_json (update_draft_node_positions d ps))
        ≡ draft_fingerprint (clone_draft parse_json d)
  unfolding draft_fingerprint load_draft_document update_draft_node_positions
  fingerprint-place d =
      let norm = normalize_loaded_node parse_json in
      ground (
        arith,
        fingerprints-place d.nodes,
        length-map norm (map (place ps) d.nodes),
        length-map (place ps) d.nodes,
        length-map norm d.nodes,
      )

-- With no pending base, an update that only moves nodes, recorded or not, leaves the whole history
-- as it is: the positions of the present draft do not change.
pub apply_draft_change-positions :
    (parse_json : String → Option Value) (h : DraftHistoryState) (record_history : Bool)
    (positions : BuilderDraftDocument → List (String × BuilderNodePosition))
    → IsLoadedDraft parse_json h.present
    → h.pending_history_base ≡ none
    → apply_draft_change parse_json
        (λ d. update_draft_node_positions d (positions d))
        record_history
        h
      ≡ h
unfolding apply_draft_change
apply_draft_change-positions parse_json h r positions l fresh =
    let next =
      clone_draft parse_json (update_draft_node_positions h.present (positions h.present)) in
    let same : draft_fingerprint next ≡ draft_fingerprint h.present =
      fingerprint-place parse_json (positions h.present) h.present ∙ ap draft_fingerprint l in
    ground (arith, same, eq_iff (draft_fingerprint h.present) (draft_fingerprint next))
