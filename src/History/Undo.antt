-- ===== src/History/Undo.antt =====
-- What undo and redo give back.
use lang_orch.Base.{
  String, Bool, true, false, Option, none, some, get_or, List, [], ◌∷◌, All, ◌||◌, Value, ◌≡◌, ◌≢◌,
  refl, inl, inr, arith,
}
use lang_orch.Draft.{BuilderDraftDocument}
use lang_orch.History.{
  DraftHistoryState, has_meaningful_change, base_differs, clone_draft, apply_draft_change,
  undo_draft_change, redo_draft_change,
}
use lang_orch.History.Loaded.{
  split_last-concat, split_last_cases, IsLoadedDraft, IsLoaded, All-split,
}

module _ (parse_json : String → Option Value) where
  -- Redo after an undo that did something gives back the history as it was, with no pending base.
  pub redo-undo :
      (h : DraftHistoryState)
      → IsLoaded parse_json h
      → h.past ≢ []
      → redo_draft_change parse_json (undo_draft_change parse_json h)
        ≡ record h { pending_history_base = none }
  unfolding undo_draft_change redo_draft_change
  redo-undo h v ne = elim (split_last_cases h.past) [
    | inl (empty, _) ↦ absurd (ne empty)
    | inr (before, last, found, whole) ↦
        let (_, loaded) = All-split parse_json before last (rw whole at v.past) in
        ground (arith, loaded, v.present, found, whole)
  ]

  -- Undo after a redo that did something gives back the history as it was, with no pending base.
  pub undo-redo :
      (h : DraftHistoryState)
      → IsLoaded parse_json h
      → h.future ≢ []
      → undo_draft_change parse_json (redo_draft_change parse_json h)
        ≡ record h { pending_history_base = none }
  unfolding undo_draft_change redo_draft_change
  undo-redo h v ne = on_future h.future v.future ne
    where
      on_future :
          (ds : List BuilderDraftDocument)
          → All (IsLoadedDraft parse_json) ds
          → ds ≢ []
          → undo_draft_change parse_json (redo_draft_change parse_json (record h { future = ds }))
            ≡ record h { future = ds; pending_history_base = none }
      on_future [] a ne = absurd (ne refl)
      on_future (d ∷ ds) a ne =
          ground
            (arith, a.0, v.present, split_last-concat h.past (clone_draft parse_json h.present))

  -- Changes that are not recorded, such as those of a drag.
  unfoldable pub drag :
      List (BuilderDraftDocument → BuilderDraftDocument) → DraftHistoryState → DraftHistoryState
  drag [] h = h
  drag (f ∷ fs) h = drag fs (apply_draft_change parse_json f false h)

  -- The draft at which a gesture began is the pending base, if anything changed since.
  record IsDragged (start : BuilderDraftDocument) (h g : DraftHistoryState) : Type 0 where
    past : g.past ≡ h.past
    base : get_or g.pending_history_base g.present ≡ start

  drag-IsDragged :
      (start : BuilderDraftDocument)
      → IsLoadedDraft parse_json start
      → (fs : List (BuilderDraftDocument → BuilderDraftDocument)) (h g : DraftHistoryState)
      → IsDragged start h g
      → IsDragged start h (drag fs g)
  unfolding drag apply_draft_change
  drag-IsDragged start l [] h g v = v
  drag-IsDragged start l (f ∷ fs) h g v =
      drag-IsDragged start l fs h (apply_draft_change parse_json f false g)
        (on_base g.pending_history_base v.past v.base)
    where
      on_base :
          (p : Option BuilderDraftDocument)
          → g.past ≡ h.past
          → get_or p g.present ≡ start
          → IsDragged start h
              (apply_draft_change parse_json f false (record g { pending_history_base = p }))
      on_base none same e = ground (arith, l)
      on_base (some b) same e = ground (arith, l)

  -- Whether a recorded change is committed: it differs from the present draft, or from the pending
  -- base.
  abbrev pub is_committed : (BuilderDraftDocument → BuilderDraftDocument) → DraftHistoryState → Bool
  is_committed f h =
      has_meaningful_change h.present (clone_draft parse_json (f h.present))
      || base_differs h.pending_history_base (clone_draft parse_json (f h.present))

  -- A recorded change that closes a gesture of unrecorded ones is one step of the history: one undo
  -- gives back the draft and the past at which the gesture began.
  pub undo-drag :
      (h : DraftHistoryState) (fs : List (BuilderDraftDocument → BuilderDraftDocument))
      (f : BuilderDraftDocument → BuilderDraftDocument)
      → IsLoaded parse_json h
      → h.pending_history_base ≡ none
      → is_committed f (drag fs h) ≡ true
      → ((undo_draft_change parse_json (apply_draft_change parse_json f true (drag fs h))).present
          ≡ h.present)
        × ((undo_draft_change parse_json (apply_draft_change parse_json f true (drag fs h))).past
            ≡ h.past)
        × ((apply_draft_change parse_json f true (drag fs h)).future ≡ [])
  unfolding undo_draft_change apply_draft_change
  undo-drag h fs f v fresh c =
      let g = drag fs h in
      let d =
        drag-IsDragged h.present v.present fs h h (record { past = refl; base = ground arith }) in
      let base = get_or g.pending_history_base g.present in
      ground
        (arith, d.past, d.base, v.present, split_last-concat g.past (clone_draft parse_json base))
