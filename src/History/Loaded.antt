-- ===== src/History/Loaded.antt =====
-- Every draft in the history is a loaded one, after any calls of the hook.
use lang_orch.Base.{
  String, Bool, Option, none, some, get_or, List, [], ◌∷◌, ◌++◌, All, Value, ◌≡◌, ◌⊎◌, refl, ap,
  inl, inr, arith,
}
use lang_orch.Draft.{BuilderDraftDocument}
use lang_orch.Store.Normal.{load_draft_document_idem}
use lang_orch.History.{
  DraftHistoryState, clone_draft, reset_draft_history, commit, apply_draft_change, split_last,
  undo_draft_change, redo_draft_change,
}

pub split_last-concat :
    (ds : List BuilderDraftDocument) (d : BuilderDraftDocument)
    → split_last (ds ++ d ∷ []) ≡ some (ds, d)
unfolding split_last
split_last-concat [] d = refl
split_last-concat (e ∷ ds) d = rw (split_last-concat ds d, split_last)

pub split_last_cases :
    (ds : List BuilderDraftDocument)
    → (ds ≡ []) × (split_last ds ≡ none)
      ⊎ ((before : List BuilderDraftDocument) × (last : BuilderDraftDocument) × (split_last ds
            ≡ some (before, last))
          × (ds ≡ before ++ last ∷ []))
unfolding split_last
split_last_cases [] = inl (refl, refl)
split_last_cases (e ∷ ds) = elim (split_last_cases ds) [
  | inl (empty, none_left) ↦ inr ([], e, rw (none_left, split_last), ap (e ∷◌) empty)
  | inr (before, last, found, whole) ↦
      inr (e ∷ before, last, rw (found, split_last), ap (e ∷◌) whole)
]

module _ (parse_json : String → Option Value) where
  -- A draft that was loaded: cloning it changes nothing.
  abbrev pub IsLoadedDraft : BuilderDraftDocument → Type 0
  IsLoadedDraft d = clone_draft parse_json d ≡ d

  pub record IsLoaded (h : DraftHistoryState) : Type 0 where
    pub past : All IsLoadedDraft h.past
    pub present : IsLoadedDraft h.present
    pub future : All IsLoadedDraft h.future

  All-concat :
      (ds : List BuilderDraftDocument) {d : BuilderDraftDocument}
      → All IsLoadedDraft ds
      → IsLoadedDraft d
      → All IsLoadedDraft (ds ++ d ∷ [])
  All-concat [] a l = (l, tt)
  All-concat (e ∷ ds) a l = (a.0, All-concat ds a.1 l)

  clone-IsLoaded : (d : BuilderDraftDocument) → IsLoadedDraft (clone_draft parse_json d)
  clone-IsLoaded d = load_draft_document_idem parse_json d

  commit-IsLoaded :
      (h : DraftHistoryState) (base next : BuilderDraftDocument)
      → IsLoaded h
      → IsLoadedDraft next
      → IsLoaded (commit parse_json h base next)
  commit-IsLoaded h base next v l = record {
    past = All-concat h.past v.past (clone-IsLoaded base);
    present = l;
    future = tt;
  }

  apply-IsLoaded :
      (f : BuilderDraftDocument → BuilderDraftDocument) (r : Bool) (h : DraftHistoryState)
      → IsLoaded h
      → IsLoaded (apply_draft_change parse_json f r h)
  unfolding apply_draft_change
  apply-IsLoaded f r h v =
      let next = clone_draft parse_json (f h.present) in
      let l = clone-IsLoaded (f h.present) in
      ground (arith, commit-IsLoaded h (get_or h.pending_history_base h.present) next v l, l)

  pub All-split :
      (ds : List BuilderDraftDocument) (d : BuilderDraftDocument)
      → All IsLoadedDraft (ds ++ d ∷ [])
      → All IsLoadedDraft ds × IsLoadedDraft d
  All-split [] d a = (tt, a.0)
  All-split (e ∷ ds) d a = let (rest, last) = All-split ds d a.1 in ((a.0, rest), last)

  undo-IsLoaded : (h : DraftHistoryState) → IsLoaded h → IsLoaded (undo_draft_change parse_json h)
  unfolding undo_draft_change
  undo-IsLoaded h v = elim (split_last_cases h.past) [
    | inl (_, nothing) ↦ rw (nothing, undo_draft_change) v
    | inr (before, last, found, whole) ↦
        let (rest, _) = All-split before last (rw whole at v.past) in
        rw (found, undo_draft_change)
          (record {
            past = rest;
            present = clone-IsLoaded last;
            future = (clone-IsLoaded h.present, v.future);
          })
  ]

  redo-IsLoaded : (h : DraftHistoryState) → IsLoaded h → IsLoaded (redo_draft_change parse_json h)
  unfolding redo_draft_change
  redo-IsLoaded h v = on_future h.future v.future
    where
      on_future :
          (ds : List BuilderDraftDocument)
          → All IsLoadedDraft ds
          → IsLoaded (redo_draft_change parse_json (record h { future = ds }))
      on_future [] a = record { past = v.past; present = v.present; future = tt }
      on_future (d ∷ ds) a = record {
        past = All-concat h.past v.past (clone-IsLoaded h.present);
        present = clone-IsLoaded d;
        future = a.1;
      }

  -- The calls of the hook.
  pub data Action : Type 0 where
    change : (BuilderDraftDocument → BuilderDraftDocument) → (record_history : Bool) → Action
    reset : BuilderDraftDocument → Action
    undo redo : Action

  unfoldable pub act : DraftHistoryState → Action → DraftHistoryState
  act h (change f r) = apply_draft_change parse_json f r h
  act h (reset d) = reset_draft_history parse_json d
  act h undo = undo_draft_change parse_json h
  act h redo = redo_draft_change parse_json h

  unfoldable pub run : DraftHistoryState → List Action → DraftHistoryState
  run h [] = h
  run h (a ∷ acts) = run (act h a) acts

  pub reset-IsLoaded : (d : BuilderDraftDocument) → IsLoaded (reset_draft_history parse_json d)
  unfolding reset_draft_history
  reset-IsLoaded d = record { past = tt; present = clone-IsLoaded d; future = tt }

  pub act-IsLoaded : (a : Action) (h : DraftHistoryState) → IsLoaded h → IsLoaded (act h a)
  unfolding act
  act-IsLoaded (change f r) h v = apply-IsLoaded f r h v
  act-IsLoaded (reset d) h v = reset-IsLoaded d
  act-IsLoaded undo h v = undo-IsLoaded h v
  act-IsLoaded redo h v = redo-IsLoaded h v

  -- Any sequence of calls of the hook keeps every draft of the history a loaded one.
  pub run-IsLoaded :
      (acts : List Action) (h : DraftHistoryState) → IsLoaded h → IsLoaded (run h acts)
  unfolding run
  run-IsLoaded [] h v = v
  run-IsLoaded (a ∷ acts) h v = run-IsLoaded acts (act h a) (act-IsLoaded a h v)
