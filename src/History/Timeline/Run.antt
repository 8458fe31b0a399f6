-- ===== src/History/Timeline/Run.antt =====
-- The hook of frontend/src/builder-v2/state/use-draft-history.ts keeps a line of revisions.
use lang_orch.Base.{
  ℕ, suc, String, Bool, true, false, Option, none, some, get_or, List, [], ◌∷◌, ◌++◌, append_assoc,
  All, length, length-append, take, Value, if◌then◌else◌, ltb, ◌≡◌, refl, ap, sym, ◌∙◌, inl, inr,
  arith, Bool-cases,
}
use lang_orch.Draft.{BuilderDraftDocument}
use lang_orch.History.{
  DraftHistoryState, has_meaningful_change, base_differs, clone_draft, reset_draft_history,
  apply_draft_change, undo_draft_change, commit, redo_draft_change,
}
use lang_orch.History.Loaded.{
  split_last_cases, All-split, IsLoadedDraft, IsLoaded, Action, change, reset, undo, redo, act,
  act-IsLoaded, run,
}
use lang_orch.History.Timeline.{
  Timeline, revision_at, replaced, view, back_from, step_back, step_forward, changed, changed_at,
  on_timeline, replay,
}

module _ {A : Type 0} where
  revision_at-append : (xs ys : List A) (x : A) → revision_at (xs ++ x ∷ ys) (length xs) ≡ some x
  revision_at-append [] ys x = refl
  revision_at-append (w ∷ xs) ys x = revision_at-append xs ys x

  replaced-append :
      (xs ys : List A) (x y : A) → replaced (xs ++ x ∷ ys) (length xs) y ≡ xs ++ y ∷ ys
  replaced-append [] ys x y = refl
  replaced-append (w ∷ xs) ys x y = ap (λ zs. w ∷ zs) (replaced-append xs ys x y)

  take-append : (xs ys : List A) → take (length xs) (xs ++ ys) ≡ xs
  unfolding take
  take-append [] ys = refl
  take-append (w ∷ xs) ys = ap (λ zs. w ∷ zs) (take-append xs ys)

  length-concat : (xs : List A) (x : A) → length (xs ++ x ∷ []) ≡ suc (length xs)
  length-concat xs x = omega (arith, length-append xs (x ∷ []))

last-revision :
    {A : Type 0} (xs : List A) (x : A) → ltb (suc (length xs)) (length (xs ++ x ∷ [])) ≡ false
last-revision xs x = ground (arith, length-concat xs x)

further-revision :
    {A : Type 0} (xs ys : List A) (x y : A)
    → ltb (suc (length xs)) (length (xs ++ x ∷ y ∷ ys)) ≡ true
further-revision xs ys x y = ground (arith, length-append xs (x ∷ y ∷ ys))

timeline-path :
    (base : Option BuilderDraftDocument) {ds es : List BuilderDraftDocument} {n m : ℕ}
    → ds ≡ es
    → n ≡ m
    → ◌≡◌ {A = Timeline}
        (record { revisions = ds; cursor = n; base = base })
        (record { revisions = es; cursor = m; base = base })
timeline-path base p q = λ i. record { revisions = p i; cursor = q i; base = base }

two_ends :
    (before after : List BuilderDraftDocument) {c d e f : BuilderDraftDocument}
    → c ≡ d
    → e ≡ f
    → before ++ c ∷ e ∷ after ≡ before ++ d ∷ f ∷ after
two_ends before after p q = λ i. before ++ p i ∷ q i ∷ after

module _ (parse_json : String → Option Value) where
  view-undo :
      (h : DraftHistoryState)
      → IsLoaded parse_json h
      → view (undo_draft_change parse_json h) ≡ step_back (view h)
  unfolding undo_draft_change
  view-undo h v = elim (split_last_cases h.past) [
    | inl (empty, nothing) ↦
        rw (nothing, undo_draft_change)
          (sym (ap (λ n. back_from n (view h)) (ap (λ ds. length ds) empty)))
    | inr (before, last, found, whole) ↦
        let l = All-split parse_json before last (rw whole at v.past) in
        rw (found, undo_draft_change)
          (timeline-path none
              (two_ends before h.future l.1 v.present
                ∙ sym (
                    ap (λ ds. ds ++ h.present ∷ h.future) whole
                    ∙ append_assoc before (last ∷ []) (h.present ∷ h.future)))
              refl
            ∙ sym (
                ap (λ n. back_from n (view h))
                  (ap (λ ds. length ds) whole ∙ length-concat before last)))
  ]

  view-redo :
      (h : DraftHistoryState)
      → IsLoaded parse_json h
      → view (redo_draft_change parse_json h) ≡ step_forward (view h)
  unfolding redo_draft_change
  view-redo h v = on_future h.future v.future
    where
      on_future :
          (ds : List BuilderDraftDocument)
          → All (IsLoadedDraft parse_json) ds
          → view (redo_draft_change parse_json (record h { future = ds }))
            ≡ step_forward (view (record h { future = ds }))
      on_future [] a = rw (last-revision h.past h.present) refl
      on_future (d ∷ ds) a = rw (further-revision h.past ds h.present d) (
          timeline-path none
            (append_assoc h.past (clone_draft parse_json h.present ∷ [])
                (clone_draft parse_json d ∷ ds)
              ∙ two_ends h.past ds v.present a.0)
            (length-concat h.past (clone_draft parse_json h.present)))

  view-commit :
      (h : DraftHistoryState) (base next : BuilderDraftDocument)
      → view (commit parse_json h base next) ≡ record {
        revisions =
            take (length h.past) (h.past ++ h.present ∷ h.future)
            ++ clone_draft parse_json base ∷ next ∷ [];
        cursor = suc (length h.past);
        base = none;
      }
  view-commit h base next =
      timeline-path none
        (append_assoc h.past (clone_draft parse_json base ∷ []) (next ∷ [])
          ∙ sym (
              ap (λ ds. ds ++ clone_draft parse_json base ∷ next ∷ [])
                (take-append h.past (h.present ∷ h.future))))
        (length-concat h.past (clone_draft parse_json base))

  view-recorded :
      (h : DraftHistoryState) (next : BuilderDraftDocument)
      → view (
          if has_meaningful_change h.present next
          then commit parse_json h (get_or h.pending_history_base h.present) next
          else if base_differs h.pending_history_base next
          then commit parse_json h (get_or h.pending_history_base h.present) next
          else h)
        ≡ changed parse_json (view h) h.present next true
  view-recorded h next =
      let c = view-commit h (get_or h.pending_history_base h.present) next in
      elim (Bool-cases (has_meaningful_change h.present next)) [
        | inl differs ↦ rw differs c
        | inr same ↦ rw same (elim (Bool-cases (base_differs h.pending_history_base next)) [
          | inl moved ↦ rw moved c
          | inr unmoved ↦ rw unmoved refl
        ])
      ]

  view-change :
      (f : BuilderDraftDocument → BuilderDraftDocument) (r : Bool) (h : DraftHistoryState)
      → IsLoaded parse_json h
      → view (apply_draft_change parse_json f r h)
        ≡ changed parse_json (view h) h.present (clone_draft parse_json (f h.present)) r
  unfolding apply_draft_change
  view-change f true h v = view-recorded h (clone_draft parse_json (f h.present))
  view-change f false h v =
      elim (Bool-cases (has_meaningful_change h.present (clone_draft parse_json (f h.present)))) [
        | inl differs ↦ rw differs (λ i. record {
          revisions =
              sym (replaced-append h.past h.future h.present (clone_draft parse_json (f h.present)))
                i;
          cursor = length h.past;
          base = some (get_or h.pending_history_base (v.present i));
        })
        | inr same ↦ rw same refl
      ]

  view-act :
      (a : Action parse_json) (h : DraftHistoryState)
      → IsLoaded parse_json h
      → view (act parse_json h a) ≡ on_timeline parse_json (view h) a
  unfolding act reset_draft_history
  view-act (change f r) h v =
      view-change f r h v
      ∙ sym (
          ap (λ o. changed_at parse_json (view h) o f r)
            (revision_at-append h.past h.future h.present))
  view-act (reset d) h v = refl
  view-act undo h v = view-undo h v
  view-act redo h v = view-redo h v

  -- Whatever calls of the hook are made, the history is the line of revisions to which these calls
  -- are done one after another: undo and redo move the cursor over revisions that stay as they are, a
  -- recorded change drops the revisions behind the cursor, puts the draft at which the gesture began
  -- in the cursor's place and adds the new draft, and a change that is not recorded replaces the
  -- revision at the cursor.
  pub view-run :
      (acts : List (Action parse_json)) (h : DraftHistoryState)
      → IsLoaded parse_json h
      → view (run parse_json h acts) ≡ replay parse_json (view h) acts
  unfolding run
  view-run [] h v = refl
  view-run (a ∷ acts) h v =
      view-run acts (act parse_json h a) (act-IsLoaded parse_json a h v)
      ∙ ap (λ t. replay parse_json t acts) (view-act a h v)
