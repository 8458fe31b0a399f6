-- ===== src/Shell/Sessions.antt =====
-- A session of the builder's shell, frontend/src/builder-v2/components/BuilderShell.tsx: changes of the draft
-- between the three kinds of saves (`handleSave`, `handleSaveDraft` and the timer), each of which ends
-- later, in any order, or never.
use lang_orch.Base.{
  ℕ, zero, suc, String, Bool, Option, none, some, List, [], ◌∷◌, All, ◌≡◌, ◌⊎◌, Value, Number,
}
use lang_orch.Draft.{BuilderDraftDocument}
use lang_orch.History.{DraftHistoryState}
use lang_orch.Validate.Document.Laws.{IsPublishable}
use lang_orch.Export.{CkpWorkflowGraph, draft_document_to_ckp_workflow}
use lang_orch.Shell.{
  ShellState, SaveCall, handle_save, finish_save, handle_save_draft, auto_save, finish_save_draft,
}

-- The shell, the saves that have not ended, and what the caller was given so far.
pub record Session : Type 0 where
  pub shell : ShellState
  pub running : List SaveCall
  pub running_drafts : List String
  pub published : List SaveCall
  pub saved_drafts : List BuilderDraftDocument

pub data Event : Type 0 where
  -- any change of the draft, with undo and redo
  edit : DraftHistoryState → Event
  editor_error : Option String → Event
  save save_draft : Event
  timer : (saving_draft : Bool) → Event
  -- the end of one of the saves that run
  save_ends save_draft_ends : ℕ → Event

-- The item at a place, and the list without it
unfoldable pub take_at {ℓ} : {A : Type ℓ} → ℕ → List A → Option (A × List A)
take_at i [] = none
take_at zero (x ∷ xs) = some (x, xs)
take_at (suc i) (x ∷ xs) = elim (take_at i xs) [ none ↦ none | some (y, ys) ↦ some (y, x ∷ ys) ]

abbrev AllTaken {ℓ κ} : {A : Type ℓ} → (A → Type κ) → Option (A × List A) → Type κ
AllTaken P none = Unit
AllTaken P (some (y, ys)) = P y × All P ys

module _ (parse_json : String → Option Value) (parse_number : String → Number)
    (print_draft : BuilderDraftDocument → String) (print_workflow : CkpWorkflowGraph → String) where
  abbrev call_of : ShellState → Option SaveCall
  call_of s = handle_save parse_json parse_number print_draft print_workflow s

  abbrev with_draft : Session → Option BuilderDraftDocument → Session
  with_draft s none = s
  with_draft s (some d) = record s {
    running_drafts = print_draft d ∷ s.running_drafts;
    saved_drafts = d ∷ s.saved_drafts;
  }

  abbrev with_call : Session → Option SaveCall → Session
  with_call s none = s
  with_call s (some c) = record s { running = c ∷ s.running; published = c ∷ s.published }

  abbrev after_save : Session → Option (SaveCall × List SaveCall) → Session
  after_save s none = s
  after_save s (some (c, cs)) = record s { shell = finish_save c s.shell; running = cs }

  abbrev after_draft : Session → Option (String × List String) → Session
  after_draft s none = s
  after_draft s (some (t, ts)) = record s {
    shell = finish_save_draft t s.shell;
    running_drafts = ts;
  }

  unfoldable pub session_step : Event → Session → Session
  unfolding take_at
  session_step (edit h) s = record s { shell = record s.shell { history = h } }
  session_step (editor_error e) s = record s { shell = record s.shell { config_editor_error = e } }
  session_step save s = with_call s (call_of s.shell)
  session_step save_draft s = with_draft s (handle_save_draft s.shell)
  session_step (timer saving) s = with_draft s (auto_save print_draft saving s.shell)
  session_step (save_ends i) s = after_save s (take_at i s.running)
  session_step (save_draft_ends i) s = after_draft s (take_at i s.running_drafts)

  unfoldable pub session : List Event → Session → Session
  unfolding session_step
  session [] s = s
  session (e ∷ es) s = session es (session_step e s)

  -- A draft that may be published: one that is publishable, or one without nodes.
  abbrev pub MayPublish : BuilderDraftDocument → Type 0
  MayPublish d = (d.nodes ≡ []) ⊎ IsPublishable parse_number d

  -- A workflow that is the export of such a draft.
  abbrev pub IsExport : CkpWorkflowGraph → Type 0
  IsExport w =
      (d : BuilderDraftDocument) × MayPublish d × (w ≡ draft_document_to_ckp_workflow parse_json d)

  abbrev pub IsSound : SaveCall → Type 0
  IsSound c = MayPublish c.draft × (c.workflow ≡ draft_document_to_ckp_workflow parse_json c.draft)

  abbrev IsRunning : SaveCall → Type 0
  IsRunning c = IsSound c × (c.current_workflow_graph_string ≡ print_workflow c.workflow)

  abbrev IsKnown : String → String → Type 0
  IsKnown first snapshot =
      (snapshot ≡ first) ⊎ ((w : CkpWorkflowGraph) × IsExport w × (snapshot ≡ print_workflow w))

  record IsSafe (first : String) (s : Session) : Type 0 where
    published_lem : All (λ c. IsSound c) s.published
    running_lem : All (λ c. IsRunning c) s.running
    snapshot_lem : IsKnown first (s.shell).saved_workflow_snapshot

abbrev pub opened : ShellState → Session
opened s = record {
  shell = s;
  running = [];
  running_drafts = [];
  published = [];
  saved_drafts = [];
}
