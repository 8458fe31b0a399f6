-- ===== src/History/Timeline.antt =====
-- The history as a line of revisions with a cursor: what the hook of
-- frontend/src/builder-v2/state/use-draft-history.ts promises.
pub mod Run
use lang_orch.Base.{
  ℕ, zero, suc, String, Bool, true, false, ◌||◌, Option, none, some, get_or, List, [], ◌∷◌, ◌++◌,
  append_assoc, All, length, length-append, take, Value, if◌then◌else◌, ltb, ◌≡◌, refl, ap, sym,
  ◌∙◌, inl, inr, arith, Bool-cases,
}
use lang_orch.Draft.{BuilderDraftDocument}
use lang_orch.History.{
  DraftHistoryState, has_meaningful_change, base_differs, clone_draft, reset_draft_history,
  apply_draft_change, undo_draft_change, commit, redo_draft_change,
}
use lang_orch.History.Loaded.{
  split_last_cases, All-split, IsLoadedDraft, IsLoaded, Action, change, reset, undo, redo, act,
  act-IsLoaded, run,
}

pub record Timeline : Type 0 where
  pub revisions : List BuilderDraftDocument
  pub cursor : ℕ
  -- where a gesture began whose changes are not recorded
  pub base : Option BuilderDraftDocument

module _ {A : Type 0} where
  abbrev pub revision_at : List A → ℕ → Option A
  revision_at [] i = none
  revision_at (x ∷ xs) zero = some x
  revision_at (x ∷ xs) (suc i) = revision_at xs i

  abbrev pub replaced : List A → ℕ → A → List A
  replaced [] i y = []
  replaced (x ∷ xs) zero y = y ∷ xs
  replaced (x ∷ xs) (suc i) y = x ∷ replaced xs i y

abbrev pub view : DraftHistoryState → Timeline
view h = record {
  revisions = h.past ++ h.present ∷ h.future;
  cursor = length h.past;
  base = h.pending_history_base;
}

-- A step back or forward moves the cursor and leaves the revisions as they are.
abbrev pub back_from : ℕ → Timeline → Timeline
back_from zero t = t
back_from (suc n) t = record t { cursor = n; base = none }

abbrev pub step_back : Timeline → Timeline
step_back t = back_from t.cursor t

abbrev pub step_forward : Timeline → Timeline
step_forward t =
    if ltb (suc t.cursor) (length t.revisions)
    then record t { cursor = suc t.cursor; base = none }
    else t

module _ (parse_json : String → Option Value) where
  -- A recorded change drops what follows the cursor and adds a revision; the one before it is where
  -- the gesture began. A change that is not recorded replaces the revision at the cursor.
  abbrev pub changed :
      Timeline → (now next : BuilderDraftDocument) → (record_history : Bool) → Timeline
  changed t now next record_history =
      if record_history
      then if has_meaningful_change now next || base_differs t.base next
        then record {
          revisions =
              take t.cursor t.revisions ++ clone_draft parse_json (get_or t.base now) ∷ next ∷ [];
          cursor = suc t.cursor;
          base = none;
        }
        else t
      else if has_meaningful_change now next
      then record t {
        revisions = replaced t.revisions t.cursor next;
        base = some (get_or t.base now);
      }
      else t

  abbrev pub changed_at :
      Timeline
      → Option BuilderDraftDocument
      → (BuilderDraftDocument → BuilderDraftDocument)
      → (record_history : Bool) → Timeline
  changed_at t none f r = t
  changed_at t (some now) f r = changed t now (clone_draft parse_json (f now)) r

  abbrev pub on_timeline : Timeline → Action parse_json → Timeline
  on_timeline t (change f r) = changed_at t (revision_at t.revisions t.cursor) f r
  on_timeline t (reset d) = record {
    revisions = clone_draft parse_json d ∷ [];
    cursor = 0;
    base = none;
  }
  on_timeline t undo = step_back t
  on_timeline t redo = step_forward t

  abbrev pub replay : Timeline → List (Action parse_json) → Timeline
  replay t [] = t
  replay t (a ∷ acts) = replay (on_timeline t a) acts
