-- ===== src/History.antt =====
-- The undo history of a draft: frontend/src/builder-v2/state/use-draft-history.ts. A call of
-- `setHistory` with a function is a function on the state; React applies them one after another.
-- `sort` compares code points, which is the order of the source for all but astral characters.
pub mod Loaded
pub mod Undo
pub mod Moves
pub mod Timeline
mod Tests
use Prim.Native.String.{compare}
use Prim.Native.Nat.{Ordering}
use lang_orch.Base.{
  ℕ, String, Bool, true, false, not, ◌&&◌, Option, none, some, get_or, List, [], ◌∷◌, ◌++◌, map,
  length, if◌then◌else◌, ◌==◌, ◌<>◌, show, Value, undefined, null, to_text, Fields, no_fields,
  field, keys,
}
use lang_orch.Draft.{kind_name, BuilderTransition, BuilderNodeDraft, BuilderDraftDocument}
use lang_orch.Store.{load_draft_document}

pub record DraftHistoryState : Type 0 where
  pub past : List BuilderDraftDocument
  pub present : BuilderDraftDocument
  pub future : List BuilderDraftDocument
  pub pending_history_base : Option BuilderDraftDocument

-- `parts.join(separator)`
join : String → List String → String
join sep [] = ""
join sep (s ∷ ss) = elim ss [ [] ↦ s | _ ∷ _ ↦ s <> sep <> join sep ss ]

insert_sorted : String → List String → List String
insert_sorted s [] = s ∷ []
insert_sorted s (t ∷ ts) = elim (compare s t) [
  | Ordering.gt ↦ t ∷ insert_sorted s ts
  | _ ↦ s ∷ t ∷ ts
]

sort : List String → List String
sort [] = []
sort (s ∷ ss) = insert_sorted s (sort ss)

abbrev value_text : Value → String
value_text undefined = ""
value_text null = ""
value_text v = to_text v

value_texts : Fields → List String
value_texts no_fields = []
value_texts (field k v o) = value_text v ∷ value_texts o

transition_text : BuilderTransition → String
transition_text t = t.key <> ":" <> get_or t.target_node_id ""

node_fingerprint : BuilderNodeDraft → String
node_fingerprint n =
    n.id
    <> "|"
    <> kind_name n.kind
    <> "|"
    <> n.title
    <> "|"
    <> get_or n.description ""
    <> "|"
    <> get_or n.agent ""
    <> "|"
    <> join "," (sort (keys n.config))
    <> "="
    <> join "|" (value_texts n.config)
    <> "|"
    <> join ";" (map transition_text n.transitions)

pub draft_fingerprint : BuilderDraftDocument → String
draft_fingerprint d =
    join "\n" (get_or d.start_node_id "" ∷ show (length d.nodes) ∷ map node_fingerprint d.nodes)

abbrev pub has_meaningful_change : BuilderDraftDocument → BuilderDraftDocument → Bool
has_meaningful_change a b = not (draft_fingerprint a == draft_fingerprint b)

-- `pendingHistoryBase && hasMeaningfulChange(pendingHistoryBase, nextDraft)`
abbrev pub base_differs : Option BuilderDraftDocument → BuilderDraftDocument → Bool
base_differs none next = false
base_differs (some base) next = has_meaningful_change base next

-- the last element of `past`, and the elements before it
pub split_last :
    List BuilderDraftDocument → Option (List BuilderDraftDocument × BuilderDraftDocument)
split_last [] = none
split_last (d ∷ ds) = elim (split_last ds) [
  | none ↦ some ([], d)
  | some (before, last) ↦ some (d ∷ before, last)
]

module _ (parse_json : String → Option Value) where
  abbrev pub clone_draft : BuilderDraftDocument → BuilderDraftDocument
  clone_draft = load_draft_document parse_json

  -- the initial state, and `resetDraftHistory`
  pub reset_draft_history : BuilderDraftDocument → DraftHistoryState
  reset_draft_history d = record {
    past = [];
    present = clone_draft d;
    future = [];
    pending_history_base = none;
  }

  abbrev pub commit :
      DraftHistoryState → BuilderDraftDocument → BuilderDraftDocument → DraftHistoryState
  commit h base next = record {
    past = h.past ++ clone_draft base ∷ [];
    present = next;
    future = [];
    pending_history_base = none;
  }

  -- `applyDraftChange`; an updater that is a draft is the constant function.
  pub apply_draft_change :
      (BuilderDraftDocument → BuilderDraftDocument)
      → (record_history : Bool) → DraftHistoryState
      → DraftHistoryState
  apply_draft_change updater record_history h =
      let next = clone_draft (updater h.present) in
      if not record_history
      then if has_meaningful_change h.present next
        then record h {
          present = next;
          pending_history_base = some (get_or h.pending_history_base (clone_draft h.present));
        }
        else h
      else if has_meaningful_change h.present next
      then commit h (get_or h.pending_history_base h.present) next
      else if base_differs h.pending_history_base next
      then commit h (get_or h.pending_history_base h.present) next
      else h

  pub undo_draft_change : DraftHistoryState → DraftHistoryState
  undo_draft_change h = elim (split_last h.past) [
    | none ↦ h
    | some (before, previous) ↦ record {
      past = before;
      present = clone_draft previous;
      future = clone_draft h.present ∷ h.future;
      pending_history_base = none;
    }
  ]

  pub redo_draft_change : DraftHistoryState → DraftHistoryState
  redo_draft_change h = elim h.future [
    | [] ↦ h
    | next ∷ remaining ↦ record {
      past = h.past ++ clone_draft h.present ∷ [];
      present = clone_draft next;
      future = remaining;
      pending_history_base = none;
    }
  ]
