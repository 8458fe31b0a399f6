-- ===== src/Shell/Saves.antt =====
-- What the shell saves, and which node it has selected.
use lang_orch.Base.{
  String, Bool, true, false, not, ◌&&◌, ◌||◌, Option, none, some, get_or, List, [], ◌∷◌, ◌==◌,
  eq_iff, is_empty, ◌≡◌, ◌≢◌, ◌⊎◌, refl, sym, ap, arith, Bool-cases, inl, inr, Value, Number,
}
use lang_orch.Draft.{BuilderNodeDraft, BuilderDraftDocument}
use lang_orch.Store.{has_node, first_id}
use lang_orch.Validate.Document.{validate_draft_document}
use lang_orch.Validate.Document.Laws.{IsPublishable, validate_draft_document_iff}
use lang_orch.Export.{CkpWorkflowGraph, draft_document_to_ckp_workflow}
use lang_orch.Shell.{
  ShellState, draft_of, SaveCall, is_set, is_empty_list, handle_save, finish_save, is_dirty,
  selection, keep_selection,
}

empty-eq {ℓ} : {A : Type ℓ} (xs : List A) → is_empty_list xs ≡ true → xs ≡ []
empty-eq [] h = refl
empty-eq (x ∷ xs) h = cc h

Nodes-cases {ℓ} : {A : Type ℓ} (xs : List A) → (xs ≡ []) ⊎ (xs ≢ [])
Nodes-cases [] = inl refl
Nodes-cases (x ∷ xs) = inr (λ e. cc e)

some-inj {ℓ} : {A : Type ℓ} (x y : A) → some x ≡ some y → x ≡ y
some-inj x y h = ap (λ o. get_or o x) h

or_not : (a b : Bool) → (not a || b) ≡ false → (a ≡ true) × (b ≡ false)
or_not true b h = (refl, h)
or_not false b h = cc h

module _ (parse_json : String → Option Value) (parse_number : String → Number)
    (print_draft : BuilderDraftDocument → String) (print_workflow : CkpWorkflowGraph → String) where
  abbrev save : ShellState → Option SaveCall
  save s = handle_save parse_json parse_number print_draft print_workflow s

  save-tests :
      (s : ShellState) (c : SaveCall)
      → save s ≡ some c
      → (is_empty_list (validate_draft_document parse_number (draft_of s)).errors ≡ true)
        × (is_set s.config_editor_error ≡ false)
  unfolding handle_save
  save-tests s c e =
      elim (Bool-cases (
        not (is_empty_list (validate_draft_document parse_number (draft_of s)).errors)
        || is_set s.config_editor_error)) [
          | inl refused ↦ let g = rw refused at e in cc g
          | inr saves ↦ or_not _ _ saves
        ]

  save-call :
      (s : ShellState) (c : SaveCall)
      → save s ≡ some c
      → c ≡ record {
        workflow = draft_document_to_ckp_workflow parse_json (draft_of s);
        draft = draft_of s;
        current_draft_string = print_draft (draft_of s);
        current_workflow_graph_string =
            print_workflow (draft_document_to_ckp_workflow parse_json (draft_of s));
      }
  unfolding handle_save
  save-call s c e = let t = save-tests s c e in let g = rw (t.0, t.1) at e in sym (some-inj _ c g)

-- What `handleSave` hands over is the present draft and its export, where the draft has nodes it is
-- publishable, and no error of the configuration's editor is left.
pub handle_save-IsPublishable :
    (parse_json : String → Option Value) (parse_number : String → Number)
    (print_draft : BuilderDraftDocument → String) (print_workflow : CkpWorkflowGraph → String)
    (s : ShellState) (c : SaveCall)
    → handle_save parse_json parse_number print_draft print_workflow s ≡ some c
    → (draft_of s).nodes ≢ []
    → (c.draft ≡ draft_of s)
      × (c.workflow ≡ draft_document_to_ckp_workflow parse_json (draft_of s))
      × IsPublishable parse_number (draft_of s)
      × (is_set s.config_editor_error ≡ false)
handle_save-IsPublishable parse_json parse_number print_draft print_workflow s c e h =
    let call = save-call parse_json parse_number print_draft print_workflow s c e in
    let tests = save-tests parse_json parse_number print_draft print_workflow s c e in
    let valid = empty-eq (validate_draft_document parse_number (draft_of s)).errors tests.0 in
    (
      ap (λ (k : SaveCall). k.draft) call,
      ap (λ (k : SaveCall). k.workflow) call,
      (validate_draft_document_iff parse_number (draft_of s) h).0 valid,
      tests.1,
    )

-- The same of a draft with or without nodes, and the text that is taken as saved at the end.
pub handle_save-lem :
    (parse_json : String → Option Value) (parse_number : String → Number)
    (print_draft : BuilderDraftDocument → String) (print_workflow : CkpWorkflowGraph → String)
    (s : ShellState) (c : SaveCall)
    → handle_save parse_json parse_number print_draft print_workflow s ≡ some c
    → ((c.draft.nodes ≡ []) ⊎ IsPublishable parse_number c.draft)
      × (c.workflow ≡ draft_document_to_ckp_workflow parse_json c.draft)
      × (c.current_workflow_graph_string ≡ print_workflow c.workflow)
handle_save-lem parse_json parse_number print_draft print_workflow s c e =
    rw (save-call parse_json parse_number print_draft print_workflow s c e) (
      elim (Nodes-cases (draft_of s).nodes) [
        | inl empty ↦ inl empty
        | inr full ↦
            inr
              (handle_save-IsPublishable parse_json parse_number print_draft print_workflow s c e
                full).2
      ],
      refl,
      refl,
    )

-- At the end of a save the shell is dirty if and only if its draft is by then printed in another way than the draft that
-- was saved, or its export than the workflow that was saved: a change made while the save runs is not taken as
-- saved.
pub is_dirty-finish_save :
    (parse_json : String → Option Value) (parse_number : String → Number)
    (print_draft : BuilderDraftDocument → String) (print_workflow : CkpWorkflowGraph → String)
    (s later : ShellState) (c : SaveCall)
    → handle_save parse_json parse_number print_draft print_workflow s ≡ some c
    → is_dirty parse_json print_draft print_workflow (finish_save c later) ≡ (
        not (print_draft (draft_of later) == print_draft c.draft)
        || not (
            print_workflow (draft_document_to_ckp_workflow parse_json (draft_of later))
            == print_workflow c.workflow))
unfolding is_dirty finish_save
is_dirty-finish_save parse_json parse_number print_draft print_workflow s later c e =
    rw (save-call parse_json parse_number print_draft print_workflow s c e) refl

-- Whether the node selected is one of the draft's.
unfoldable pub is_selected : Option String → List BuilderNodeDraft → Bool
is_selected none ns = false
is_selected (some i) ns = has_node ns i

first_id-is_selected : (ns : List BuilderNodeDraft) → ns ≢ [] → is_selected (first_id ns) ns ≡ true
unfolding is_selected
first_id-is_selected [] h = absurd (h refl)
first_id-is_selected (n ∷ ns) h = ground (arith, eq_iff n.id n.id)

full-eq {ℓ} : {A : Type ℓ} (xs : List A) → xs ≢ [] → is_empty_list xs ≡ false
full-eq [] h = absurd (h refl)
full-eq (x ∷ xs) h = refl

and_false : (b : Bool) → (b && false) ≡ false
and_false b = ground arith

selection-is_selected :
    (o : Option String) (ns : List BuilderNodeDraft)
    → ns ≢ []
    → (is_selected (selection o ns) ns ≡ true) × (is_selected o ns ≡ true → selection o ns ≡ o)
unfolding selection is_selected
selection-is_selected none ns h = (first_id-is_selected ns h, λ e. cc e)
selection-is_selected (some i) ns h = elim (Bool-cases (has_node ns i)) [
  | inl there ↦ rw (there, there) (refl, λ e. refl)
  | inr absent ↦
      rw (absent, full-eq ns h, and_false (is_empty i)) (first_id-is_selected ns h, λ e. cc e)
]

-- Of a draft with nodes, one is selected after the effect; it is the one before where that is still there.
pub keep_selection-is_selected :
    (s : ShellState)
    → (draft_of s).nodes ≢ []
    → (is_selected (keep_selection s).selected_node_id (draft_of s).nodes ≡ true)
      × (is_selected s.selected_node_id (draft_of s).nodes ≡ true
          → (keep_selection s).selected_node_id ≡ s.selected_node_id)
unfolding keep_selection
keep_selection-is_selected s h = selection-is_selected s.selected_node_id (draft_of s).nodes h
