-- ===== src/Import/Round.antt =====
-- A draft that is exported and imported again.
use lang_orch.Base.{
  String, Bool, true, false, ◌||◌, Option, none, some, List, [], ◌∷◌, ◌++◌, append-nil,
  append_assoc, has-put, null, bool, num, arr, map, ◌==◌, ◌≡◌, refl, sym, ap, ◌∙◌, arith, eq_iff,
  Bool-cases, inl, inr, Value, undefined, str, obj, Fields, no_fields, field, has, put,
}
use lang_orch.Draft.{BuilderNodeDraft, BuilderDraftDocument}
use lang_orch.Store.{Layout, has_node}
use lang_orch.Store.Ids.Distinct.{Distinct}
use lang_orch.Export.{export_node, export_nodes, draft_document_to_ckp_workflow, CkpWorkflowGraph}
use lang_orch.Import.{Workflow, ckp_workflow_to_draft_document, ImportedDraft, raw_nodes}
use lang_orch.Import.Edges.{node_entries}
use lang_orch.Import.Transitions.{is_absent, each_once}
use lang_orch.Import.Laws.{outline, entry_outline, ckp_workflow_to_draft_document-outline}

split_or : (a b : Bool) → (a || b) ≡ false → (a ≡ false) × (b ≡ false)
split_or true b h = cc h
split_or false b h = (refl, h)

-- No node that is still to come has a key of the object.
IsFresh : Fields → List BuilderNodeDraft → Type 0
IsFresh o ns = (i : String) → has i o ≡ true → has_node ns i ≡ false

entries-put :
    (k : String) (p o : Fields)
    → has k o ≡ false
    → node_entries (put k (obj p) o) ≡ node_entries o ++ (k, p) ∷ []
unfolding node_entries has put
entries-put k p no_fields h = refl
entries-put k p (field j (obj q) o) h =
    let g = split_or (j == k) (has k o) h in rw g.0 (ap (λ es. (j, q) ∷ es) (entries-put k p o g.1))
entries-put k p (field j undefined o) h =
    let g = split_or (j == k) (has k o) h in
    rw g.0 (ap (λ es. (j, no_fields) ∷ es) (entries-put k p o g.1))
entries-put k p (field j null o) h =
    let g = split_or (j == k) (has k o) h in
    rw g.0 (ap (λ es. (j, no_fields) ∷ es) (entries-put k p o g.1))
entries-put k p (field j (bool b) o) h =
    let g = split_or (j == k) (has k o) h in
    rw g.0 (ap (λ es. (j, no_fields) ∷ es) (entries-put k p o g.1))
entries-put k p (field j (num n) o) h =
    let g = split_or (j == k) (has k o) h in
    rw g.0 (ap (λ es. (j, no_fields) ∷ es) (entries-put k p o g.1))
entries-put k p (field j (str t) o) h =
    let g = split_or (j == k) (has k o) h in
    rw g.0 (ap (λ es. (j, no_fields) ∷ es) (entries-put k p o g.1))
entries-put k p (field j (arr vs) o) h =
    let g = split_or (j == k) (has k o) h in
    rw g.0 (ap (λ es. (j, no_fields) ∷ es) (entries-put k p o g.1))

module _ (parse_json : String → Option Value) where
  exported_entries : List BuilderNodeDraft → List (String × Fields)
  exported_entries ns = map (λ (n : BuilderNodeDraft). (n.id, export_node parse_json n)) ns

  IsFresh-head :
      (n : BuilderNodeDraft) (ns : List BuilderNodeDraft) (o : Fields)
      → IsFresh o (n ∷ ns)
      → has n.id o ≡ false
  unfolding IsFresh
  IsFresh-head n ns o fresh = elim (Bool-cases (has n.id o)) [
    | inl there ↦ let g = fresh n.id there in ground (arith, g, eq_iff n.id n.id)
    | inr absent ↦ absent
  ]

  IsFresh-tail :
      (n : BuilderNodeDraft) (ns : List BuilderNodeDraft) (o : Fields) (v : Value)
      → has_node ns n.id ≡ false
      → IsFresh o (n ∷ ns)
      → IsFresh (put n.id v o) ns
  unfolding IsFresh
  IsFresh-tail n ns o v d fresh i h = elim (Bool-cases (n.id == i)) [
    | inl same ↦ let e : n.id ≡ i = (eq_iff n.id i).0 same in rw e at d
    | inr differ ↦
        let there : has i o ≡ true = rw (has-put n.id i v o, differ) at h in
        (split_or (n.id == i) (has_node ns i) (fresh i there)).1
  ]

  -- Nodes that are not there yet go to the end.
  entries-export_nodes :
      (ns : List BuilderNodeDraft) (o : Fields)
      → Distinct ns
      → IsFresh o ns
      → node_entries (export_nodes parse_json o ns) ≡ node_entries o ++ exported_entries ns
  unfolding export_nodes exported_entries
  entries-export_nodes [] o d fresh = sym (append-nil (node_entries o))
  entries-export_nodes (n ∷ ns) o d fresh =
      entries-export_nodes ns (put n.id (obj (export_node parse_json n)) o) d.1
        (IsFresh-tail n ns o _ d.0 fresh)
      ∙ ap (λ es. es ++ exported_entries ns)
          (entries-put n.id (export_node parse_json n) o (IsFresh-head n ns o fresh))
      ∙ append_assoc (node_entries o) ((n.id, export_node parse_json n) ∷ []) (exported_entries ns)

  is_absent-entries :
      (i : String) (ns : List BuilderNodeDraft)
      → has_node ns i ≡ false
      → is_absent i (exported_entries ns) ≡ true
  unfolding is_absent exported_entries
  is_absent-entries i [] h = refl
  is_absent-entries i (n ∷ ns) h =
      let g = split_or (n.id == i) (has_node ns i) h in rw (g.0, is_absent-entries i ns g.1) refl

  each_once-entries :
      (ns : List BuilderNodeDraft) → Distinct ns → each_once (exported_entries ns) ≡ true
  unfolding each_once exported_entries
  each_once-entries [] d = refl
  each_once-entries (n ∷ ns) d = rw (is_absent-entries n.id ns d.0, each_once-entries ns d.1) refl

-- The workflow as the import reads it.
abbrev start_value : Option String → Value
start_value none = undefined
start_value (some i) = str i

abbrev pub saved : CkpWorkflowGraph → Workflow
saved g = record { start_node = start_value g.start_node; nodes = obj g.nodes }

abbrev pub reimported :
    (String → Option Value) → (Value → String) → Layout → BuilderDraftDocument → ImportedDraft
reimported parse_json print_json dagre d =
    ckp_workflow_to_draft_document print_json dagre
      (saved (draft_document_to_ckp_workflow parse_json d)) (some d.procedure_id)
      (some d.procedure_version)

entry_outlines :
    (parse_json : String → Option Value) (ns : List BuilderNodeDraft)
    → map (λ e. entry_outline e) (exported_entries parse_json ns)
      ≡ map (λ (n : BuilderNodeDraft). entry_outline (n.id, export_node parse_json n)) ns
unfolding exported_entries
entry_outlines parse_json [] = refl
entry_outlines parse_json (n ∷ ns) =
    ap (λ os. entry_outline (n.id, export_node parse_json n) ∷ os) (entry_outlines parse_json ns)

exported_nodes :
    (parse_json : String → Option Value) (d : BuilderDraftDocument)
    → Distinct d.nodes
    → node_entries (raw_nodes (saved (draft_document_to_ckp_workflow parse_json d)).nodes)
      ≡ exported_entries parse_json d.nodes
unfolding draft_document_to_ckp_workflow raw_nodes node_entries IsFresh has
exported_nodes parse_json d distinct =
    entries-export_nodes parse_json d.nodes no_fields distinct (λ i h. cc h)

pub outline-reimported :
    (parse_json : String → Option Value) (print_json : Value → String) (dagre : Layout)
    (d : BuilderDraftDocument)
    → Distinct d.nodes
    → map (λ n. outline n) (reimported parse_json print_json dagre d).nodes
      ≡ map (λ (n : BuilderNodeDraft). entry_outline (n.id, export_node parse_json n)) d.nodes
outline-reimported parse_json print_json dagre d distinct =
    let same = exported_nodes parse_json d distinct in
    ckp_workflow_to_draft_document-outline print_json dagre
      (saved (draft_document_to_ckp_workflow parse_json d)) (some d.procedure_id)
      (some d.procedure_version) (rw same (each_once-entries parse_json d.nodes distinct))
    ∙ ap (λ es. map (λ e. entry_outline e) es) same
    ∙ entry_outlines parse_json d.nodes
