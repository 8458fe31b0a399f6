-- ===== src/Import/Laws.antt =====
-- What a workflow's import gives for each of its nodes.
use lang_orch.Base.{
  String, Bool, true, false, not, ◌&&◌, Option, List, [], ◌∷◌, append-nil, map, ◌==◌, ◌≡◌, refl, ap,
  ◌∙◌, arith, eq_iff, Value, Fields, nullish, str, get,
}
use lang_orch.Draft.{BuilderNodePosition, BuilderTransition}
use lang_orch.Store.{Layout}
use lang_orch.Import.{
  edges_of, Workflow, raw_nodes, rf_node, ckp_to_rf, ImportedNode, imported_node,
  ckp_workflow_to_draft_document,
}
use lang_orch.Import.Edges.{ckp_edges, node_links, node_entries}
use lang_orch.Import.Nodes.{node_data}
use lang_orch.Import.Transitions.{
  link_transitions, entry_transitions, transitions_from-ckp_edges, is_absent, each_once,
  entry_transitions-absent,
}

-- What an imported node and an entry of the workflow have in common.
abbrev pub outline : ImportedNode → String × Value × List BuilderTransition
outline n = (n.id, n.kind, n.transitions)

abbrev pub entry_outline : String × Fields → String × Value × List BuilderTransition
entry_outline (i, node) =
    (i, nullish (get "type" node) (str "sequence"), link_transitions (node_links node))

abbrev outline_in :
    List (String × Fields) → String × Fields → String × Value × List BuilderTransition
outline_in es (i, node) = (i, nullish (get "type" node) (str "sequence"), entry_transitions i es)

differ-flip : (j i : String) → (j == i) ≡ false → (i == j) ≡ false
differ-flip j i h = ground (arith, h, eq_iff i j, eq_iff j i)

split_and : (a b : Bool) → (not a && b) ≡ true → (a ≡ false) × (b ≡ true)
split_and true b h = cc h
split_and false b h = (refl, h)

both_hold : (a b : Bool) → (a && b) ≡ true → (a ≡ true) × (b ≡ true)
both_hold true b h = (refl, h)
both_hold false b h = cc h

-- The first entry gives the entries with other keys nothing.
outlines-later :
    (i : String) (node : Fields) (es fs : List (String × Fields))
    → is_absent i fs ≡ true
    → map (λ e. outline_in ((i, node) ∷ es) e) fs ≡ map (λ e. outline_in es e) fs
unfolding is_absent entry_transitions
outlines-later i node es [] h = refl
outlines-later i node es ((j, other) ∷ fs) h =
    let g = split_and (j == i) (is_absent i fs) h in
    rw (differ-flip j i g.0)
      (ap (λ os. outline_in es (j, other) ∷ os) (outlines-later i node es fs g.1))

equal_self : (i : String) → (i == i) ≡ true
equal_self i = ground (arith, eq_iff i i)

own-first :
    (i : String) (node : Fields) (es : List (String × Fields))
    → is_absent i es ≡ true
    → outline_in ((i, node) ∷ es) (i, node) ≡ entry_outline (i, node)
unfolding entry_transitions
own-first i node es h =
    rw
      (
        equal_self i,
        entry_transitions-absent i es h,
        append-nil (link_transitions (node_links node)),
      )
      refl

outlines-each :
    (es : List (String × Fields))
    → each_once es ≡ true
    → map (λ e. outline_in es e) es ≡ map (λ e. entry_outline e) es
unfolding each_once
outlines-each [] h = refl
outlines-each ((i, node) ∷ es) h =
    let g = both_hold (is_absent i es) (each_once es) h in
    let tail : map (λ e. outline_in ((i, node) ∷ es) e) es ≡ map (λ e. entry_outline e) es =
      outlines-later i node es es g.0 ∙ outlines-each es g.1 in
    λ k. own-first i node es g.0 k ∷ tail k

module _ (print_json : Value → String) (start_node : Value)
    (positions : List (String × BuilderNodePosition)) (es : List (String × Fields)) where
  outline-imported_node :
      (e : String × Fields)
      → outline (imported_node (ckp_edges es []) (rf_node print_json start_node positions e))
        ≡ outline_in es e
  unfolding imported_node rf_node node_data edges_of
  outline-imported_node (i, node) =
      ap (λ (ts : List BuilderTransition). (i, nullish (get "type" node) (str "sequence"), ts))
        (transitions_from-ckp_edges i es [])

  outlines-imported :
      (fs : List (String × Fields))
      → map
          (λ n. outline n)
          (map
            (λ n. imported_node (ckp_edges es []) n)
            (map (λ e. rf_node print_json start_node positions e) fs))
        ≡ map (λ e. outline_in es e) fs
  outlines-imported [] = refl
  outlines-imported (e ∷ fs) = λ k. outline-imported_node e k ∷ outlines-imported fs k

-- The imported nodes are the entries of the workflow, in order: each has its entry's key as its
-- identifier, its type or else `"sequence"` as its kind, and the transitions that its own links give,
-- in the order in which they are read. The entries have distinct keys.
pub ckp_workflow_to_draft_document-outline :
    (print_json : Value → String) (dagre : Layout) (w : Workflow)
    (procedure_id procedure_version : Option String)
    → each_once (node_entries (raw_nodes w.nodes)) ≡ true
    → map
        (λ n. outline n)
        (ckp_workflow_to_draft_document print_json dagre w procedure_id procedure_version).nodes
      ≡ map (λ e. entry_outline e) (node_entries (raw_nodes w.nodes))
unfolding ckp_workflow_to_draft_document ckp_to_rf
ckp_workflow_to_draft_document-outline print_json dagre w procedure_id procedure_version h =
    outlines-imported print_json (nullish w.start_node (str "")) _
      (node_entries (raw_nodes w.nodes)) (node_entries (raw_nodes w.nodes))
    ∙ outlines-each (node_entries (raw_nodes w.nodes)) h
