-- ===== src/Store/Closed/Step.antt =====
-- Every operation of the store keeps a draft well-formed, and a removed node leaves no trace.
use lang_orch.Base.{
  String, Bool, true, false, not, Option, none, some, get_or, List, [], ◌∷◌, ◌++◌, map, all,
  if◌then◌else◌, Option-cases, ◌==◌, eq_iff, ◌≡◌, refl, inl, inr, arith,
}
use lang_orch.Draft.{
  BuilderNodeKind, BuilderNodePosition, BuilderTransition, BuilderNodeDraft, BuilderDraftDocument,
}
use lang_orch.Draft.Registry.{blueprint}
use lang_orch.Store.{
  has_node, is_target, first_id, other_than, unset, TransitionPatch, new_node, patch_node,
  patch_transition, clear_targets, clear_target, place, find_node, normalize_loaded_node,
  load_draft_document, add_draft_node, update_draft_node, update_draft_node_config,
  update_draft_transition, add_draft_transition, remove_draft_transition, remove_draft_node,
  update_draft_node_positions, auto_layout_draft, duplicate_draft_node, set_draft_start_node,
  dagre_layout, edges_from,
}
use lang_orch.Store.Ids.Fresh.{new_node_id_fresh}
use lang_orch.Store.Ids.Distinct.{
  has_node-append, has_node-map, has_node-other_than, Distinct-concat, Distinct-map,
  Distinct-other_than,
}
use lang_orch.Store.Closed.{
  target_exists, closed_transitions, IsWellFormed, Edit, add, update, configure, retarget, connect,
  disconnect, delete, move, layout, duplicate, start_at, load, apply_edit, patch_exists,
  target_patch_exists, Admissible,
}
use lang_orch.Store.Closed.Laws.{
  target_exists_mono, closed_nodes_mono, closed_nodes-append, closed_transitions-unset,
  closed_transitions-cleared, closed_transitions-keep, closed_transitions-append,
  closed_transitions-map, closed_nodes-map, closed_nodes-remove, target_exists-first_id,
}

patched_exists :
    (ns : List BuilderNodeDraft) (p : Option (List BuilderTransition)) (ts : List BuilderTransition)
    → patch_exists ns p ≡ true
    → closed_transitions ns ts ≡ true
    → closed_transitions ns (get_or p ts) ≡ true
patched_exists ns none ts a h = h
patched_exists ns (some us) ts a h = a

retargeted_exists :
    (ns : List BuilderNodeDraft) (k : String) (p : TransitionPatch) (t : BuilderTransition)
    → target_patch_exists ns p.target_node_id ≡ true
    → target_exists ns t.target_node_id ≡ true
    → target_exists ns (patch_transition k p t).target_node_id ≡ true
unfolding patch_transition
retargeted_exists ns k p t a h = on_patch p.target_node_id a
  where
    on_patch :
        (q : Option (Option String))
        → target_patch_exists ns q ≡ true
        → target_exists ns (patch_transition k (record p { target_node_id = q }) t).target_node_id
          ≡ true
    on_patch none a = ground arith
    on_patch (some o) a = ground arith

-- The start node of a draft with a node more: the old one, or the new node where there was none.
target_exists-default :
    (ns : List BuilderNodeDraft) (n : BuilderNodeDraft) (o : Option String)
    → target_exists ns o ≡ true
    → target_exists (ns ++ n ∷ []) (some (get_or o n.id)) ≡ true
target_exists-default ns n none h =
    ground (arith, has_node-append ns (n ∷ []) n.id, eq_iff n.id n.id)
target_exists-default ns n (some i) h = ground (arith, has_node-append ns (n ∷ []) i)

module _ (d : BuilderDraftDocument) (v : IsWellFormed d) where
  -- A change of the nodes in place.
  map-IsWellFormed :
      (f : BuilderNodeDraft → BuilderNodeDraft)
      → ((n : BuilderNodeDraft) → (f n).id ≡ n.id)
      → ((n : BuilderNodeDraft)
          → closed_transitions d.nodes n.transitions ≡ true
          → closed_transitions d.nodes (f n).transitions ≡ true)
      → IsWellFormed (record d { nodes = map f d.nodes })
  map-IsWellFormed f same ok =
      let kept : (i : String) → has_node d.nodes i ≡ true → has_node (map f d.nodes) i ≡ true =
        λ i h. rw (has_node-map f same d.nodes i) h in
      record {
        distinct = Distinct-map f same d.nodes v.distinct;
        closed =
            closed_nodes_mono d.nodes (map f d.nodes) kept (map f d.nodes)
              (closed_nodes-map d.nodes f ok d.nodes v.closed);
        start = target_exists_mono d.nodes (map f d.nodes) kept d.start_node_id v.start;
      }

  -- A change of the nodes with one identifier.
  where-IsWellFormed :
      (i : String) (f : BuilderNodeDraft → BuilderNodeDraft)
      → ((n : BuilderNodeDraft) → (f n).id ≡ n.id)
      → ((n : BuilderNodeDraft)
          → closed_transitions d.nodes n.transitions ≡ true
          → closed_transitions d.nodes (f n).transitions ≡ true)
      → IsWellFormed (record d { nodes = map (λ n. if n.id == i then f n else n) d.nodes })
  where-IsWellFormed i f same ok =
      map-IsWellFormed (λ n. if n.id == i then f n else n) (λ n. ground (arith, same n))
        (λ n h. ground (arith, ok n))

  -- A new node at the end.
  concat-IsWellFormed :
      (n : BuilderNodeDraft) (start : Option String)
      → has_node d.nodes n.id ≡ false
      → closed_transitions d.nodes n.transitions ≡ true
      → target_exists (d.nodes ++ n ∷ []) start ≡ true
      → IsWellFormed (record d { start_node_id = start; nodes = d.nodes ++ n ∷ [] })
  concat-IsWellFormed n start fresh ok at =
      let kept : (i : String) → has_node d.nodes i ≡ true → has_node (d.nodes ++ n ∷ []) i ≡ true =
        λ i h. rw (has_node-append d.nodes (n ∷ []) i, h) refl in
      record {
        distinct = Distinct-concat d.nodes n fresh v.distinct;
        closed =
            closed_nodes-append (d.nodes ++ n ∷ []) d.nodes (n ∷ [])
              (closed_nodes_mono d.nodes (d.nodes ++ n ∷ []) kept d.nodes v.closed)
              (closed_nodes_mono d.nodes (d.nodes ++ n ∷ []) kept (n ∷ []) (ground arith));
        start = at;
      }

  add-IsWellFormed : (k : BuilderNodeKind) → IsWellFormed (add_draft_node d k)
  unfolding add_draft_node new_node
  add-IsWellFormed k =
      concat-IsWellFormed (new_node d.nodes k) _ (new_node_id_fresh d.nodes k)
        (closed_transitions-unset d.nodes (blueprint k).transition_keys)
        (target_exists-default d.nodes (new_node d.nodes k) d.start_node_id v.start)

  duplicate-IsWellFormed :
      (i : String) (offset : BuilderNodePosition) → IsWellFormed (duplicate_draft_node d i offset)
  unfolding duplicate_draft_node
  duplicate-IsWellFormed i offset = elim (Option-cases (find_node i d.nodes)) [
    | inl missing ↦ rw (missing, duplicate_draft_node) v
    | inr (source, e) ↦
        rw (e, duplicate_draft_node)
          (concat-IsWellFormed _ d.start_node_id (new_node_id_fresh d.nodes source.kind)
            (closed_transitions-cleared d.nodes source.transitions)
            (target_exists_mono d.nodes _ (λ j h. rw (has_node-append d.nodes _ j, h) refl)
              d.start_node_id v.start))
  ]

  delete-IsWellFormed : (i : String) → IsWellFormed (remove_draft_node d i)
  unfolding remove_draft_node clear_targets
  delete-IsWellFormed i =
      let rest = other_than i d.nodes in
      let same : (n : BuilderNodeDraft) → (clear_targets i n).id ≡ n.id = λ n. refl in
      let kept : (j : String)
          → has_node rest j ≡ true
          → has_node (map (clear_targets i) rest) j ≡ true =
        λ j h. rw (has_node-map (clear_targets i) same rest j) h in
      record {
        distinct =
            Distinct-map (clear_targets i) same rest (Distinct-other_than i d.nodes v.distinct);
        closed =
            closed_nodes_mono rest (map (clear_targets i) rest) kept (map (clear_targets i) rest)
              (closed_nodes-remove i d.nodes d.nodes v.closed);
        start = start_exists d.start_node_id v.start;
      }
    where
      start_exists :
          (o : Option String)
          → target_exists d.nodes o ≡ true
          → target_exists
              (map (clear_targets i) (other_than i d.nodes))
              (if is_target i o then first_id (map (clear_targets i) (other_than i d.nodes)) else o)
            ≡ true
      start_exists none h = refl
      start_exists (some j) h = ground (
        arith,
        target_exists-first_id (map (clear_targets i) (other_than i d.nodes)),
        has_node-map (clear_targets i) (λ n. refl) (other_than i d.nodes) j,
        has_node-other_than i j d.nodes,
        eq_iff i j,
        eq_iff j i,
      )

-- Each operation keeps a draft well-formed, if what its caller passes is admissible.
pub apply_edit-IsWellFormed :
    (d : BuilderDraftDocument) (e : Edit)
    → IsWellFormed d
    → Admissible d e
    → IsWellFormed (apply_edit d e)
unfolding apply_edit update_draft_node update_draft_node_config update_draft_transition
    add_draft_transition remove_draft_transition update_draft_node_positions auto_layout_draft
    set_draft_start_node load_draft_document
apply_edit-IsWellFormed d (add k) v a = add-IsWellFormed d v k
apply_edit-IsWellFormed d (update i p) v a =
    where-IsWellFormed d v i (patch_node p) (λ n. rw a.0)
      (λ n h. patched_exists d.nodes p.transitions n.transitions a.1 h)
apply_edit-IsWellFormed d (configure i p) v a = where-IsWellFormed d v i _ (λ n. refl) (λ n h. h)
apply_edit-IsWellFormed d (retarget i k p) v a =
    where-IsWellFormed d v i _ (λ n. refl)
      (λ n h.
        closed_transitions-map d.nodes (patch_transition k p)
          (λ t. retargeted_exists d.nodes k p t a) n.transitions h)
apply_edit-IsWellFormed d (connect i k) v a =
    where-IsWellFormed d v i _ (λ n. refl)
      (λ n h. closed_transitions-append d.nodes n.transitions (unset k ∷ []) h refl)
apply_edit-IsWellFormed d (disconnect i k) v a =
    where-IsWellFormed d v i _ (λ n. refl)
      (λ n h. closed_transitions-keep d.nodes (λ t. not (t.key == k)) n.transitions h)
apply_edit-IsWellFormed d (delete i) v a = delete-IsWellFormed d v i
apply_edit-IsWellFormed d (move ps) v a = map-IsWellFormed d v (place ps) (λ n. refl) (λ n h. h)
apply_edit-IsWellFormed d (layout dagre) v a =
    let ids = map (λ (n : BuilderNodeDraft). n.id) d.nodes in
    map-IsWellFormed d v (place (dagre_layout dagre ids (edges_from d.nodes) ids)) (λ n. refl)
      (λ n h. h)
apply_edit-IsWellFormed d (duplicate i offset) v a = duplicate-IsWellFormed d v i offset
apply_edit-IsWellFormed d (start_at i) v a = record {
  distinct = v.distinct;
  closed = v.closed;
  start = ground arith;
}
apply_edit-IsWellFormed d (load parse_json) v a =
    map-IsWellFormed d v (normalize_loaded_node parse_json) (λ n. refl) (λ n h. h)

-- Any sequence of operations whose inputs are admissible where they are used.
pub data Edited (d : BuilderDraftDocument) : BuilderDraftDocument → Type 0 where
  here : Edited d d
  next :
      {b : BuilderDraftDocument}
      → Edited d b
      → (e : Edit) → Admissible b e
      → Edited d (apply_edit b e)

pub Edited-IsWellFormed :
    {d b : BuilderDraftDocument} → IsWellFormed d → Edited d b → IsWellFormed b
Edited-IsWellFormed v here = v
Edited-IsWellFormed v (next {b} r e a) = apply_edit-IsWellFormed b e (Edited-IsWellFormed v r) a

-- No transition of the list points to the node `i`.
abbrev pub unreferenced : String → List BuilderNodeDraft → Bool
unreferenced i ns = all (λ n. all (λ t. not (is_target i t.target_node_id)) n.transitions) ns

unreferenced-clear_target :
    (i : String) (ts : List BuilderTransition)
    → all (λ t. not (is_target i t.target_node_id)) (map (clear_target i) ts) ≡ true
unfolding clear_target
unreferenced-clear_target i [] = refl
unreferenced-clear_target i (t ∷ ts) = ground (arith, unreferenced-clear_target i ts)

unreferenced-clear_targets :
    (i : String) (ns : List BuilderNodeDraft) → unreferenced i (map (clear_targets i) ns) ≡ true
unfolding clear_targets
unreferenced-clear_targets i [] = refl
unreferenced-clear_targets i (n ∷ ns) =
    ground (arith, unreferenced-clear_target i n.transitions, unreferenced-clear_targets i ns)

is_target-first_id :
    (i : String) (ns : List BuilderNodeDraft)
    → has_node ns i ≡ false
    → is_target i (first_id ns) ≡ false
is_target-first_id i [] h = refl
is_target-first_id i (n ∷ ns) h = ground arith

-- After a removal the identifier is nowhere: no node has it, no transition points to it, and it is
-- not the start node; every other node is still there.
pub remove_draft_node-unreferenced :
    (d : BuilderDraftDocument) (i : String)
    → (has_node (remove_draft_node d i).nodes i ≡ false)
      × (unreferenced i (remove_draft_node d i).nodes ≡ true)
      × (is_target i (remove_draft_node d i).start_node_id ≡ false)
      × ((j : String)
          → (i == j) ≡ false
          → has_node (remove_draft_node d i).nodes j ≡ has_node d.nodes j)
unfolding remove_draft_node clear_targets
remove_draft_node-unreferenced d i =
    let gone : has_node (map (clear_targets i) (other_than i d.nodes)) i ≡ false =
      rw (has_node-map (clear_targets i) (λ n. refl) (other_than i d.nodes) i)
        (ground (arith, has_node-other_than i i d.nodes, eq_iff i i)) in
    (
      gone,
      unreferenced-clear_targets i (other_than i d.nodes),
      ground (arith, is_target-first_id i (map (clear_targets i) (other_than i d.nodes)) gone),
      λ j ne.
          rw (has_node-map (clear_targets i) (λ n. refl) (other_than i d.nodes) j)
            (ground (arith, has_node-other_than i j d.nodes)),
    )
