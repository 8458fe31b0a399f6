-- ===== src/Validate/Nodes/Laws.antt =====
-- When the checks of the nodes find no error.
use lang_orch.Base.{
  String, Bool, true, not, ◌&&◌, ◌||◌, Option, none, some, List, [], ◌∷◌, ◌++◌, all, Number,
  is_filled_array, get, ◌≡◌, ◌↔◌, refl, arith,
}
use lang_orch.Draft.{
  sequence, loop, parallel, llm_action, processing, transform, subflow, BuilderNodeKind,
  BuilderNodeDraft, BuilderTransition,
}
use lang_orch.Store.Closed.{target_exists, closed_transitions, closed_nodes}
use lang_orch.Validate.Nodes.{
  blank_value, get_either, loop_body, too_few, check_approval, check_llm, check_loop, check_subflow,
  check_processing, check_transform, check_parallel, check_sequence, check_verification,
  check_transition, check_transitions, check_kind, check_node, check_nodes,
}

-- What a node of each kind needs before it can run.
abbrev pub is_ready : (String → Number) → BuilderNodeKind → BuilderNodeDraft → Bool
is_ready parse_number llm_action n = not (blank_value (get_either "model" "llmModel" n.config))
is_ready parse_number loop n =
    not (blank_value (get "iterator" n.config))
    && not (blank_value (get "iterator_variable" n.config))
    && not (blank_value (loop_body n))
    && not (too_few parse_number (get_either "max_iterations" "loopMaxIterations" n.config))
is_ready parse_number subflow n = not (blank_value (get_either "subflow_id" "subflowId" n.config))
is_ready parse_number processing n =
    is_filled_array (get "operations" n.config) || not (blank_value (get "action" n.config))
is_ready parse_number transform n =
    is_filled_array (get "transformations" n.config)
    || not (blank_value (get "transformer" n.config))
is_ready parse_number parallel n = is_filled_array (get "branches" n.config)
is_ready parse_number _ n = true

pub append-eq-nil {ℓ} : {A : Type ℓ} (xs ys : List A) → (xs ++ ys ≡ []) ↔ ((xs ≡ []) × (ys ≡ []))
append-eq-nil [] ys = (λ h. (refl, h), λ h. h.1)
append-eq-nil (x ∷ xs) ys = (λ h. cc, λ h. cc)

check_transition_iff :
    (ns : List BuilderNodeDraft) (i : String) (t : BuilderTransition)
    → ((check_transition ns i t).errors ≡ []) ↔ (target_exists ns t.target_node_id ≡ true)
unfolding check_transition
check_transition_iff ns i t = on_target t.target_node_id
  where
    on_target :
        (o : Option String)
        → ((check_transition ns i (record t { target_node_id = o })).errors ≡ [])
          ↔ (target_exists ns o ≡ true)
    on_target none = (λ h. refl, λ h. refl)
    on_target (some j) = ground arith

check_transitions_iff :
    (ns : List BuilderNodeDraft) (i : String) (ts : List BuilderTransition)
    → ((check_transitions ns i ts).errors ≡ []) ↔ (closed_transitions ns ts ≡ true)
unfolding check_transitions
check_transitions_iff ns i [] = (λ h. refl, λ h. refl)
check_transitions_iff ns i (t ∷ ts) = ground (
  arith,
  append-eq-nil (check_transition ns i t).errors (check_transitions ns i ts).errors,
  check_transition_iff ns i t,
  check_transitions_iff ns i ts,
)

check_kind_iff :
    (parse_number : String → Number) (k : BuilderNodeKind) (n : BuilderNodeDraft)
    → ((check_kind parse_number k n).errors ≡ []) ↔ (is_ready parse_number k n ≡ true)
unfolding check_kind check_approval check_llm check_loop check_subflow check_processing
    check_transform check_parallel check_sequence check_verification
check_kind_iff parse_number sequence n = ground arith
check_kind_iff parse_number k n = ground arith

check_node_iff :
    (parse_number : String → Number) (ns : List BuilderNodeDraft) (n : BuilderNodeDraft)
    → ((check_node parse_number ns n).errors ≡ [])
      ↔ ((closed_transitions ns n.transitions ≡ true) × (is_ready parse_number n.kind n ≡ true))
unfolding check_node
check_node_iff parse_number ns n = ground (
  arith,
  append-eq-nil (check_transitions ns n.id n.transitions).errors
      (check_kind parse_number n.kind n).errors,
  check_transitions_iff ns n.id n.transitions,
  check_kind_iff parse_number n.kind n,
)

-- The nodes have no error if and only if their targets exist and each has what its kind needs.
pub check_nodes_iff :
    (parse_number : String → Number) (ns ms : List BuilderNodeDraft)
    → ((check_nodes parse_number ns ms).errors ≡ [])
      ↔ ((closed_nodes ns ms ≡ true) × (all (λ m. is_ready parse_number m.kind m) ms ≡ true))
unfolding check_nodes
check_nodes_iff parse_number ns [] = (λ h. (refl, refl), λ h. refl)
check_nodes_iff parse_number ns (m ∷ ms) = ground (
  arith,
  append-eq-nil (check_node parse_number ns m).errors (check_nodes parse_number ns ms).errors,
  check_node_iff parse_number ns m,
  check_nodes_iff parse_number ns ms,
)
