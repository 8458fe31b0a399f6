-- ===== src/Store/Closed/Laws.antt =====
-- Closed lists of nodes under maps, additions and removals.
use lang_orch.Base.{
  String, Bool, true, Option, none, some, List, [], ◌∷◌, ◌++◌, map, keep, eq_iff, ◌≡◌, refl, arith,
}
use lang_orch.Draft.{BuilderTransition, BuilderNodeDraft}
use lang_orch.Store.{has_node, clear_target, clear_targets, other_than, first_id, unset}
use lang_orch.Store.Ids.Distinct.{has_node-other_than}
use lang_orch.Store.Closed.{target_exists, closed_transitions, closed_nodes}

module _ (ns ms : List BuilderNodeDraft)
    (more : (i : String) → has_node ns i ≡ true → has_node ms i ≡ true) where
  pub target_exists_mono :
      (o : Option String) → target_exists ns o ≡ true → target_exists ms o ≡ true
  target_exists_mono none h = refl
  target_exists_mono (some i) h = ground (arith, more i)

  pub closed_transitions_mono :
      (ts : List BuilderTransition)
      → closed_transitions ns ts ≡ true
      → closed_transitions ms ts ≡ true
  closed_transitions_mono [] h = refl
  closed_transitions_mono (t ∷ ts) h =
      ground (arith, target_exists_mono t.target_node_id, closed_transitions_mono ts)

  pub closed_nodes_mono :
      (ks : List BuilderNodeDraft) → closed_nodes ns ks ≡ true → closed_nodes ms ks ≡ true
  closed_nodes_mono [] h = refl
  closed_nodes_mono (k ∷ ks) h =
      ground (arith, closed_transitions_mono k.transitions, closed_nodes_mono ks)

pub closed_nodes-append :
    (ns ks ls : List BuilderNodeDraft)
    → closed_nodes ns ks ≡ true
    → closed_nodes ns ls ≡ true
    → closed_nodes ns (ks ++ ls) ≡ true
closed_nodes-append ns [] ls h g = g
closed_nodes-append ns (k ∷ ks) ls h g = ground (arith, closed_nodes-append ns ks ls)

-- Transitions that point nowhere are closed.
pub closed_transitions-unset :
    (ns : List BuilderNodeDraft) (ks : List String) → closed_transitions ns (map unset ks) ≡ true
closed_transitions-unset ns [] = refl
closed_transitions-unset ns (k ∷ ks) = closed_transitions-unset ns ks

pub closed_transitions-cleared :
    (ns : List BuilderNodeDraft) (ts : List BuilderTransition)
    → closed_transitions ns (map (λ (t : BuilderTransition). record t { target_node_id = none }) ts)
      ≡ true
closed_transitions-cleared ns [] = refl
closed_transitions-cleared ns (t ∷ ts) = closed_transitions-cleared ns ts

pub closed_transitions-keep :
    (ns : List BuilderNodeDraft) (p : BuilderTransition → Bool) (ts : List BuilderTransition)
    → closed_transitions ns ts ≡ true
    → closed_transitions ns (keep p ts) ≡ true
closed_transitions-keep ns p [] h = refl
closed_transitions-keep ns p (t ∷ ts) h = ground (arith, closed_transitions-keep ns p ts)

pub closed_transitions-append :
    (ns : List BuilderNodeDraft) (ts us : List BuilderTransition)
    → closed_transitions ns ts ≡ true
    → closed_transitions ns us ≡ true
    → closed_transitions ns (ts ++ us) ≡ true
closed_transitions-append ns [] us h g = g
closed_transitions-append ns (t ∷ ts) us h g = ground (arith, closed_transitions-append ns ts us)

pub closed_transitions-map :
    (ns : List BuilderNodeDraft) (f : BuilderTransition → BuilderTransition)
    → ((t : BuilderTransition)
        → target_exists ns t.target_node_id ≡ true
        → target_exists ns (f t).target_node_id ≡ true)
    → (ts : List BuilderTransition) → closed_transitions ns ts ≡ true
    → closed_transitions ns (map f ts) ≡ true
closed_transitions-map ns f ok [] h = refl
closed_transitions-map ns f ok (t ∷ ts) h = ground (arith, ok t, closed_transitions-map ns f ok ts)

pub closed_nodes-map :
    (ns : List BuilderNodeDraft) (f : BuilderNodeDraft → BuilderNodeDraft)
    → ((n : BuilderNodeDraft)
        → closed_transitions ns n.transitions ≡ true
        → closed_transitions ns (f n).transitions ≡ true)
    → (ks : List BuilderNodeDraft) → closed_nodes ns ks ≡ true
    → closed_nodes ns (map f ks) ≡ true
closed_nodes-map ns f ok [] h = refl
closed_nodes-map ns f ok (k ∷ ks) h = ground (arith, ok k, closed_nodes-map ns f ok ks)

module _ (i : String) (ns : List BuilderNodeDraft) where
  target_exists-clear_target :
      (t : BuilderTransition)
      → target_exists ns t.target_node_id ≡ true
      → target_exists (other_than i ns) (clear_target i t).target_node_id ≡ true
  unfolding clear_target
  target_exists-clear_target t h = on_target t.target_node_id h
    where
      on_target :
          (o : Option String)
          → target_exists ns o ≡ true
          → target_exists
              (other_than i ns)
              (clear_target i (record t { target_node_id = o })).target_node_id
            ≡ true
      on_target none h = refl
      on_target (some j) h = ground (arith, has_node-other_than i j ns, eq_iff i j, eq_iff j i)

  closed_transitions-clear :
      (ts : List BuilderTransition)
      → closed_transitions ns ts ≡ true
      → closed_transitions (other_than i ns) (map (clear_target i) ts) ≡ true
  closed_transitions-clear [] h = refl
  closed_transitions-clear (t ∷ ts) h =
      ground (arith, target_exists-clear_target t, closed_transitions-clear ts)

  pub closed_nodes-remove :
      (ks : List BuilderNodeDraft)
      → closed_nodes ns ks ≡ true
      → closed_nodes (other_than i ns) (map (clear_targets i) (other_than i ks)) ≡ true
  unfolding clear_targets
  closed_nodes-remove [] h = refl
  closed_nodes-remove (k ∷ ks) h =
      ground (arith, closed_transitions-clear k.transitions, closed_nodes-remove ks)

pub target_exists-first_id : (ns : List BuilderNodeDraft) → target_exists ns (first_id ns) ≡ true
target_exists-first_id [] = refl
target_exists-first_id (n ∷ ns) = ground (arith, eq_iff n.id n.id)
