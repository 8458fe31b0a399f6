-- ===== src/Import/Transitions.antt =====
-- The transitions of an imported node.
use lang_orch.Base.{
  String, Bool, true, false, not, ◌&&◌, none, some, List, [], ◌∷◌, ◌++◌, append_assoc, append-nil,
  map, if◌then◌else◌, ◌==◌, is_empty, ◌≡◌, refl, sym, ap, ◌∙◌, Bool-cases, inl, inr, Value,
  undefined, null, bool, num, str, arr, obj, Fields,
}
use lang_orch.Draft.{BuilderTransition}
use lang_orch.Import.{transition_of_edge, edges_of, transition_key}
use lang_orch.Import.Edges.{
  Edge, Links, new_edge, add_edge_from_ckp, add_links, ckp_edges, node_links,
}

-- The transitions that links to nodes give: those whose target is a text that is not empty.
abbrev pub transition_to : String → String → BuilderTransition
transition_to label target = record {
  key = if is_empty label then "next" else label;
  target_node_id = some target;
  label = if is_empty label then none else some label;
}

abbrev pub link_transition : String → Value → List BuilderTransition
link_transition label (str target) = if is_empty target then [] else transition_to label target ∷ []
link_transition label v = []

unfoldable pub link_transitions : Links → List BuilderTransition
link_transitions [] = []
link_transitions ((label, target) ∷ ls) = link_transition label target ++ link_transitions ls

abbrev transitions_from : String → List Edge → List BuilderTransition
transitions_from i edges = map (λ e. transition_of_edge e) (edges_of i edges)

transition_of_edge-new_edge :
    (edges : List Edge) (i target label : String)
    → transition_of_edge (new_edge edges i target label) ≡ transition_to label target
unfolding transition_of_edge new_edge transition_key
transition_of_edge-new_edge edges i target label = elim (Bool-cases (is_empty label)) [
  | inl blank ↦ rw blank refl
  | inr full ↦ rw (full, full) refl
]

edges_of-append :
    (i : String) (es fs : List Edge) → edges_of i (es ++ fs) ≡ edges_of i es ++ edges_of i fs
unfolding edges_of
edges_of-append i [] fs = refl
edges_of-append i (e ∷ es) fs = elim (Bool-cases (e.source == i)) [
  | inl same ↦ rw same (ap (λ gs. e ∷ gs) (edges_of-append i es fs))
  | inr differ ↦ rw differ (edges_of-append i es fs)
]

map-append {ℓ κ} :
    {A : Type ℓ} {B : Type κ} (f : A → B) (xs ys : List A) → map f (xs ++ ys) ≡ map f xs ++ map f ys
map-append f [] ys = refl
map-append f (x ∷ xs) ys = ap (λ zs. f x ∷ zs) (map-append f xs ys)

transitions_from-append :
    (i : String) (es fs : List Edge)
    → transitions_from i (es ++ fs) ≡ transitions_from i es ++ transitions_from i fs
transitions_from-append i es fs =
    ap (λ gs. map (λ e. transition_of_edge e) gs) (edges_of-append i es fs)
    ∙ map-append (λ e. transition_of_edge e) (edges_of i es) (edges_of i fs)

-- One call adds a transition to its own node and to no other.
abbrev own : Bool → List BuilderTransition → List BuilderTransition
own b ts = if b then ts else []

own-one :
    (edges : List Edge) (i j target label : String)
    → transitions_from j (new_edge edges i target label ∷ [])
      ≡ own (i == j) (transition_to label target ∷ [])
unfolding edges_of new_edge
own-one edges i j target label = elim (Bool-cases (i == j)) [
  | inl same ↦ rw same (ap (λ t. t ∷ []) (transition_of_edge-new_edge edges i target label))
  | inr differ ↦ rw differ refl
]

own-nil : (b : Bool) → own b [] ≡ []
own-nil true = refl
own-nil false = refl

abbrev plus : List BuilderTransition → List BuilderTransition → List BuilderTransition
plus ts us = ts ++ us

unchanged : (b : Bool) (ts : List BuilderTransition) → ts ≡ ts ++ own b []
unchanged b ts = rw (own-nil b) (sym (append-nil ts))

transitions_from-add :
    (edges : List Edge) (i j label : String) (v : Value)
    → transitions_from j (add_edge_from_ckp edges i v label)
      ≡ transitions_from j edges ++ own (i == j) (link_transition label v)
unfolding add_edge_from_ckp
transitions_from-add edges i j label undefined = unchanged (i == j) (transitions_from j edges)
transitions_from-add edges i j label null = unchanged (i == j) (transitions_from j edges)
transitions_from-add edges i j label (bool b) = unchanged (i == j) (transitions_from j edges)
transitions_from-add edges i j label (num n) = unchanged (i == j) (transitions_from j edges)
transitions_from-add edges i j label (obj o) = unchanged (i == j) (transitions_from j edges)
transitions_from-add edges i j label (arr vs) = unchanged (i == j) (transitions_from j edges)
transitions_from-add edges i j label (str target) = elim (Bool-cases (is_empty target)) [
  | inl blank ↦ rw blank (unchanged (i == j) (transitions_from j edges))
  | inr full ↦ rw full (
      transitions_from-append j edges (new_edge edges i target label ∷ [])
      ∙ ap (λ ts. plus (transitions_from j edges) ts) (own-one edges i j target label))
]

own-append : (b : Bool) (ts us : List BuilderTransition) → own b (ts ++ us) ≡ own b ts ++ own b us
own-append true ts us = refl
own-append false ts us = refl

transitions_from-add_links :
    (i j : String) (ls : Links) (edges : List Edge)
    → transitions_from j (add_links i ls edges)
      ≡ transitions_from j edges ++ own (i == j) (link_transitions ls)
unfolding add_links link_transitions
transitions_from-add_links i j [] edges = unchanged (i == j) (transitions_from j edges)
transitions_from-add_links i j ((label, v) ∷ ls) edges =
    transitions_from-add_links i j ls (add_edge_from_ckp edges i v label)
    ∙ ap (λ ts. plus ts (own (i == j) (link_transitions ls)))
        (transitions_from-add edges i j label v)
    ∙ append_assoc (transitions_from j edges) (own (i == j) (link_transition label v))
        (own (i == j) (link_transitions ls))
    ∙ ap (λ ts. plus (transitions_from j edges) ts)
        (sym (own-append (i == j) (link_transition label v) (link_transitions ls)))

-- The transitions that the entries of a workflow give to the node `j`.
unfoldable pub entry_transitions : String → List (String × Fields) → List BuilderTransition
entry_transitions j [] = []
entry_transitions j ((i, node) ∷ es) =
    own (i == j) (link_transitions (node_links node)) ++ entry_transitions j es

pub transitions_from-ckp_edges :
    (j : String) (es : List (String × Fields)) (edges : List Edge)
    → map (λ e. transition_of_edge e) (edges_of j (ckp_edges es edges))
      ≡ map (λ e. transition_of_edge e) (edges_of j edges) ++ entry_transitions j es
unfolding ckp_edges entry_transitions
transitions_from-ckp_edges j [] edges = sym (append-nil (transitions_from j edges))
transitions_from-ckp_edges j ((i, node) ∷ es) edges =
    transitions_from-ckp_edges j es (add_links i (node_links node) edges)
    ∙ ap (λ ts. plus ts (entry_transitions j es))
        (transitions_from-add_links i j (node_links node) edges)
    ∙ append_assoc (transitions_from j edges) (own (i == j) (link_transitions (node_links node)))
        (entry_transitions j es)

-- No entry has the key.
unfoldable pub is_absent : String → List (String × Fields) → Bool
is_absent j [] = true
is_absent j ((i, node) ∷ es) = not (i == j) && is_absent j es

unfoldable pub each_once : List (String × Fields) → Bool
each_once [] = true
each_once ((i, node) ∷ es) = is_absent i es && each_once es

pub entry_transitions-absent :
    (j : String) (es : List (String × Fields)) → is_absent j es ≡ true → entry_transitions j es ≡ []
unfolding entry_transitions is_absent
entry_transitions-absent j [] h = refl
entry_transitions-absent j ((i, node) ∷ es) h = elim (Bool-cases (i == j)) [
  | inl same ↦ let g = rw same at h in cc g
  | inr differ ↦ rw differ (entry_transitions-absent j es (rw differ at h))
]
