-- ===== src/Import/Links.antt =====
-- The transitions that an import reads off a node whose links are simple.
use lang_orch.Base.{
  String, false, Option, none, some, List, [], ◌∷◌, ◌++◌, append-nil, append_assoc, All, is_empty,
  ◌≡◌, refl, sym, ap, ◌∙◌, Value, undefined, str, Fields, get,
}
use lang_orch.Draft.{BuilderTransition}
use lang_orch.Import.Edges.{
  node_links, Links, link_if, direct_link, either_link, array_links, branch_links, rule_links,
}
use lang_orch.Import.Transitions.{transition_to, link_transition, link_transitions}

link_transitions-append :
    (ls ms : Links) → link_transitions (ls ++ ms) ≡ link_transitions ls ++ link_transitions ms
unfolding link_transitions
link_transitions-append [] ms = refl
link_transitions-append ((label, v) ∷ ls) ms =
    ap (λ ts. link_transition label v ++ ts) (link_transitions-append ls ms)
    ∙ sym (append_assoc (link_transition label v) (link_transitions ls) (link_transitions ms))

direct_link-none :
    (node : Fields) (k label : String) → get k node ≡ undefined → direct_link node k label ≡ []
unfolding direct_link link_if
direct_link-none node k label e = rw e refl

either_link-none :
    (node : Fields) (k l label : String)
    → get k node ≡ undefined
    → get l node ≡ undefined
    → either_link node k l label ≡ []
unfolding either_link link_if
either_link-none node k l label e f = rw (e, f) refl

-- The transition to a target that is there.
unfoldable pub kept : String → Option String → List BuilderTransition
kept label none = []
kept label (some t) = transition_to label t ∷ []

abbrev pub value_of : Option String → Value
value_of none = undefined
value_of (some t) = str t

abbrev pub IsFull : Option String → Type 0
IsFull none = Unit
IsFull (some t) = is_empty t ≡ false

links-direct :
    (node : Fields) (k label : String) (o : Option String)
    → get k node ≡ value_of o
    → IsFull o
    → link_transitions (direct_link node k label) ≡ kept label o
unfolding direct_link link_if link_transitions kept
links-direct node k label none e f = rw e refl
links-direct node k label (some t) e f = rw (e, f, f) refl

links-either :
    (node : Fields) (k l label : String) (o : Option String)
    → get k node ≡ value_of o
    → get l node ≡ undefined
    → IsFull o
    → link_transitions (either_link node k l label) ≡ kept label o
unfolding either_link link_if link_transitions kept
links-either node k l label none e u f = rw (e, u) refl
links-either node k l label (some t) e u f = rw (e, u, f, f) refl

abbrev pub other_keys : List String
other_keys =
    "on_true" ∷ "on_false" ∷ "on_pass" ∷ "on_fail" ∷ "on_error" ∷ "on_failure" ∷ "default_next_node"
    ∷ "default_next" ∷ "loop_body" ∷ "branches" ∷ "rules" ∷ []

-- What the import reads of a node, where its only links are these.
pub record IsLinked (node : Fields) (next approve reject timeout body : Option String)
    : Type 0 where
  pub next_lem : get "next_node" node ≡ value_of next
  pub approve_lem : get "on_approve" node ≡ value_of approve
  pub reject_lem : get "on_reject" node ≡ value_of reject
  pub timeout_lem : get "on_timeout" node ≡ value_of timeout
  pub body_lem : get "body_node" node ≡ value_of body
  pub next_full : IsFull next
  pub approve_full : IsFull approve
  pub reject_full : IsFull reject
  pub timeout_full : IsFull timeout
  pub body_full : IsFull body
  pub others : All (λ k. get k node ≡ undefined) other_keys

pub links-IsLinked :
    (node : Fields) (next approve reject timeout body : Option String)
    → IsLinked node next approve reject timeout body
    → link_transitions (node_links node)
      ≡ kept "" next
        ++ (kept "approve" approve
            ++ (kept "reject" reject ++ (kept "timeout" timeout ++ kept "loop body" body)))
unfolding node_links kept link_transitions
links-IsLinked node next approve reject timeout body l =
    rw
      (
        link_transitions-append (direct_link node "next_node" "") _,
        links-direct node "next_node" "" next l.next_lem l.next_full,
        link_transitions-append (direct_link node "on_approve" "approve") _,
        links-direct node "on_approve" "approve" approve l.approve_lem l.approve_full,
        link_transitions-append (direct_link node "on_reject" "reject") _,
        links-direct node "on_reject" "reject" reject l.reject_lem l.reject_full,
        link_transitions-append (direct_link node "on_timeout" "timeout") _,
        links-direct node "on_timeout" "timeout" timeout l.timeout_lem l.timeout_full,
      )
      (ap
        (λ ts.
          kept "" next
          ++ (kept "approve" approve ++ (kept "reject" reject ++ (kept "timeout" timeout ++ ts))))
        rest)
  where
    rest :
        link_transitions (
          direct_link node "on_true" "true"
          ++ (direct_link node "on_false" "false"
              ++ (direct_link node "on_pass" "pass"
                  ++ (direct_link node "on_fail" "fail"
                      ++ (direct_link node "on_error" "error"
                          ++ (direct_link node "on_failure" "error"
                              ++ (either_link node "default_next_node" "default_next" "default"
                                  ++ (either_link node "body_node" "loop_body" "loop body"
                                      ++ (array_links branch_links (get "branches" node)
                                          ++ array_links rule_links (get "rules" node))))))))))
        ≡ kept "loop body" body
    rest =
        let o = l.others in
        rw
          (
            direct_link-none node "on_true" "true" o.0,
            direct_link-none node "on_false" "false" o.1.0,
            direct_link-none node "on_pass" "pass" o.1.1.0,
            direct_link-none node "on_fail" "fail" o.1.1.1.0,
            direct_link-none node "on_error" "error" o.1.1.1.1.0,
            direct_link-none node "on_failure" "error" o.1.1.1.1.1.0,
            either_link-none node "default_next_node" "default_next" "default" o.1.1.1.1.1.1.0
                o.1.1.1.1.1.1.1.0,
            o.1.1.1.1.1.1.1.1.1.0,
            o.1.1.1.1.1.1.1.1.1.1.0,
          )
          (link_transitions-append (either_link node "body_node" "loop_body" "loop body") []
            ∙ append-nil (link_transitions (either_link node "body_node" "loop_body" "loop body"))
            ∙ links-either node "body_node" "loop_body" "loop body" body l.body_lem
                o.1.1.1.1.1.1.1.1.0 l.body_full)
