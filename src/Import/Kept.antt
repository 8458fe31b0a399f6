-- ===== src/Import/Kept.antt =====
-- What a node's kind assigns to the keys that give it transitions.
use lang_orch.Base.{
  String, Bool, true, false, not, ◌&&◌, Option, none, some, or_else, List, [], ◌∷◌, all, ◌==◌, ◌≡◌,
  refl, Bool-cases, inl, inr, Value, undefined, Fields, get, has,
}
use lang_orch.Draft.{
  BuilderNodeDraft, BuilderTransition, BuilderNodeKind, sequence, logic, loop, parallel,
  human_approval, llm_action, processing, verification, transform, subflow, terminate,
}
use lang_orch.Export.Convert.{first_target, text, as_string}
use lang_orch.Export.Kinds.{assignments, next_node}
use lang_orch.Export.Next.{assigned}
use lang_orch.Import.Links.{other_keys}

-- The keys of a node that give it transitions, and its type.
abbrev pub link_keys : List String
link_keys =
    "type" ∷ "next_node" ∷ "on_approve" ∷ "on_reject" ∷ "on_timeout" ∷ "on_true" ∷ "on_false"
    ∷ "on_pass" ∷ "on_fail" ∷ "on_error" ∷ "on_failure" ∷ "default_next" ∷ "default_next_node"
    ∷ "loop_body" ∷ "body_node" ∷ "branches" ∷ "rules" ∷ []

abbrev pub lacks : List String → Fields → Bool
lacks ks o = all (λ k. not (has k o)) ks

-- The kinds whose transitions are read off single keys, with the target at each of the keys.
unfoldable pub is_fixed : BuilderNodeKind → Bool
is_fixed logic = false
is_fixed parallel = false
is_fixed llm_action = false
is_fixed kind = true

unfoldable pub next_target : BuilderNodeKind → List BuilderTransition → Option String
next_target human_approval ts = none
next_target terminate ts = none
next_target loop ts = first_target ts ("done" ∷ "next" ∷ [])
next_target processing ts = first_target ts ("next" ∷ "pass" ∷ [])
next_target verification ts = first_target ts ("next" ∷ "pass" ∷ [])
next_target kind ts = first_target ts ("next" ∷ [])

unfoldable pub approval_target : String → BuilderNodeKind → List BuilderTransition → Option String
approval_target k human_approval ts = first_target ts (k ∷ [])
approval_target k kind ts = none

unfoldable pub body_target : BuilderNodeKind → List BuilderTransition → Option String
body_target loop ts = first_target ts ("loop body" ∷ [])
body_target kind ts = none

or_else-none : (x : Option Value) → or_else x none ≡ x
or_else-none none = refl
or_else-none (some v) = refl

-- No assignment is to the key.
unfoldable pub lacks_key : String → List (String × Option Value) → Bool
lacks_key k [] = true
lacks_key k ((j, v) ∷ ps) = not (j == k) && lacks_key k ps

pub assigned-lacks_key :
    (k : String) (ps : List (String × Option Value)) → lacks_key k ps ≡ true → assigned k ps ≡ none
unfolding lacks_key assigned
assigned-lacks_key k [] h = refl
assigned-lacks_key k ((j, v) ∷ ps) h = elim (Bool-cases (j == k)) [
  | inl same ↦ let g = rw same at h in cc g
  | inr differ ↦
      rw (differ, or_else-none (assigned k ps)) (assigned-lacks_key k ps (rw differ at h))
]

module _ (parse_json : String → Option Value) (n : BuilderNodeDraft) where
  -- What the kind of a node assigns to the link keys.
  pub record Assigns (kind : BuilderNodeKind) : Type 0 where
    pub assigns_next :
        assigned "next_node" (assignments parse_json kind n) ≡ text (next_target kind n.transitions)
    pub assigns_approve :
        assigned "on_approve" (assignments parse_json kind n)
        ≡ text (approval_target "approve" kind n.transitions)
    pub assigns_reject :
        assigned "on_reject" (assignments parse_json kind n)
        ≡ text (approval_target "reject" kind n.transitions)
    pub assigns_timeout :
        assigned "on_timeout" (assignments parse_json kind n)
        ≡ text (approval_target "timeout" kind n.transitions)
    pub assigns_body :
        assigned "body_node" (assignments parse_json kind n) ≡ text (body_target kind n.transitions)
    pub assigns_others :
        all (λ k. lacks_key k (assignments parse_json kind n)) ("type" ∷ other_keys) ≡ true

  pub kind-Assigns :
      (kind : BuilderNodeKind)
      → is_fixed kind ≡ true
      → get "next_node" n.config ≡ undefined
      → get "body_node" n.config ≡ undefined
      → Assigns kind
  unfolding is_fixed assigned assignments next_node next_target approval_target body_target
      as_string lacks_key first_target
  kind-Assigns human_approval h g b = record {
    assigns_next = refl;
    assigns_approve = simp or_else-none refl;
    assigns_reject = simp or_else-none refl;
    assigns_timeout = simp or_else-none refl;
    assigns_body = refl;
    assigns_others = refl;
  }
  kind-Assigns loop h g b = record {
    assigns_next = simp or_else-none (rw g refl);
    assigns_approve = refl;
    assigns_reject = refl;
    assigns_timeout = refl;
    assigns_body = simp or_else-none (rw b refl);
    assigns_others = refl;
  }
  kind-Assigns terminate h g b = record {
    assigns_next = refl;
    assigns_approve = refl;
    assigns_reject = refl;
    assigns_timeout = refl;
    assigns_body = refl;
    assigns_others = refl;
  }
  kind-Assigns sequence h g b = record {
    assigns_next = rw g refl;
    assigns_approve = refl;
    assigns_reject = refl;
    assigns_timeout = refl;
    assigns_body = refl;
    assigns_others = refl;
  }
  kind-Assigns processing h g b = record {
    assigns_next = simp or_else-none (rw g refl);
    assigns_approve = refl;
    assigns_reject = refl;
    assigns_timeout = refl;
    assigns_body = refl;
    assigns_others = refl;
  }
  kind-Assigns verification h g b = record {
    assigns_next = simp or_else-none (rw g refl);
    assigns_approve = refl;
    assigns_reject = refl;
    assigns_timeout = refl;
    assigns_body = refl;
    assigns_others = refl;
  }
  kind-Assigns transform h g b = record {
    assigns_next = simp or_else-none (rw g refl);
    assigns_approve = refl;
    assigns_reject = refl;
    assigns_timeout = refl;
    assigns_body = refl;
    assigns_others = refl;
  }
  kind-Assigns subflow h g b = record {
    assigns_next = simp or_else-none (rw g refl);
    assigns_approve = refl;
    assigns_reject = refl;
    assigns_timeout = refl;
    assigns_body = refl;
    assigns_others = refl;
  }
  kind-Assigns logic h g b = cc h
  kind-Assigns parallel h g b = cc h
  kind-Assigns llm_action h g b = cc h
