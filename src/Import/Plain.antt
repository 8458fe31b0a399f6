-- ===== src/Import/Plain.antt =====
-- A draft of plain nodes that is exported and imported again.
use lang_orch.Base.{
  String, Bool, true, ◌&&◌, Option, none, some, List, [], ◌∷◌, ◌++◌, any, All, map, ◌==◌, ◌≡◌, refl,
  ◌∙◌, arith, inl, inr, Option-cases, Value, undefined, str, no_fields, field, get,
  get-eq-undefined,
}
use lang_orch.Draft.{
  BuilderNodeDraft, BuilderDraftDocument, BuilderTransition, BuilderNodeKind, sequence, logic, loop,
  parallel, human_approval, llm_action, processing, verification, transform, subflow, terminate,
  kind_name,
}
use lang_orch.Store.{Layout}
use lang_orch.Store.Ids.Distinct.{Distinct}
use lang_orch.Export.{export_node, head_fields, has_fallback}
use lang_orch.Export.Convert.{first_target, transition_target}
use lang_orch.Export.Kinds.{assignments}
use lang_orch.Export.Next.{assigned, or_value, get-put_all, get-export_node}
use lang_orch.Import.Laws.{outline, entry_outline}
use lang_orch.Import.Round.{reimported, outline-reimported}
use lang_orch.Import.Links.{kept, IsFull, other_keys, IsLinked, links-IsLinked}
use lang_orch.Import.Kept.{
  link_keys, lacks, is_fixed, next_target, approval_target, body_target, lacks_key,
  assigned-lacks_key, kind-Assigns,
}
use lang_orch.Import.Exported.{
  lacks-key, is_plain_key, all-All, first_target-IsFull, get-build_base_node, get-linked,
  get-unlinked, get-next,
}

-- The nodes whose configuration gives no links and no type, of a kind whose transitions are read off
-- single keys.
pub record IsPlain (n : BuilderNodeDraft) : Type 0 where
  pub lacks_lem : lacks link_keys n.config ≡ true
  pub extra_lem : get "extraJsonText" n.config ≡ undefined
  pub fixed_lem : is_fixed n.kind ≡ true

-- What is left of the transitions of a node.
unfoldable pub kept_transitions : BuilderNodeDraft → List BuilderTransition
kept_transitions n =
    kept "" (next_target n.kind n.transitions)
    ++ (kept "approve" (approval_target "approve" n.kind n.transitions)
        ++ (kept "reject" (approval_target "reject" n.kind n.transitions)
            ++ (kept "timeout" (approval_target "timeout" n.kind n.transitions)
                ++ kept "loop body" (body_target n.kind n.transitions))))

first_missing :
    (ts : List BuilderTransition)
    → first_target ts ("next" ∷ "pass" ∷ []) ≡ none
    → first_target ts ("next" ∷ []) ≡ none
unfolding first_target
first_missing ts e = elim (Option-cases (transition_target ts "next")) [
  | inl missing ↦ rw missing refl
  | inr (t, given) ↦ let g : some t ≡ none = rw given at e in cc g
]

fallback-end :
    (kind : BuilderNodeKind) (ts : List BuilderTransition)
    → has_fallback kind ≡ true
    → next_target kind ts ≡ none
    → first_target ts ("next" ∷ []) ≡ none
unfolding has_fallback next_target first_target
fallback-end sequence ts h e = e
fallback-end logic ts h e = e
fallback-end loop ts h e = cc h
fallback-end parallel ts h e = e
fallback-end human_approval ts h e = cc h
fallback-end llm_action ts h e = e
fallback-end processing ts h e = first_missing ts e
fallback-end verification ts h e = first_missing ts e
fallback-end transform ts h e = e
fallback-end subflow ts h e = e
fallback-end terminate ts h e = cc h

target-IsFull :
    (k : String) (kind : BuilderNodeKind) (ts : List BuilderTransition)
    → IsFull (next_target kind ts)
      × IsFull (approval_target k kind ts)
      × IsFull (body_target kind ts)
unfolding next_target approval_target body_target
target-IsFull k human_approval ts = (tt, first_target-IsFull ts (k ∷ []), tt)
target-IsFull k terminate ts = (tt, tt, tt)
target-IsFull k loop ts =
    (first_target-IsFull ts ("done" ∷ "next" ∷ []), tt, first_target-IsFull ts ("loop body" ∷ []))
target-IsFull k processing ts = (first_target-IsFull ts ("next" ∷ "pass" ∷ []), tt, tt)
target-IsFull k verification ts = (first_target-IsFull ts ("next" ∷ "pass" ∷ []), tt, tt)
target-IsFull k sequence ts = (first_target-IsFull ts ("next" ∷ []), tt, tt)
target-IsFull k logic ts = (first_target-IsFull ts ("next" ∷ []), tt, tt)
target-IsFull k parallel ts = (first_target-IsFull ts ("next" ∷ []), tt, tt)
target-IsFull k llm_action ts = (first_target-IsFull ts ("next" ∷ []), tt, tt)
target-IsFull k transform ts = (first_target-IsFull ts ("next" ∷ []), tt, tt)
target-IsFull k subflow ts = (first_target-IsFull ts ("next" ∷ []), tt, tt)

others_hold : (a b : Bool) → (a && b) ≡ true → b ≡ true
others_hold a b h = ground arith

export_node-IsLinked :
    (parse_json : String → Option Value) (n : BuilderNodeDraft)
    → IsPlain n
    → IsLinked
        (export_node parse_json n)
        (next_target n.kind n.transitions)
        (approval_target "approve" n.kind n.transitions)
        (approval_target "reject" n.kind n.transitions)
        (approval_target "timeout" n.kind n.transitions)
        (body_target n.kind n.transitions)
export_node-IsLinked parse_json n p =
    let lacking = λ (k : String) (m : any (λ j. j == k) link_keys ≡ true).
      get-eq-undefined k n.config (lacks-key k link_keys n.config p.lacks_lem m) in
    let assigns =
      kind-Assigns parse_json n n.kind p.fixed_lem (lacking "next_node" refl)
        (lacking "body_node" refl) in
    let linked = get-linked parse_json n p.lacks_lem p.extra_lem in
    record {
      next_lem =
          get-next parse_json n p.lacks_lem p.extra_lem _ assigns.assigns_next
            (target-IsFull "" n.kind n.transitions).0 (fallback-end n.kind n.transitions);
      approve_lem = linked "on_approve" _ refl assigns.assigns_approve;
      reject_lem = linked "on_reject" _ refl assigns.assigns_reject;
      timeout_lem = linked "on_timeout" _ refl assigns.assigns_timeout;
      body_lem = linked "body_node" _ refl assigns.assigns_body;
      next_full = (target-IsFull "" n.kind n.transitions).0;
      approve_full = (target-IsFull "approve" n.kind n.transitions).1;
      reject_full = (target-IsFull "reject" n.kind n.transitions).1;
      timeout_full = (target-IsFull "timeout" n.kind n.transitions).1;
      body_full = (target-IsFull "" n.kind n.transitions).2;
      others =
          all-All (λ k. is_plain_key k) (λ k. lacks_key k (assignments parse_json n.kind n)) _
            other_keys refl (others_hold _ _ assigns.assigns_others)
            (get-unlinked parse_json n p.lacks_lem p.extra_lem);
    }

first_holds : (a b : Bool) → (a && b) ≡ true → a ≡ true
first_holds a b h = ground arith

type-head_fields : (n : BuilderNodeDraft) → get "type" (head_fields n) ≡ str (kind_name n.kind)
unfolding head_fields get or_value assigned
type-head_fields n = get-put_all "type" _ (field "type" (str (kind_name n.kind)) no_fields)

type-export_node :
    (parse_json : String → Option Value) (n : BuilderNodeDraft)
    → IsPlain n
    → get "type" (export_node parse_json n) ≡ str (kind_name n.kind)
unfolding or_value
type-export_node parse_json n p =
    let lacking = λ (k : String) (m : any (λ j. j == k) link_keys ≡ true).
      get-eq-undefined k n.config (lacks-key k link_keys n.config p.lacks_lem m) in
    let assigns =
      kind-Assigns parse_json n n.kind p.fixed_lem (lacking "next_node" refl)
        (lacking "body_node" refl) in
    get-export_node parse_json n "type" refl refl
    ∙ rw
        (assigned-lacks_key "type" (assignments parse_json n.kind n)
          (first_holds _ _ assigns.assigns_others))
        (get-build_base_node parse_json n p.lacks_lem p.extra_lem "type" refl ∙ type-head_fields n)

abbrev pub kept_outline : BuilderNodeDraft → String × Value × List BuilderTransition
kept_outline n = (n.id, str (kind_name n.kind), kept_transitions n)

outline-export_node :
    (parse_json : String → Option Value) (n : BuilderNodeDraft)
    → IsPlain n
    → entry_outline (n.id, export_node parse_json n) ≡ kept_outline n
unfolding kept_transitions
outline-export_node parse_json n p =
    rw
      (
        type-export_node parse_json n p,
        links-IsLinked _ _ _ _ _ _ (export_node-IsLinked parse_json n p),
      )
      refl

outlines-export_node :
    (parse_json : String → Option Value) (ns : List BuilderNodeDraft)
    → All (λ n. IsPlain n) ns
    → map (λ (n : BuilderNodeDraft). entry_outline (n.id, export_node parse_json n)) ns
      ≡ map (λ n. kept_outline n) ns
outlines-export_node parse_json [] h = refl
outlines-export_node parse_json (n ∷ ns) h =
    λ i. outline-export_node parse_json n h.0 i ∷ outlines-export_node parse_json ns h.1 i

-- A draft with distinct identifiers, in which no node's configuration has a type, a link or an extra
-- text, and no node is a logic, parallel or model node, has the same nodes in the same
-- order after its export and import: each has its identifier and its kind, and of its transitions an
-- approval has the first ones with a target for approve, reject and timeout, a loop that of done or
-- else next and that of the loop body, an end none, a processing or verification node that of next or
-- else pass, and the others that of next. The targets are the same; done and pass become next.
pub reimported-kept :
    (parse_json : String → Option Value) (print_json : Value → String) (dagre : Layout)
    (d : BuilderDraftDocument)
    → Distinct d.nodes
    → All (λ n. IsPlain n) d.nodes
    → map (λ n. outline n) (reimported parse_json print_json dagre d).nodes
      ≡ map (λ n. kept_outline n) d.nodes
reimported-kept parse_json print_json dagre d distinct plain =
    outline-reimported parse_json print_json dagre d distinct
    ∙ outlines-export_node parse_json d.nodes plain
