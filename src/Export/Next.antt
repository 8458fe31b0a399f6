-- ===== src/Export/Next.antt =====
-- Where an exported node leads to: frontend/src/builder-v2/transforms/draft-to-ckp.ts.
use lang_orch.Base.{
  String, Bool, true, false, not, ◌&&◌, Option, none, some, or_else, List, [], ◌∷◌, if◌then◌else◌,
  ◌==◌, ◌≡◌, refl, arith, ap, ◌∙◌, Value, str, Fields, get, put, trim, truthy, is_filled_array,
  get-put, is_blank, Bool-cases, inl, inr, Option-cases, is_empty,
}
use lang_orch.Draft.{
  BuilderNodeKind, sequence, logic, loop, parallel, human_approval, llm_action, processing,
  verification, transform, subflow, terminate, BuilderNodeDraft, BuilderTransition,
}
use lang_orch.Store.{target_of}
use lang_orch.Export.{build_base_node, put_steps, has_fallback, put_fallback, export_node}
use lang_orch.Export.Convert.{put_some, put_all, first_target, transition_target, as_string}
use lang_orch.Export.Kinds.{assignments, next_node}

-- The value that a list of assignments leaves at a key.
unfoldable pub assigned : String → List (String × Option Value) → Option Value
assigned k [] = none
assigned k ((j, v) ∷ ps) = or_else (assigned k ps) (if j == k then v else none)

unfoldable pub or_value : Option Value → Value → Value
or_value none v = v
or_value (some w) v = w

pub get-put_all :
    (k : String) (ps : List (String × Option Value)) (o : Fields)
    → get k (put_all ps o) ≡ or_value (assigned k ps) (get k o)
unfolding put_all assigned or_value
get-put_all k [] o = refl
get-put_all k ((j, none) ∷ ps) o = ground (arith, get-put_all k ps o)
get-put_all k ((j, some v) ∷ ps) o = ground (arith, get-put_all k ps (put j v o), get-put j k v o)

get-put_fallback :
    (k : String) (n : BuilderNodeDraft) (o : Fields)
    → ("next_node" == k) ≡ false
    → get k (put_fallback n o) ≡ get k o
unfolding put_fallback put_some
get-put_fallback k n o ne =
    elim (Bool-cases (has_fallback n.kind && not (truthy (get "next_node" o)))) [
      | inl fills ↦ rw fills (on_target (first_target n.transitions ("next" ∷ [])))
      | inr keeps ↦ rw keeps refl
    ]
  where
    on_target : (t : Option String) → get k (put_some "next_node" t o) ≡ get k o
    on_target none = refl
    on_target (some t) = rw (get-put "next_node" k (str t) o, ne) refl

pub get-put_steps :
    (k : String) (kind : BuilderNodeKind) (v : Value) (o : Fields)
    → ("steps" == k) ≡ false
    → get k (put_steps kind v o) ≡ get k o
unfolding put_steps
get-put_steps k sequence v o ne = elim (Bool-cases (is_filled_array v)) [
  | inl filled ↦ rw (filled, get-put "steps" k v o, ne) refl
  | inr empty ↦ rw empty refl
]
get-put_steps k _ v o ne = refl

-- Apart from the steps and the next node, an exported node has the values that its kind assigns.
pub get-export_node :
    (parse_json : String → Option Value) (n : BuilderNodeDraft) (k : String)
    → ("next_node" == k) ≡ false
    → ("steps" == k) ≡ false
    → get k (export_node parse_json n)
      ≡ or_value
          (assigned k (assignments parse_json n.kind n))
          (get k (build_base_node parse_json n))
unfolding export_node
get-export_node parse_json n k ne_next ne_steps =
    get-put_fallback k n _ ne_next
    ∙ get-put_steps k n.kind (get "steps" n.config) _ ne_steps
    ∙ get-put_all k (assignments parse_json n.kind n) (build_base_node parse_json n)

as_string-eq :
    (v : Value) (s : String) → v ≡ str s → is_blank s ≡ false → as_string v ≡ some (trim s)
unfolding as_string
as_string-eq v s e full = rw (e, full) refl

parallel_value :
    (parse_json : String → Option Value) (n : BuilderNodeDraft) (s : String)
    → get "wait_strategy" n.config ≡ str s
    → is_blank s ≡ false
    → assigned "wait_strategy" (assignments parse_json parallel n) ≡ some (str "any")
unfolding assigned assignments
parallel_value parse_json n s ws full =
    rw (as_string-eq (get "wait_strategy" n.config) s ws full) refl

-- A parallel node whose wait strategy is a text that is not blank, be it `"all"`, is exported with the
-- wait strategy `"any"`, whatever its other settings, branches and extra text are.
pub export_node-wait_strategy :
    (parse_json : String → Option Value) (n : BuilderNodeDraft) (s : String)
    → n.kind ≡ parallel
    → get "wait_strategy" n.config ≡ str s
    → is_blank s ≡ false
    → get "wait_strategy" (export_node parse_json n) ≡ str "any"
unfolding or_value
export_node-wait_strategy parse_json n s kind ws full =
    get-export_node parse_json n "wait_strategy" refl refl
    ∙ ap (λ (v : Option Value). or_value v (get "wait_strategy" (build_base_node parse_json n)))
        (ap (λ (k : BuilderNodeKind). assigned "wait_strategy" (assignments parse_json k n)) kind
          ∙ parallel_value parse_json n s ws full)

-- The kinds that go on to one next node.
unfoldable pub single_next : BuilderNodeKind → Bool
single_next logic = false
single_next loop = false
single_next human_approval = false
single_next terminate = false
single_next k = true

next_node-single :
    (parse_json : String → Option Value) (n : BuilderNodeDraft) (t : String) (ks : List String)
    → or_else (as_string (get "next_node" n.config)) (transition_target n.transitions "next")
      ≡ some t
    → next_node parse_json n ("next" ∷ ks) ≡ some t
unfolding next_node first_target
next_node-single parse_json n t ks e = elim (Option-cases (as_string (get "next_node" n.config))) [
  | inl missing ↦ let g = rw missing at e in rw (missing, g) refl
  | inr (s, given) ↦ let g = rw given at e in rw (given) g
]

assigned_next :
    (parse_json : String → Option Value) (n : BuilderNodeDraft) (t : String)
    (kind : BuilderNodeKind)
    → single_next kind ≡ true
    → or_else (as_string (get "next_node" n.config)) (transition_target n.transitions "next")
      ≡ some t
    → assigned "next_node" (assignments parse_json kind n) ≡ some (str t)
unfolding assigned assignments single_next
assigned_next parse_json n t sequence h e = rw (next_node-single parse_json n t [] e) refl
assigned_next parse_json n t parallel h e = rw (next_node-single parse_json n t [] e) refl
assigned_next parse_json n t llm_action h e = rw (next_node-single parse_json n t [] e) refl
assigned_next parse_json n t processing h e =
    rw (next_node-single parse_json n t ("pass" ∷ []) e) refl
assigned_next parse_json n t verification h e =
    rw (next_node-single parse_json n t ("pass" ∷ []) e) refl
assigned_next parse_json n t transform h e = rw (next_node-single parse_json n t [] e) refl
assigned_next parse_json n t subflow h e = rw (next_node-single parse_json n t [] e) refl
assigned_next parse_json n t logic h e = cc h
assigned_next parse_json n t loop h e = cc h
assigned_next parse_json n t human_approval h e = cc h
assigned_next parse_json n t terminate h e = cc h

target_of-full : (t : BuilderTransition) (i : String) → target_of t ≡ some i → is_empty i ≡ false
target_of-full t i e = elim (Option-cases t.target_node_id) [
  | inl missing ↦ let g = rw missing at e in cc g
  | inr (j, given) ↦ elim (Bool-cases (is_empty j)) [
    | inl empty ↦ let g = rw (given, empty) at e in cc g
    | inr full ↦ let g : some j ≡ some i = rw (given, full) at e in cc (g, full)
  ]
]

pub transition_target-full :
    (ts : List BuilderTransition) (k i : String)
    → transition_target ts k ≡ some i
    → is_empty i ≡ false
unfolding transition_target
transition_target-full [] k i e = cc e
transition_target-full (t ∷ ts) k i e = elim (Bool-cases (t.key == k)) [
  | inl same ↦ elim (Option-cases (target_of t)) [
    | inl missing ↦ transition_target-full ts k i (rw (same, missing) at e)
    | inr (j, given) ↦ target_of-full t i (given ∙ (rw (same, given) at e))
  ]
  | inr differ ↦ transition_target-full ts k i (rw differ at e)
]

as_string-full : (v : Value) (s : String) → as_string v ≡ some s → is_empty s ≡ false
unfolding as_string
as_string-full (str s) i e = elim (Bool-cases (is_blank s)) [
  | inl blank ↦ let g = rw blank at e in cc g
  | inr full ↦ let g : some (trim s) ≡ some i = rw full at e in cc (g, full)
]
as_string-full v i e = cc e

next-full :
    (v : Value) (ts : List BuilderTransition) (t : String)
    → or_else (as_string v) (transition_target ts "next") ≡ some t
    → is_empty t ≡ false
next-full v ts t e = elim (Option-cases (as_string v)) [
  | inl missing ↦ transition_target-full ts "next" t (rw missing at e)
  | inr (s, given) ↦ as_string-full v t (given ∙ (rw given at e))
]

-- The fallback leaves a next node alone that is there.
pub put_fallback-keeps :
    (n : BuilderNodeDraft) (o : Fields) (t : String)
    → get "next_node" o ≡ str t
    → is_empty t ≡ false
    → put_fallback n o ≡ o
unfolding put_fallback
put_fallback-keeps n o t e full = elim (Bool-cases (has_fallback n.kind)) [
  | inl fills ↦ rw (fills, e, full) refl
  | inr ends ↦ rw ends refl
]

-- A node that goes on to one next node is exported with the text of its `next_node` setting, or
-- else with the target of its `next` transition, where there is one or the other.
pub export_node-next_node :
    (parse_json : String → Option Value) (n : BuilderNodeDraft) (t : String)
    → single_next n.kind ≡ true
    → or_else (as_string (get "next_node" n.config)) (transition_target n.transitions "next")
      ≡ some t
    → get "next_node" (export_node parse_json n) ≡ str t
unfolding export_node or_value
export_node-next_node parse_json n t single e =
    let assigns = put_all (assignments parse_json n.kind n) (build_base_node parse_json n) in
    let o = put_steps n.kind (get "steps" n.config) assigns in
    let there : get "next_node" o ≡ str t =
      get-put_steps "next_node" n.kind (get "steps" n.config) assigns refl
      ∙ get-put_all "next_node" (assignments parse_json n.kind n) (build_base_node parse_json n)
      ∙ rw (assigned_next parse_json n t n.kind single e) refl in
    let full = next-full (get "next_node" n.config) n.transitions t e in
    rw (put_fallback-keeps n o t there full) there
