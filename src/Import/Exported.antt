-- ===== src/Import/Exported.antt =====
-- The link keys of an exported node whose configuration has none of them.
use lang_orch.Base.{
  String, Bool, true, false, not, ◌&&◌, ◌||◌, Option, none, some, List, [], ◌∷◌, any, all, All,
  if◌then◌else◌, ◌==◌, ◌≡◌, refl, ap, ◌∙◌, arith, eq_iff, Bool-cases, inl, inr, Option-cases, Value,
  undefined, bool, str, Fields, no_fields, field, get, has, put, truthy, get-put,
}
use lang_orch.Draft.{BuilderNodeDraft, BuilderTransition, kind_name}
use lang_orch.Export.{
  export_node, build_base_node, copy_config, assign_extra, head_fields, put_fallback, put_steps,
  has_fallback,
}
use lang_orch.Export.Convert.{
  trimmed, put_some, first_target, transition_target, text, put_all, is_ui_only, is_undefined,
  parse_json_like,
}
use lang_orch.Export.Kinds.{assignments}
use lang_orch.Export.Next.{
  assigned, or_value, get-put_all, get-put_steps, get-export_node, put_fallback-keeps,
  transition_target-full,
}
use lang_orch.Import.Links.{value_of, IsFull}
use lang_orch.Import.Kept.{link_keys, lacks, lacks_key, assigned-lacks_key}

split_or : (a b : Bool) → (a || b) ≡ false → (a ≡ false) × (b ≡ false)
split_or true b h = cc h
split_or false b h = (refl, h)

get-copy_config :
    (parse_json : String → Option Value) (k : String) (base o : Fields)
    → has k o ≡ false
    → get k (copy_config parse_json base o) ≡ get k base
unfolding copy_config has
get-copy_config parse_json k base no_fields h = refl
get-copy_config parse_json k base (field j v o) h =
    elim (Bool-cases (is_undefined v || is_ui_only j)) [
      | inl skipped ↦
          rw skipped (get-copy_config parse_json k base o (split_or (j == k) (has k o) h).1)
      | inr copied ↦
          let g = split_or (j == k) (has k o) h in
          rw copied (
            get-copy_config parse_json k (put j (parse_json_like parse_json v) base) o g.1
            ∙ rw (get-put j k (parse_json_like parse_json v) base, g.0) refl)
    ]

pub lacks-key :
    (k : String) (ks : List String) (o : Fields)
    → lacks ks o ≡ true
    → any (λ j. j == k) ks ≡ true
    → has k o ≡ false
lacks-key k [] o h m = cc m
lacks-key k (j ∷ ks) o h m = ground (arith, eq_iff j k, lacks-key k ks o)

abbrev pub is_plain_key : String → Bool
is_plain_key k =
    any (λ j. j == k) link_keys
    && all (λ j. not (j == k))
        ("type" ∷ "description" ∷ "agent" ∷ "is_checkpoint" ∷ "next_node" ∷ "steps" ∷ [])

plain_bits :
    (a b c d e f g : Bool)
    → (a && (not b && (not c && (not d && (not e && (not f && (not g && true))))))) ≡ true
    → (a ≡ true) × (b ≡ false) × (c ≡ false) × (d ≡ false) × (e ≡ false) × (f ≡ false) × (g ≡ false)
plain_bits a b c d e f g h = (
  ground arith,
  ground arith,
  ground arith,
  ground arith,
  ground arith,
  ground arith,
  ground arith,
)

pub plain_key :
    (k : String)
    → is_plain_key k ≡ true
    → (any (λ j. j == k) link_keys ≡ true)
      × (("type" == k) ≡ false)
      × (("description" == k) ≡ false)
      × (("agent" == k) ≡ false)
      × (("is_checkpoint" == k) ≡ false)
      × (("next_node" == k) ≡ false)
      × (("steps" == k) ≡ false)
plain_key k h = plain_bits _ _ _ _ _ _ _ h

get-head_fields :
    (n : BuilderNodeDraft) (k : String)
    → ("type" == k) ≡ false
    → ("description" == k) ≡ false
    → ("agent" == k) ≡ false
    → ("is_checkpoint" == k) ≡ false
    → get k (head_fields n) ≡ undefined
unfolding head_fields get lacks_key or_value
get-head_fields n k t d a c =
    get-put_all k _ (field "type" (str (kind_name n.kind)) no_fields)
    ∙ rw
        (assigned-lacks_key k
          (("description", trimmed n.description)
            ∷ ("agent", trimmed n.agent)
            ∷ (
              "is_checkpoint",
              if truthy (get "isCheckpoint" n.config) then some (bool true) else none,
            )
            ∷ [])
          (rw (d, a, c) refl))
        (rw t refl)

pub all-All :
    (p q : String → Bool) (Q : String → Type 0) (ks : List String)
    → all p ks ≡ true
    → all q ks ≡ true
    → ((k : String) → p k ≡ true → q k ≡ true → Q k)
    → All Q ks
all-All p q Q [] h g f = tt
all-All p q Q (k ∷ ks) h g f =
    (f k (ground arith) (ground arith), all-All p q Q ks (ground arith) (ground arith) f)

or_value-text : (o : Option String) → or_value (text o) undefined ≡ value_of o
unfolding or_value
or_value-text none = refl
or_value-text (some t) = refl

put_fallback-nothing :
    (n : BuilderNodeDraft) (o : Fields)
    → get "next_node" o ≡ undefined
    → (has_fallback n.kind ≡ true → first_target n.transitions ("next" ∷ []) ≡ none)
    → put_fallback n o ≡ o
unfolding put_fallback put_some
put_fallback-nothing n o absent end = elim (Bool-cases (has_fallback n.kind)) [
  | inl fills ↦ rw (fills, absent, end fills) refl
  | inr ends ↦ rw ends refl
]

pub first_target-IsFull :
    (ts : List BuilderTransition) (ks : List String) → IsFull (first_target ts ks)
unfolding first_target
first_target-IsFull ts [] = tt
first_target-IsFull ts (k ∷ ks) = elim (Option-cases (transition_target ts k)) [
  | inl missing ↦ rw missing (first_target-IsFull ts ks)
  | inr (t, given) ↦ rw given (transition_target-full ts k t given)
]

module _ (parse_json : String → Option Value) (n : BuilderNodeDraft)
    (plain : lacks link_keys n.config ≡ true)
    (no_extra : get "extraJsonText" n.config ≡ undefined) where
  pub get-build_base_node :
      (k : String)
      → any (λ j. j == k) link_keys ≡ true
      → get k (build_base_node parse_json n) ≡ get k (head_fields n)
  unfolding build_base_node assign_extra
  get-build_base_node k m = rw no_extra (
      get-copy_config parse_json k (head_fields n) n.config
        (lacks-key k link_keys n.config plain m))

  -- A link key has the value that the kind assigns, if any.
  get-assigned :
      (k : String)
      → any (λ j. j == k) link_keys ≡ true
      → ("next_node" == k) ≡ false
      → ("steps" == k) ≡ false
      → get k (head_fields n) ≡ undefined
      → get k (export_node parse_json n)
        ≡ or_value (assigned k (assignments parse_json n.kind n)) undefined
  get-assigned k m ne_next ne_steps none_yet =
      get-export_node parse_json n k ne_next ne_steps
      ∙ ap (λ (v : Value). or_value (assigned k (assignments parse_json n.kind n)) v)
          (get-build_base_node k m ∙ none_yet)

  pub get-linked :
      (k : String) (o : Option String)
      → is_plain_key k ≡ true
      → assigned k (assignments parse_json n.kind n) ≡ text o
      → get k (export_node parse_json n) ≡ value_of o
  get-linked k o h e =
      let p = plain_key k h in
      get-assigned k p.0 p.5 p.6 (get-head_fields n k p.1 p.2 p.3 p.4) ∙ rw e (or_value-text o)

  pub get-unlinked :
      (k : String)
      → is_plain_key k ≡ true
      → lacks_key k (assignments parse_json n.kind n) ≡ true
      → get k (export_node parse_json n) ≡ undefined
  get-unlinked k h e =
      get-linked k none h (assigned-lacks_key k (assignments parse_json n.kind n) e)

  -- The object before the fallback.
  get-before_fallback :
      (t : Option String)
      → assigned "next_node" (assignments parse_json n.kind n) ≡ text t
      → get "next_node" (
          put_steps n.kind
            (get "steps" n.config)
            (put_all (assignments parse_json n.kind n) (build_base_node parse_json n)))
        ≡ value_of t
  unfolding head_fields get or_value
  get-before_fallback t e =
      get-put_steps "next_node" n.kind (get "steps" n.config) _ refl
      ∙ get-put_all "next_node" (assignments parse_json n.kind n) (build_base_node parse_json n)
      ∙ rw e (
          ap (λ (v : Value). or_value (text t) v)
            (get-build_base_node "next_node" refl
              ∙ get-head_fields n "next_node" refl refl refl refl)
          ∙ or_value-text t)

  pub get-next :
      (t : Option String)
      → assigned "next_node" (assignments parse_json n.kind n) ≡ text t
      → IsFull t
      → (has_fallback n.kind ≡ true → t ≡ none → first_target n.transitions ("next" ∷ []) ≡ none)
      → get "next_node" (export_node parse_json n) ≡ value_of t
  unfolding export_node
  get-next none e full end =
      let absent = get-before_fallback none e in
      rw (put_fallback-nothing n _ absent (λ b. end b refl)) absent
  get-next (some t) e full end =
      let there = get-before_fallback (some t) e in rw (put_fallback-keeps n _ t there full) there
