-- ===== src/Export/Keys.antt =====
-- Which keys an exported node can have: frontend/src/builder-v2/transforms/draft-to-ckp.ts.
use lang_orch.Base.{
  String, Bool, true, false, not, ◌&&◌, ◌||◌, Option, none, some, List, [], ◌∷◌, ◌==◌, ◌≡◌, refl,
  arith, Value, undefined, null, bool, num, str, arr, obj, Fields, no_fields, field, get, has, put,
  merge, trim, truthy, is_filled_array, has-put, eq_iff, is_blank, Bool-cases, inl, inr,
}
use lang_orch.Draft.{
  BuilderNodeKind, kind_name, sequence, logic, loop, parallel, human_approval, llm_action,
  processing, verification, transform, subflow, terminate, BuilderNodeDraft,
}
use lang_orch.Export.{
  copy_config, assign_extra, head_fields, assign_object, build_base_node, put_steps, has_fallback,
  put_fallback, export_node,
}
use lang_orch.Export.Convert.{
  parse_json_like, is_ui_only, is_undefined, put_some, put_all, parsed_or, first_target,
}
use lang_orch.Export.Kinds.{assignments}

-- No key of the list is one of the editor's.
shown : List (String × Option Value) → Bool
shown [] = true
shown ((k, v) ∷ ps) = not (is_ui_only k) && shown ps

-- Keys that a test tells apart are not equal.
differ-test : (f : String → Bool) (k j : String) → f k ≡ true → f j ≡ false → (j == k) ≡ false
differ-test f k j h g = elim (Bool-cases (j == k)) [
  | inl same ↦ let e : j ≡ k = (eq_iff j k).0 same in cc (e, h, g)
  | inr differ ↦ differ
]

has-put_hidden :
    (k j : String) (v : Value) (o : Fields)
    → is_ui_only k ≡ true
    → is_ui_only j ≡ false
    → has k o ≡ false
    → has k (put j v o) ≡ false
has-put_hidden k j v o h g absent =
    rw (has-put j k v o, differ-test (λ i. is_ui_only i) k j h g) absent

first_hidden : (a b : Bool) → (not a && b) ≡ true → (a ≡ false) × (b ≡ true)
first_hidden true b h = cc h
first_hidden false b h = (refl, h)

has-put_all :
    (k : String) (ps : List (String × Option Value)) (o : Fields)
    → is_ui_only k ≡ true
    → shown ps ≡ true
    → has k o ≡ false
    → has k (put_all ps o) ≡ false
unfolding put_all shown
has-put_all k [] o h s absent = absent
has-put_all k ((j, none) ∷ ps) o h s absent =
    has-put_all k ps o h (first_hidden (is_ui_only j) (shown ps) s).1 absent
has-put_all k ((j, some v) ∷ ps) o h s absent =
    let both = first_hidden (is_ui_only j) (shown ps) s in
    has-put_all k ps (put j v o) h both.1 (has-put_hidden k j v o h both.0 absent)

has-copy_config :
    (parse_json : String → Option Value) (k : String) (base o : Fields)
    → is_ui_only k ≡ true
    → has k base ≡ false
    → has k (copy_config parse_json base o) ≡ false
unfolding copy_config
has-copy_config parse_json k base no_fields h absent = absent
has-copy_config parse_json k base (field j v o) h absent =
    elim (Bool-cases (is_undefined v || is_ui_only j)) [
      | inl skipped ↦ rw skipped (has-copy_config parse_json k base o h absent)
      | inr copied ↦ rw copied (
          has-copy_config parse_json k (put j (parse_json_like parse_json v) base) o h
            (has-put_hidden k j (parse_json_like parse_json v) base h (ground arith) absent))
    ]

assignments-Shown :
    (parse_json : String → Option Value) (n : BuilderNodeDraft) (kind : BuilderNodeKind)
    → shown (assignments parse_json kind n) ≡ true
unfolding shown assignments
assignments-Shown parse_json n sequence = refl
assignments-Shown parse_json n logic = refl
assignments-Shown parse_json n loop = refl
assignments-Shown parse_json n parallel = refl
assignments-Shown parse_json n human_approval = refl
assignments-Shown parse_json n llm_action = refl
assignments-Shown parse_json n processing = refl
assignments-Shown parse_json n verification = refl
assignments-Shown parse_json n transform = refl
assignments-Shown parse_json n subflow = refl
assignments-Shown parse_json n terminate = refl

has-merge_hidden :
    (k : String) (p o : Fields) → has k p ≡ false → has k o ≡ false → has k (merge o p) ≡ false
unfolding has merge
has-merge_hidden k no_fields o h absent = absent
has-merge_hidden k (field j v p) o h absent =
    has-merge_hidden k p (put j v o) (ground arith) (rw (has-put j k v o) (ground arith))

-- No object in the extra text has the key.
unfoldable pub IsNotInExtra : (String → Option Value) → String → Value → Type 0
IsNotInExtra parse_json k v =
    (s : String) (p : Fields) → v ≡ str s → parse_json (trim s) ≡ some (obj p) → has k p ≡ false

has-assign_extra :
    (parse_json : String → Option Value) (k : String) (v : Value) (o : Fields)
    → IsNotInExtra parse_json k v
    → has k o ≡ false
    → has k (assign_extra parse_json v o) ≡ false
unfolding assign_extra IsNotInExtra parse_json_like
has-assign_extra parse_json k undefined o extra absent = absent
has-assign_extra parse_json k null o extra absent = absent
has-assign_extra parse_json k (bool b) o extra absent = absent
has-assign_extra parse_json k (num n) o extra absent = absent
has-assign_extra parse_json k (obj p) o extra absent = absent
has-assign_extra parse_json k (arr vs) o extra absent = absent
has-assign_extra parse_json k (str s) o extra absent = elim (Bool-cases (is_blank s)) [
  | inl blank ↦ rw blank absent
  | inr text ↦ rw text (on_parse (parse_json (trim s)) refl)
]
  where
    on_parse :
        (r : Option Value)
        → parse_json (trim s) ≡ r
        → has k (assign_object (parsed_or r (str s)) o) ≡ false
    on_parse none e = absent
    on_parse (some undefined) e = absent
    on_parse (some null) e = absent
    on_parse (some (bool b)) e = absent
    on_parse (some (num n)) e = absent
    on_parse (some (str t)) e = absent
    on_parse (some (arr vs)) e = absent
    on_parse (some (obj p)) e = has-merge_hidden k p o (extra s p refl e) absent

has-put_steps :
    (k : String) (kind : BuilderNodeKind) (v : Value) (o : Fields)
    → is_ui_only k ≡ true
    → has k o ≡ false
    → has k (put_steps kind v o) ≡ false
unfolding put_steps
has-put_steps k sequence v o h absent = elim (Bool-cases (is_filled_array v)) [
  | inl filled ↦ rw filled (has-put_hidden k "steps" v o h refl absent)
  | inr empty ↦ rw empty absent
]
has-put_steps k _ v o h absent = absent

has-put_some :
    (k j : String) (s : Option String) (o : Fields)
    → is_ui_only k ≡ true
    → is_ui_only j ≡ false
    → has k o ≡ false
    → has k (put_some j s o) ≡ false
unfolding put_some
has-put_some k j none o h g absent = absent
has-put_some k j (some s) o h g absent = has-put_hidden k j (str s) o h g absent

has-put_fallback :
    (k : String) (n : BuilderNodeDraft) (o : Fields)
    → is_ui_only k ≡ true
    → has k o ≡ false
    → has k (put_fallback n o) ≡ false
unfolding put_fallback
has-put_fallback k n o h absent =
    elim (Bool-cases (has_fallback n.kind && not (truthy (get "next_node" o)))) [
      | inl fills ↦
          rw fills
            (has-put_some k "next_node" (first_target n.transitions ("next" ∷ [])) o h refl absent)
      | inr keeps ↦ rw keeps absent
    ]

-- A key that only the editor uses, and that no object in the node's extra text has, is no key of the
-- exported node, whatever its kind, configuration and transitions are.
pub export_node-hides :
    (parse_json : String → Option Value) (n : BuilderNodeDraft) (k : String)
    → is_ui_only k ≡ true
    → IsNotInExtra parse_json k (get "extraJsonText" n.config)
    → has k (export_node parse_json n) ≡ false
unfolding export_node build_base_node head_fields shown has put
export_node-hides parse_json n k h extra = has-put_fallback k n _ h (
    has-put_steps k n.kind (get "steps" n.config) _ h (
      has-put_all k (assignments parse_json n.kind n) _ h (assignments-Shown parse_json n n.kind) (
        has-assign_extra parse_json k (get "extraJsonText" n.config) _ extra (
          has-copy_config parse_json k _ n.config h (
            has-put_all k _ _ h refl
              (has-put_hidden k "type" (str (kind_name n.kind)) no_fields h refl refl))))))
