-- ===== src/Inspector/Laws.antt =====
-- Reading what was written, and what a check accepts: frontend/src/builder-v2/inspector/editor-schema.ts.
use lang_orch.Base.{
  any, arith, String, Bool, true, false, ◌&&◌, ◌||◌, Option, some, or_else, List, [], ◌∷◌,
  if◌then◌else◌, ◌==◌, ◌<>◌, ◌≡◌, refl, eq_iff, ◌∙◌, is_some, Bool-cases, inl, inr, Number, Value,
  Fields, no_fields, field, get, has, put, merge, get-put, has-put,
}
use lang_orch.Inspector.{
  BuilderNodeEditorValidationRule, is_undefined, read_config_value, create_config_patch,
  with_entries, reject_if, is_missing, too_small, too_few_items, is_empty_object, min_text,
  min_items_text, check_rule, validate_control_value,
}

has-with_entries :
    (j : String) (v : Value) (ks : List String) (o : Fields)
    → has j (with_entries v ks o) ≡ (any (λ k. k == j) ks || has j o)
unfolding with_entries
has-with_entries j v [] o = refl
has-with_entries j v (k ∷ ks) o =
    has-with_entries j v ks (put k v o) ∙ rw (has-put k j v o) (ground (arith, eq_iff k j))

pub has-create_config_patch :
    (j : String) (ks : List String) (v : Value)
    → has j (create_config_patch ks v) ≡ any (λ k. k == j) ks
unfolding create_config_patch has
has-create_config_patch j ks v = has-with_entries j v ks no_fields ∙ ground arith

first_of_four :
    (a b c d : Bool) (m : Option String) (s t u w : String)
    → is_some (
        or_else
          (reject_if a m s)
          (or_else (reject_if b m t) (or_else (reject_if c m u) (reject_if d m w))))
      ≡ (a || (b || (c || d)))
unfolding reject_if
first_of_four true b c d m s t u w = refl
first_of_four false true c d m s t u w = refl
first_of_four false false true d m s t u w = refl
first_of_four false false false true m s t u w = refl
first_of_four false false false false m s t u w = refl

-- A control's value is rejected just where its rule has a test that fails.
pub validate_control_value-rejects :
    (parse_number : String → Number) (label : String) (r : BuilderNodeEditorValidationRule)
    (v : Value)
    → is_some
        (validate_control_value parse_number (record { label = label; validation = some r }) v)
      ≡ (r.required && is_missing v
          || (too_small parse_number r v
              || (too_few_items parse_number r v || r.non_empty_object && is_empty_object v)))
unfolding validate_control_value check_rule
validate_control_value-rejects parse_number label r v =
    first_of_four (r.required && is_missing v) (too_small parse_number r v)
      (too_few_items parse_number r v) (r.non_empty_object && is_empty_object v) r.message
      (label <> " is required.") (label <> " must be at least " <> min_text r.min <> ".")
      (label <> " must include at least " <> min_items_text r.min_items <> " item(s).")
      (label <> " cannot be empty.")

-- All values of an object are one value.
unfoldable pub AllAre : Value → Fields → Type 0
AllAre v no_fields = Unit
AllAre v (field k w o) = (w ≡ v) × AllAre v o

AllAre-put : (v : Value) (k : String) (o : Fields) → AllAre v o → AllAre v (put k v o)
unfolding AllAre put
AllAre-put v k no_fields h = (refl, tt)
AllAre-put v k (field j w o) h = elim (Bool-cases (j == k)) [
  | inl same ↦ rw same (refl, h.1)
  | inr differ ↦ rw differ (h.0, AllAre-put v k o h.1)
]

AllAre-with_entries :
    (v : Value) (ks : List String) (o : Fields) → AllAre v o → AllAre v (with_entries v ks o)
unfolding with_entries
AllAre-with_entries v [] o h = h
AllAre-with_entries v (k ∷ ks) o h = AllAre-with_entries v ks (put k v o) (AllAre-put v k o h)

pub AllAre-create_config_patch :
    (v : Value) (ks : List String) → AllAre v (create_config_patch ks v)
unfolding create_config_patch AllAre
AllAre-create_config_patch v ks = AllAre-with_entries v ks no_fields tt

pub get-merge-AllAre :
    (v : Value) (k : String) (o p : Fields)
    → AllAre v p
    → get k (merge o p) ≡ (if has k p then v else get k o)
unfolding AllAre has merge
get-merge-AllAre v k o no_fields h = refl
get-merge-AllAre v k o (field j w p) h =
    get-merge-AllAre v k (put j w o) p h.1
    ∙ rw (get-put j k w o) (elim (Bool-cases (j == k)) [
      | inl same ↦ rw (same, h.0) (one_value (has k p))
      | inr differ ↦ rw differ refl
    ])
  where
    one_value : (b : Bool) → (if b then v else v) ≡ v
    one_value true = refl
    one_value false = refl

-- After a control with keys writes a value that is not `undefined` to the configuration, it reads the
-- value back, whatever the configuration held under its keys.
pub read_config_value-create_config_patch :
    (config : Fields) (k : String) (ks : List String) (v d : Value)
    → is_undefined v ≡ false
    → read_config_value (merge config (create_config_patch (k ∷ ks) v)) (k ∷ ks) d ≡ v
unfolding read_config_value
read_config_value-create_config_patch config k ks v d defined =
    let written : get k (merge config (create_config_patch (k ∷ ks) v)) ≡ v =
      get-merge-AllAre v k config (create_config_patch (k ∷ ks) v)
        (AllAre-create_config_patch v (k ∷ ks))
      ∙ rw (has-create_config_patch k (k ∷ ks) v, (eq_iff k k).1 refl) refl in
    rw (written, defined) refl
