-- ===== src/Redact/Clean.antt =====
-- What a redacted value still shows: frontend/src/lib/redact.ts.
use lang_orch.Base.{
  ℕ, zero, suc, ◌+◌, ◌≤◌, String, Bool, true, false, ◌&&◌, if◌then◌else◌, ltb, ◌==◌, ◌≡◌, refl,
  arith, ap, ◌∙◌, Bool-cases, inl, inr, eq_iff, Value, undefined, null, bool, num, str, arr, obj,
  Fields, no_fields, field, Elements, no_elements, element,
}
use lang_orch.Redact.{
  is_hidden, redaction_placeholder, redact_for_display, redact_items, redact_fields,
}

abbrev is_placeholder : Value → Bool
is_placeholder (str s) = s == redaction_placeholder
is_placeholder v = false

module _ (extra : String → Bool) where
  -- Down to a number of levels, every hidden key holds the placeholder.
  unfoldable mutual
    pub clean : ℕ → Value → Bool
    clean zero v = true
    clean (suc n) (obj o) = clean_fields n o
    clean (suc n) (arr vs) = clean_items n vs
    clean (suc n) v = true

    pub clean_fields : ℕ → Fields → Bool
    clean_fields n no_fields = true
    clean_fields n (field k v o) =
        let below = clean n v in
        (if is_hidden extra k then is_placeholder v else below) && clean_fields n o

    pub clean_items : ℕ → Elements → Bool
    clean_items n no_elements = true
    clean_items n (element v vs) = clean n v && clean_items n vs

  shallow : (n d : ℕ) → suc n + d ≤ 11 → ltb 10 d ≡ false
  shallow n d le = ground arith

  clean_fields-field :
      (n : ℕ) (k : String) (v : Value) (o : Fields)
      → clean_fields n (field k v o)
        ≡ ((if is_hidden extra k then is_placeholder v else clean n v) && clean_fields n o)
  unfolding clean
  clean_fields-field n k v o = refl

  field-clean :
      (n : ℕ) (k : String) (v : Value) (o : Fields)
      → clean n v ≡ true
      → clean_fields n o ≡ true
      → clean_fields n (field k (if is_hidden extra k then str redaction_placeholder else v) o)
        ≡ true
  field-clean n k v o h g =
      clean_fields-field n k (if is_hidden extra k then str redaction_placeholder else v) o
      ∙ elim (Bool-cases (is_hidden extra k)) [
        | inl hides ↦ rw (hides, (eq_iff redaction_placeholder redaction_placeholder).1 refl) g
        | inr shows ↦ rw (shows, h) g
      ]

  mutual
    unfolding clean redact_for_display redaction_placeholder

    clean-redact :
        (n d : ℕ) (v : Value) → n + d ≤ 11 → clean n (redact_for_display extra d v) ≡ true
    clean-redact zero d v le = refl
    clean-redact (suc n) d undefined le = refl
    clean-redact (suc n) d null le = refl
    clean-redact (suc n) d (bool b) le = refl
    clean-redact (suc n) d (num m) le = refl
    clean-redact (suc n) d (str s) le = refl
    clean-redact (suc n) d (arr vs) le =
        rw (shallow n d le) (clean-redact_items n (d + 1) vs (omega arith))
    clean-redact (suc n) d (obj o) le =
        rw (shallow n d le) (clean-redact_fields n (d + 1) o (omega arith))

    clean-redact_items :
        (n d : ℕ) (vs : Elements) → n + d ≤ 11 → clean_items n (redact_items extra d vs) ≡ true
    clean-redact_items n d no_elements le = refl
    clean-redact_items n d (element v vs) le =
        rw (clean-redact n d v le) (clean-redact_items n d vs le)

    clean-redact_fields :
        (n d : ℕ) (o : Fields) → n + d ≤ 11 → clean_fields n (redact_fields extra d o) ≡ true
    clean-redact_fields n d no_fields le = refl
    clean-redact_fields n d (field k v o) le =
        field-clean n k (redact_for_display extra d v) (redact_fields extra d o)
          (clean-redact n d v le) (clean-redact_fields n d o le)

  -- In what is displayed, every key that a pattern matches holds the placeholder, down to eleven levels of
  -- objects and arrays.
  pub redact_for_display-clean : (v : Value) → clean 11 (redact_for_display extra 0 v) ≡ true
  redact_for_display-clean v = clean-redact 11 0 v (omega arith)

  deep_array :
      (d : ℕ) (vs : Elements) → ltb 10 d ≡ true → redact_for_display extra d (arr vs) ≡ arr vs
  unfolding redact_for_display
  deep_array d vs deep = rw deep refl

  near_array :
      (d : ℕ) (vs : Elements)
      → ltb 10 d ≡ false
      → redact_for_display extra d (arr vs) ≡ arr (redact_items extra (d + 1) vs)
  unfolding redact_for_display
  near_array d vs near = rw near refl

  array_again :
      (d : ℕ) (vs ws : Elements)
      → redact_items extra (d + 1) ws ≡ ws
      → redact_for_display extra d (if ltb 10 d then arr vs else arr ws)
        ≡ (if ltb 10 d then arr vs else arr ws)
  array_again d vs ws e = elim (Bool-cases (ltb 10 d)) [
    | inl deep ↦ rw deep (deep_array d vs deep)
    | inr near ↦ rw near (near_array d ws near ∙ ap arr e)
  ]

  deep_object :
      (d : ℕ) (vs : Fields) → ltb 10 d ≡ true → redact_for_display extra d (obj vs) ≡ obj vs
  unfolding redact_for_display
  deep_object d vs deep = rw deep refl

  near_object :
      (d : ℕ) (vs : Fields)
      → ltb 10 d ≡ false
      → redact_for_display extra d (obj vs) ≡ obj (redact_fields extra (d + 1) vs)
  unfolding redact_for_display
  near_object d vs near = rw near refl

  object_again :
      (d : ℕ) (o p : Fields)
      → redact_fields extra (d + 1) p ≡ p
      → redact_for_display extra d (if ltb 10 d then obj o else obj p)
        ≡ (if ltb 10 d then obj o else obj p)
  object_again d o p e = elim (Bool-cases (ltb 10 d)) [
    | inl deep ↦ rw deep (deep_object d o deep)
    | inr near ↦ rw near (near_object d p near ∙ ap obj e)
  ]

  field_again :
      (d : ℕ) (k : String) (v : Value) (o : Fields)
      → redact_for_display extra d v ≡ v
      → redact_fields extra d o ≡ o
      → redact_fields extra d
          (field k (if is_hidden extra k then str redaction_placeholder else v) o)
        ≡ field k (if is_hidden extra k then str redaction_placeholder else v) o
  unfolding redact_for_display
  field_again d k v o h g = elim (Bool-cases (is_hidden extra k)) [
    | inl hides ↦ rw hides (ap (field k (str redaction_placeholder)) g)
    | inr shows ↦ rw shows (cc (h, g))
  ]

  mutual
    unfolding redact_for_display

    redact-redact :
        (d : ℕ) (v : Value)
        → redact_for_display extra d (redact_for_display extra d v) ≡ redact_for_display extra d v
    redact-redact d undefined = refl
    redact-redact d null = refl
    redact-redact d (bool b) = refl
    redact-redact d (num m) = refl
    redact-redact d (str s) = refl
    redact-redact d (arr vs) =
        array_again d vs (redact_items extra (d + 1) vs) (redact-redact_items (d + 1) vs)
    redact-redact d (obj o) =
        object_again d o (redact_fields extra (d + 1) o) (redact-redact_fields (d + 1) o)

    redact-redact_items :
        (d : ℕ) (vs : Elements)
        → redact_items extra d (redact_items extra d vs) ≡ redact_items extra d vs
    redact-redact_items d no_elements = refl
    redact-redact_items d (element v vs) = cc (redact-redact d v, redact-redact_items d vs)

    redact-redact_fields :
        (d : ℕ) (o : Fields)
        → redact_fields extra d (redact_fields extra d o) ≡ redact_fields extra d o
    redact-redact_fields d no_fields = refl
    redact-redact_fields d (field k v o) =
        field_again d k (redact_for_display extra d v) (redact_fields extra d o) (redact-redact d v)
          (redact-redact_fields d o)

  -- Redacting what is redacted already changes nothing.
  pub redact_for_display_idem :
      (v : Value)
      → redact_for_display extra 0 (redact_for_display extra 0 v) ≡ redact_for_display extra 0 v
  redact_for_display_idem v = redact-redact 0 v
