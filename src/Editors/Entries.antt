-- ===== src/Editors/Entries.antt =====
-- Renaming a key of an object, or giving it another value.
use lang_orch.Base.{
  String, true, false, not, ◌&&◌, Option, if◌then◌else◌, ◌==◌, ◌≡◌, refl, ap, arith, eq_iff, Number,
  Value, undefined, Fields, no_fields, field, get, has, has_once, put, get-put,
}
use lang_orch.Editors.{copy_but, target_key, parse_loose_value, update_object_entry}

get-copy_but :
    (previous j : String) (o next : Fields)
    → has_once o ≡ true
    → get j (copy_but previous o next)
      ≡ (if has j o && not (j == previous) then get j o else get j next)
unfolding copy_but get has has_once
get-copy_but previous j no_fields next h = refl
get-copy_but previous j (field k v o) next h = ground (
  arith,
  eq_iff k j,
  eq_iff k previous,
  eq_iff j previous,
  get-copy_but previous j o (if k == previous then next else put k v next),
  get-put k j v next,
)

get-absent : (j : String) (o : Fields) → has j o ≡ false → get j o ≡ undefined
unfolding get has
get-absent j no_fields h = refl
get-absent j (field k v o) h = ground (arith, get-absent j o)

kept :
    (previous j : String) (o : Fields)
    → (if has j o && not (j == previous) then get j o else get j no_fields)
      ≡ (if j == previous then undefined else get j o)
unfolding get
kept previous j o = ground (arith, get-absent j o)

-- In an object whose keys are unique, the entry that is edited stands under the new key, trimmed, or
-- under its old key where the new one is blank; nothing stands under the old key where the two
-- differ, and each other key has the value it had.
pub get-update_object_entry :
    (parse_json : String → Option Value) (parse_number : String → Number) (o : Fields)
    (previous next value j : String)
    → has_once o ≡ true
    → get j (update_object_entry parse_json parse_number o previous next value) ≡ (
        if target_key previous next == j
        then parse_loose_value parse_json parse_number value
        else if j == previous
        then undefined
        else get j o)
unfolding update_object_entry
get-update_object_entry parse_json parse_number o previous next value j h =
    rw
      (get-put (target_key previous next) j (parse_loose_value parse_json parse_number value)
        (copy_but previous o no_fields))
      (rw (get-copy_but previous j o no_fields h) (
        ap
          (λ (r : Value).
            if target_key previous next == j
            then parse_loose_value parse_json parse_number value
            else r)
          (kept previous j o)))
