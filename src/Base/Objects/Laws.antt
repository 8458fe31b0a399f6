-- ===== src/Base/Objects/Laws.antt =====
-- What the operations on the fields of an object do to each key.
use Prim.Native.String.{String}
use mathlib.Core.Path.{◌≡◌, refl}
use mathlib.Core.Bool.{Bool, true, false, not, ◌&&◌, ◌||◌}
use native.Mathlib.Omega.{arith}
use text.Mathlib.TextEquality.{eq_iff}
use lang_orch.Base.Tests.{if◌then◌else◌}
use lang_orch.Base.Text.{◌==◌}
use lang_orch.Base.Objects.{
  Value, undefined, Fields, no_fields, field, get, has, put, merge, remove, has_once,
}

pub get-put :
    (k j : String) (v : Value) (o : Fields) → get j (put k v o) ≡ (if k == j then v else get j o)
unfolding get put
get-put k j v no_fields = refl
get-put k j v (field i w o) = ground (arith, eq_iff k j, eq_iff i k, eq_iff i j, get-put k j v o)

pub has-put : (k j : String) (v : Value) (o : Fields) → has j (put k v o) ≡ (k == j || has j o)
unfolding has put
has-put k j v no_fields = refl
has-put k j v (field i w o) = ground (arith, eq_iff k j, eq_iff i k, eq_iff i j, has-put k j v o)

pub get-remove :
    (k j : String) (o : Fields) → get j (remove k o) ≡ (if k == j then undefined else get j o)
unfolding get remove
get-remove k j no_fields = ground arith
get-remove k j (field i w o) = ground (arith, eq_iff k j, eq_iff i k, eq_iff i j, get-remove k j o)

pub get-eq-undefined : (k : String) (o : Fields) → has k o ≡ false → get k o ≡ undefined
unfolding get has
get-eq-undefined k no_fields h = refl
get-eq-undefined k (field i w o) h = ground (arith, get-eq-undefined k o)

-- A key of the right-hand object without repeated keys wins, any other keeps its value.
pub get-merge_absent : (k : String) (o p : Fields) → has k p ≡ false → get k (merge o p) ≡ get k o
unfolding has merge
get-merge_absent k o no_fields h = refl
get-merge_absent k o (field i w p) h =
    ground (arith, get-merge_absent k (put i w o) p, get-put i k w o)

both_true : (a b : Bool) → (not a && b) ≡ true → (a ≡ false) × (b ≡ true)
both_true a b h = ground arith

pub get-merge :
    (k : String) (o p : Fields)
    → has_once p ≡ true
    → get k (merge o p) ≡ (if has k p then get k p else get k o)
unfolding get has merge has_once
get-merge k o no_fields h = refl
get-merge k o (field i w p) h =
    let b = both_true (has i p) (has_once p) h in
    ground (arith, eq_iff i k, get-merge k (put i w o) p b.1, get-put i k w o, b.0)
