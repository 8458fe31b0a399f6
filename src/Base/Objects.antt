-- ===== src/Base/Objects.antt =====
-- Values of type `unknown`, objects as ordered fields, and the conversions of the language.
-- A finite number is a whole number; fractions are left out. The key order of an object is the
-- order of insertion (a key that reads as an array index is not moved to the front).
pub mod Laws
use Prim.Native.Nat.{suc}
use Prim.Native.String.{String}
use mathlib.Core.Bool.{Bool, true, false, not, ◌&&◌, ◌||◌}
use mathlib.Core.List.{List, [], ◌∷◌}
use lang_orch.Base.Tests.{if◌then◌else◌, eqb}
use lang_orch.Base.Int.{ℤ, pos, negsuc}
use lang_orch.Base.Text.{◌==◌, ◌<>◌, show, is_empty}

pub data Number : Type 0 where
  finite : ℤ → Number
  infinity : (positive : Bool) → Number
  nan : Number

mutual
  -- What `typeof` and `Array.isArray` tell apart.
  pub data Value : Type 0 where
    undefined null : Value
    str : String → Value
    bool : Bool → Value
    num : Number → Value
    obj : Fields → Value
    arr : Elements → Value

  pub data Fields : Type 0 where
    no_fields : Fields
    field : (key : String) → Value → Fields → Fields

  pub data Elements : Type 0 where
    no_elements : Elements
    element : Value → Elements → Elements

abbrev pub items : List Value → Elements
items [] = no_elements
items (v ∷ vs) = element v (items vs)

abbrev pub elems : Elements → List Value
elems no_elements = []
elems (element v vs) = v ∷ elems vs

-- `o[k]`
unfoldable pub get : String → Fields → Value
get k no_fields = undefined
get k (field j v o) = if j == k then v else get k o

-- `k in o`
unfoldable pub has : String → Fields → Bool
has k no_fields = false
has k (field j v o) = j == k || has k o

-- `o[k] = v`: a key that is there keeps its place.
unfoldable pub put : String → Value → Fields → Fields
put k v no_fields = field k v no_fields
put k v (field j w o) = if j == k then field j v o else field j w (put k v o)

-- `{ ...o, ...p }` and `Object.assign(o, p)`
unfoldable pub merge : Fields → Fields → Fields
merge o no_fields = o
merge o (field k v p) = merge (put k v o) p

-- the rest of a destructuring that names `k`
unfoldable pub remove : String → Fields → Fields
remove k no_fields = no_fields
remove k (field j v o) = if j == k then remove k o else field j v (remove k o)

-- An object has each key once.
unfoldable pub has_once : Fields → Bool
has_once no_fields = true
has_once (field k v o) = not (has k o) && has_once o

abbrev pub keys : Fields → List String
keys no_fields = []
keys (field k v o) = k ∷ keys o

-- `value ?? fallback`: `undefined` and `null` are missing.
abbrev pub nullish : Value → Value → Value
nullish undefined d = d
nullish null d = d
nullish v d = v

-- `if (value)`
abbrev pub truthy_number : Number → Bool
truthy_number (finite (pos n)) = not (eqb n 0)
truthy_number (finite (negsuc n)) = true
truthy_number (infinity s) = true
truthy_number nan = false

abbrev pub truthy : Value → Bool
truthy undefined = false
truthy null = false
truthy (bool b) = b
truthy (num n) = truthy_number n
truthy (str s) = not (is_empty s)
truthy (arr vs) = true
truthy (obj o) = true

-- `Array.isArray(value) && value.length > 0`
abbrev pub is_filled_array : Value → Bool
is_filled_array (arr (element v vs)) = true
is_filled_array _ = false

-- `String(value)`; integers from 1e21 on, which print in another form, are left out.
show_int : ℤ → String
show_int (pos n) = show n
show_int (negsuc n) = "-" <> show (suc n)

unfoldable pub show_number : Number → String
unfolding show_int
show_number (finite n) = show_int n
show_number (infinity true) = "Infinity"
show_number (infinity false) = "-Infinity"
show_number nan = "NaN"

-- In the join of an array, `undefined` and `null` print as nothing.
abbrev item_text : Value → String → String
item_text undefined s = ""
item_text null s = ""
item_text v s = s

unfoldable mutual
  pub to_text : Value → String
  to_text undefined = "undefined"
  to_text null = "null"
  to_text (bool true) = "true"
  to_text (bool false) = "false"
  to_text (num n) = show_number n
  to_text (str s) = s
  to_text (arr vs) = join_items vs
  to_text (obj o) = "[object Object]"

  pub join_items : Elements → String
  join_items no_elements = ""
  join_items (element v vs) = item_text v (to_text v) <> join_more vs

  pub join_more : Elements → String
  join_more no_elements = ""
  join_more (element v vs) = "," <> item_text v (to_text v) <> join_more vs

-- `Number(value)`; the number that a text reads as is a parameter.
unfoldable pub to_number : (String → Number) → Value → Number
to_number parse_number undefined = nan
to_number parse_number null = finite (pos 0)
to_number parse_number (bool true) = finite (pos 1)
to_number parse_number (bool false) = finite (pos 0)
to_number parse_number (num n) = n
to_number parse_number (str s) = parse_number s
to_number parse_number (arr vs) = parse_number (join_items vs)
to_number parse_number (obj o) = nan
