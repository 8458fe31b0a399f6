-- ===== src/Access/Tests.antt =====
-- Roles and requests at concrete values.
use lang_orch.Base.{
  [], ◌∷◌, true, arith, String, Option, none, some, pos, Number, nan, finite, num, Value, obj,
  no_fields, field, get, ◌≡◌, refl, split_on, to_number,
}
use lang_orch.Access.{
  next, login, roles, index_of, has_role, is_token_expired, is_authenticated, from_url_safe, proxy,
}
use lang_orch.Access.Laws.{has_role_mono}

abbrev no_numbers : String → Number
no_numbers s = nan

-- Every token expires after two seconds.
abbrev two_seconds : String → Option Value
two_seconds s = some (obj (field "exp" (num (finite (pos 2))) no_fields))

-- A manager may do what an operator may.
has_role_mono_example : has_role ("guest" ∷ "manager" ∷ []) "operator" ≡ true
unfolding has_role index_of roles
has_role_mono_example =
    has_role_mono ("guest" ∷ "manager" ∷ []) "operator" "manager" 2 3 refl refl (omega arith) refl

valid_token : is_authenticated two_seconds no_numbers 1500 (some "a.b-c.d") ≡ true
unfolding is_authenticated split_on from_url_safe get to_number
valid_token = refl

early_request : proxy two_seconds no_numbers 1500 (some "a.b-c.d") "/runs" ≡ next
unfolding proxy is_token_expired split_on from_url_safe get to_number
early_request = refl

late_request : proxy two_seconds no_numbers 2500 (some "a.b-c.d") "/runs" ≡ login "/runs"
unfolding proxy is_token_expired split_on from_url_safe get to_number
late_request = refl

-- A request without a token is let through.
no_token : proxy two_seconds no_numbers 2500 none "/runs" ≡ next
unfolding proxy
no_token = refl
