-- ===== src/Access.antt =====
-- Who may do what: the roles of frontend/src/lib/auth.ts and the redirection of frontend/src/proxy.ts.
-- Decoding from base 64 and `JSON.parse` are the parameters `decode_atob` in the browser and
-- `decode_buffer` in the proxy (`none` where one of them throws), the number that a text reads as is
-- `parse_number`, and `now` is the time in milliseconds where the code runs.
mod Tests
pub mod Laws
use Prim.Native.Char.{Char, code}
use Prim.Native.String.{[], ◌∷◌}
use mathlib.Core.Option
use lang_orch.Base.{
  ◌*◌, ◌>>=◌, eqb, ltb, split_on, Value, undefined, null, obj, get, Number, finite, infinity, nan,
  pos, negsuc, to_number, ℕ, zero, suc, String, Bool, true, false, not, ◌&&◌, ◌||◌, Option, none,
  some, get_or, List, [], ◌∷◌, any, if◌then◌else◌, leb, ◌==◌, ◌<>◌, is_empty, ℤ, ltb_ℤ, starts_with,
}

-- In ascending order of privilege.
unfoldable pub roles : List String
roles = "viewer" ∷ "approver" ∷ "operator" ∷ "manager" ∷ "admin" ∷ []

-- `list.indexOf(item)`, where it is not -1
unfoldable pub index_of : String → List String → Option ℕ
index_of r [] = none
index_of r (s ∷ ss) =
    let later = index_of r ss in
    if s == r then some 0 else elim later [ none ↦ none | some i ↦ some (suc i) ]

-- `idx >= roleIdx`
abbrev pub reaches : ℕ → Option ℕ → Bool
reaches least none = false
reaches least (some i) = leb least i

-- The roles of a user that is missing are the empty list.
unfoldable pub has_role : List String → String → Bool
unfolding index_of roles
has_role held required = elim (index_of required roles) [
  | none ↦ any (λ r. r == required) held
  | some least ↦ any (λ r. reaches least (index_of r roles)) held
]

unfoldable pub public_paths : List String
public_paths = "/login" ∷ "/api/auth/login" ∷ "/api/health" ∷ []

unfoldable pub is_public : String → Bool
unfolding public_paths
is_public path = any (λ p. path == p || starts_with path (p <> "/")) public_paths

pub data Response : Type 0 where
  next : Response
  -- the login page, with the path to come back to
  login : (from : String) → Response

-- `pathname.includes(".")`
unfoldable pub has_dot : String → Bool
has_dot [] = false
has_dot (c ∷ s) = eqb (code c) 46 || has_dot s

-- The paths that are let through without a look at the token.
unfoldable pub passes : String → Bool
unfolding is_public has_dot
passes path =
    is_public path
    || starts_with path "/_next"
    || starts_with path "/favicon"
    || starts_with path "/api/"
    || has_dot path

-- `replace(/-/g, "+").replace(/_/g, "/")`
abbrev url_char : Char → Char
url_char c = if eqb (code c) 45 then "+" else if eqb (code c) 95 then "/" else c

unfoldable pub from_url_safe : String → String
from_url_safe [] = []
from_url_safe (c ∷ s) = url_char c ∷ from_url_safe s

abbrev second : List String → Option String
second (s ∷ t ∷ ts) = some t
second ss = none

-- `payload.exp`, which throws for `null`
abbrev exp_of : Value → Option Value
exp_of null = none
exp_of undefined = none
exp_of (obj o) = some (get "exp" o)
exp_of v = some undefined

-- `exp < now / 1000`
abbrev pub is_before : Number → ℕ → Bool
is_before (finite (pos n)) now = ltb (n * 1000) now
is_before (finite (negsuc n)) now = true
is_before (infinity positive) now = not positive
is_before nan now = false

-- `exp > now / 1000`
abbrev pub is_after : Number → ℕ → Bool
is_after (finite (pos n)) now = ltb now (n * 1000)
is_after (finite (negsuc n)) now = false
is_after (infinity positive) now = positive
is_after nan now = false

-- auth.ts: the payload is `JSON.parse(atob(…))`, and the token the one in the browser's storage. A
-- missing token and an empty one are alike.
module _ (decode_atob : String → Option Value) (parse_number : String → Number) (now : ℕ) where
  unfoldable pub is_authenticated : Option String → Bool
  unfolding from_url_safe
  is_authenticated none = false
  is_authenticated (some token) =
      if is_empty token
      then false
      else get_or
          (do
            payload_b64 ← second (split_on 46 token)
            payload ← decode_atob (from_url_safe payload_b64)
            exp ← exp_of payload
            some (is_after (to_number parse_number exp) now))
          false

-- proxy.ts: the payload is `JSON.parse(Buffer.from(…, "base64").toString())`, and the token the one in
-- the cookie.
module _ (decode_buffer : String → Option Value) (parse_number : String → Number) (now : ℕ) where
  unfoldable pub is_token_expired : String → Bool
  unfolding from_url_safe
  is_token_expired token =
      get_or
        (do
          payload_b64 ← second (split_on 46 token)
          payload ← decode_buffer (from_url_safe payload_b64)
          exp ← exp_of payload
          some (is_before (to_number parse_number exp) now))
        true

  abbrev pub has_expired : Option String → Bool
  unfolding is_token_expired
  has_expired none = false
  has_expired (some token) = not (is_empty token) && is_token_expired token

  unfoldable pub proxy : Option String → String → Response
  unfolding passes is_token_expired
  proxy cookie path = if passes path then next else if has_expired cookie then login path else next
