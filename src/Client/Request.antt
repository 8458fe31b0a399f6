-- ===== src/Client/Request.antt =====
-- `request` of frontend/src/lib/api.ts, lines 41 to 97. The platform is a parameter: `encode`, `print_query`
-- (URLSearchParams.toString), `print_json` and `parse_json` (`none` where it throws).
use Prim.Native.String.{[]}
use lang_orch.Base.{
  ℕ, String, Bool, false, not, ◌&&◌, ◌||◌, Option, none, some, List, [], ◌∷◌, if◌then◌else◌, leb,
  eqb, ◌==◌, ◌<>◌, is_empty, Value, undefined, starts_with,
}
use lang_orch.Client.{
  Part, fixed, raw, encoded, Query, Search, nothing, params, single, Method, unnamed, post, put,
  patch, delete, Call,
}

pub record RequestInit : Type 0 where
  pub method : Method
  pub headers : Option (List (String × String))
  pub body : Option String

-- What `fetch` is called with.
pub record Fetch : Type 0 where
  pub url : String
  pub method : String
  pub headers : List (String × String)
  pub body : Option String

pub record Answer : Type 0 where
  pub status : ℕ
  pub content_length : Option String
  pub text : String

pub data Failure : Type 0 where
  api_error : (status : ℕ) → (body : String) → Failure
  -- Any other error: the network's, or that of reading JSON.
  other : Failure

pub data Result {ℓ} (A : Type ℓ) : Type ℓ where
  ok : A → Result A
  err : Failure → Result A

infixl 5 ◌>>=◌
abbrev pub ◌>>=◌ {ℓ κ} : {A : Type ℓ} {B : Type κ} → Result A → (A → Result B) → Result B
ok a >>= f = f a
err e >>= f = err e

abbrev pub is_not_found_error : Failure → Bool
is_not_found_error (api_error status body) = eqb status 404
is_not_found_error other = false

abbrev pub method_name : Method → String
method_name unnamed = "GET"
method_name post = "POST"
method_name put = "PUT"
method_name patch = "PATCH"
method_name delete = "DELETE"

-- An empty token counts as none.
unfoldable pub auth_header : Option String → List (String × String)
auth_header none = []
auth_header (some token) = if is_empty token then [] else ("Authorization", "Bearer " <> token) ∷ []

-- `headers: {...}, ...init`: headers of `init` take the place of all others.
abbrev own_headers :
    Option (List (String × String)) → List (String × String) → List (String × String)
own_headers none hs = hs
own_headers (some own) hs = own

unfoldable pub outgoing : Option String → String → RequestInit → Fetch
unfolding auth_header
outgoing token path init = record {
  url = "/api" <> path;
  method = method_name init.method;
  headers = own_headers init.headers (("Content-Type", "application/json") ∷ auth_header token);
  body = init.body;
}

abbrev pub is_ok : ℕ → Bool
is_ok status = leb 200 status && leb status 299

-- Where the window goes after a response with this status; there is no window on the server.
unfoldable pub location_after : Option String → ℕ → Option String
location_after none status = none
location_after (some path_name) status =
    if eqb status 401 && not (starts_with path_name "/login") then some "/login" else some path_name

abbrev pub is_zero : Option String → Bool
is_zero none = false
is_zero (some length) = length == "0"

abbrev parsed : Option Value → Result Value
parsed none = err other
parsed (some v) = ok v

unfoldable pub read_answer : (String → Option Value) → Answer → Result Value
read_answer parse_json a =
    if not (is_ok a.status)
    then err (api_error a.status a.text)
    else if eqb a.status 204 || is_zero a.content_length
    then ok undefined
    else parsed (parse_json a.text)

abbrev pub part_text : (String → String) → Part → String
part_text encode (fixed s) = s
part_text encode (raw s) = s
part_text encode (encoded s) = encode s

-- The path of a template literal
unfoldable pub path_text : (String → String) → List Part → String
path_text encode [] = ""
path_text encode (p ∷ ps) = "/" <> part_text encode p <> path_text encode ps

module _ (encode : String → String) (print_query : Query → String)
    (print_json : Value → String) where
  -- `qs ? `?${qs}` : ""`
  abbrev pub question : String → String
  question qs = if is_empty qs then "" else "?" <> qs

  abbrev pub search_text : Search → String
  search_text nothing = ""
  search_text (params q) = question (print_query q)
  search_text (single key p) = "?" <> key <> "=" <> part_text encode p

  unfoldable pub target : Call → String
  unfolding path_text
  target c = path_text encode c.path <> search_text c.search

  abbrev body_text : Option Value → Option String
  body_text none = none
  body_text (some v) = some (print_json v)

  abbrev pub init_of : Call → RequestInit
  init_of c = record { method = c.method; headers = none; body = body_text c.body }

  -- The request that a call sends.
  unfoldable pub sent : Option String → Call → Fetch
  unfolding outgoing target
  sent token c = outgoing token (target c) (init_of c)

  module _ (parse_json : String → Option Value) (fetch : Fetch → Option Answer) where
    -- `fetch` gives no answer where it rejects. The window's location is the state.
    unfoldable pub request : Option String → Option String → Call → Option String × Result Value
    unfolding sent location_after read_answer
    request token location c = elim (fetch (sent token c)) [
      | none ↦ (location, err other)
      | some a ↦ (location_after location a.status, read_answer parse_json a)
    ]
