-- ===== src/Client.antt =====
-- The calls of the backend: frontend/src/lib/api.ts. A call is described here as data; Client/Request has
-- `request`, which sends it, and the other modules the exported functions, grouped as in the source.
-- A template literal is the list of its parts between the slashes, and `encode` is encodeURIComponent.
pub mod Request
pub mod Procedures
pub mod Runs
pub mod Resources
pub mod Cases
pub mod Webhooks
pub mod Operations
pub mod Accounts
pub mod Steps
pub mod Support
pub mod Limits
pub mod Urls
pub mod Codecs
pub mod Reading
pub mod Routes
pub mod Handlers
pub mod Parts
pub mod Forwarding
pub mod Silence
pub mod Surface
pub mod Delivery
mod Tests
use Prim.Native.String.{[]}
use lang_orch.Base.{
  String, Bool, true, false, Option, none, some, List, [], ◌∷◌, if◌then◌else◌, ◌<>◌, is_empty, ℤ,
  finite, Value, num, to_text, set,
}

-- `/text`, `/${id}` and `/${encodeURIComponent(id)}`
pub data Part : Type 0 where
  fixed : String → Part
  raw : String → Part
  encoded : String → Part

abbrev pub Query : Type 0
Query = List (String × String)

-- What follows the path: nothing, `?${qs}` where `qs` is not empty, or `?key=` and a part.
pub data Search : Type 0 where
  nothing : Search
  params : Query → Search
  single : (key : String) → Part → Search

pub data Method : Type 0 where
  -- `init` names no method.
  unnamed : Method
  post put patch delete : Method

pub record Call : Type 0 where
  pub method : Method
  pub path : List Part
  pub search : Search
  -- What `JSON.stringify` is applied to.
  pub body : Option Value

abbrev pub get_call : List Part → Search → Call
get_call path search = record { method = unnamed; path = path; search = search; body = none }

abbrev pub send_call : Method → List Part → Value → Call
send_call method path body = record {
  method = method;
  path = path;
  search = nothing;
  body = some body;
}

abbrev pub bare_call : Method → List Part → Search → Call
bare_call method path search = record { method = method; path = path; search = search; body = none }

-- `if (value) q.set(key, value)` passes an empty text over.
abbrev pub truthy_text : Option String → Option String
truthy_text none = none
truthy_text (some s) = if is_empty s then none else some s

-- `String(value)` for a number and for a Boolean
abbrev pub number_text : Option ℤ → Option String
number_text none = none
number_text (some n) = some (to_text (num (finite n)))

abbrev pub flag_text : Option Bool → Option String
flag_text none = none
flag_text (some true) = some "true"
flag_text (some false) = some "false"

-- `if (value !== undefined) q.set(key, value)`, for each entry in order
pub set_all : List (String × Option String) → Query → Query
set_all [] q = q
set_all ((k, none) ∷ entries) q = set_all entries q
set_all ((k, some s) ∷ entries) q = set_all entries (set k s q)

unfoldable pub query_of : List (String × Option String) → Query
unfolding set_all
query_of entries = set_all entries []

abbrev pub with_params : List (String × Option String) → Search
with_params entries = params (query_of entries)
