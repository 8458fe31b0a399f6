-- ===== src/Gateway.antt =====
-- The route that forwards requests to the backend: frontend/src/app/api/[...path]/route.ts.
-- The platform is a parameter: `encode` (encodeURIComponent), `fetch`, and `construct`, the constructor of a
-- response, which throws for some statuses. Header names are in lower case, as `Headers` keeps them.
pub mod Laws
mod Tests
use Prim.Native.Char.{code}
use Prim.Native.String.{[], ◌∷◌}
use lang_orch.Base.{
  ℕ, String, Bool, true, false, not, ◌&&◌, ◌||◌, Option, none, some, List, [], ◌∷◌, ◌++◌, map, any,
  keep, if◌then◌else◌, ◌==◌, ◌<>◌, is_empty, eqb,
}

-- `Error` with its message and, where the cause is an `Error` too, the message of the cause.
pub data Thrown : Type 0 where
  no_error other : Thrown
  error : (message : String) → (cause : Option String) → Thrown

pub data Outcome {ℓ} (A : Type ℓ) : Type ℓ where
  answered : A → Outcome A
  failed : Thrown → Outcome A

abbrev pub Headers : Type 0
Headers = List (String × String)

pub record Request : Type 0 where
  pub method : String
  pub headers : Headers
  pub body : String
  pub path : List String
  pub search : String

pub record Response : Type 0 where
  pub status : ℕ
  pub status_text : String
  pub headers : Headers
  pub body : String

pub record Environment : Type 0 where
  pub backend_url : Option String
  pub next_public_backend_url : Option String
  pub is_development : Bool

-- `value.replace(/\/$/, "")`
pub strip_slash : String → String
strip_slash [] = []
strip_slash (c ∷ s) =
    let rest = strip_slash s in if eqb (code c) 47 && is_empty s then [] else c ∷ rest

abbrev truthy_url : Option String → List String
truthy_url none = []
truthy_url (some s) = if is_empty s then [] else s ∷ []

-- `[...new Set(values)]`
unfoldable pub distinct : List String → List String
distinct [] = []
distinct (s ∷ ss) = s ∷ keep (λ t. not (t == s)) (distinct ss)

abbrev pub dev_fallback_backend_urls : List String
dev_fallback_backend_urls =
    "http://localhost:8000" ∷ "http://127.0.0.1:8000" ∷ "http://localhost:8010"
    ∷ "http://127.0.0.1:8010" ∷ []

abbrev or_default : List String → List String
or_default [] = "http://localhost:8000" ∷ []
or_default (s ∷ ss) = s ∷ ss

unfoldable pub configured : Environment → List String
unfolding strip_slash
configured e = map strip_slash (truthy_url e.backend_url ++ truthy_url e.next_public_backend_url)

unfoldable pub get_backend_candidates : Environment → List String
unfolding configured distinct
get_backend_candidates e =
    if e.is_development
    then distinct (configured e ++ dev_fallback_backend_urls)
    else or_default (configured e)

unfoldable pub join_path : (String → String) → List String → String
join_path encode [] = ""
join_path encode (p ∷ ps) = elim ps [
  | [] ↦ encode p
  | q ∷ qs ↦ encode p <> "/" <> join_path encode ps
]

unfoldable pub build_upstream_url : (String → String) → String → List String → String → String
unfolding join_path
build_upstream_url encode base_url path search =
    base_url <> "/api/" <> join_path encode path <> search

abbrev pub without : List String → Headers → Headers
without names hs = keep (λ (h : String × String). not (any (λ n. n == h.0) names)) hs

abbrev pub hop_by_hop : List String
hop_by_hop =
    "host" ∷ "connection" ∷ "content-length" ∷ "expect" ∷ "keep-alive" ∷ "proxy-authenticate"
    ∷ "proxy-authorization" ∷ "te" ∷ "trailer" ∷ "upgrade" ∷ []

unfoldable pub filter_request_headers : Headers → Headers
filter_request_headers hs = without hop_by_hop hs

unfoldable pub filter_response_headers : Headers → Headers
filter_response_headers hs =
    without ("content-length" ∷ "content-encoding" ∷ "transfer-encoding" ∷ []) hs

abbrev pub unreachable : String
unreachable = "Unable to reach backend service"

abbrev or_unreachable : String → String
or_unreachable message = if is_empty message then unreachable else message

unfoldable pub format_proxy_error : Thrown → String
format_proxy_error no_error = unreachable
format_proxy_error other = unreachable
format_proxy_error (error message none) = or_unreachable message
format_proxy_error (error message (some cause)) =
    if is_empty cause then or_unreachable message else message <> ": " <> cause

-- A body is read for every method but GET and HEAD.
abbrev pub request_body : Request → Option String
request_body r = if r.method == "GET" || r.method == "HEAD" then none else some r.body

module _ (encode : String → String)
    (fetch : (url method : String) → Headers → Option String → Outcome Response)
    (construct : Response → Outcome Response) where
  abbrev pub forwarded : Outcome Response → Outcome Response
  forwarded (failed e) = failed e
  forwarded (answered r) = construct (record r { headers = filter_response_headers r.headers })

  -- One round of the loop.
  unfoldable pub attempt : Request → String → Outcome Response
  attempt r candidate = forwarded (
      fetch (build_upstream_url encode candidate r.path r.search) r.method
        (filter_request_headers r.headers) (request_body r))

  -- The body is the `detail` of the object that is sent.
  abbrev pub bad_gateway : Thrown → Response
  bad_gateway last_error = record {
    status = 502;
    status_text = "";
    headers = [];
    body = format_proxy_error last_error;
  }

  unfoldable pub try_candidates : Request → List String → Thrown → Response
  try_candidates r [] last_error = bad_gateway last_error
  try_candidates r (c ∷ cs) last_error = elim (attempt r c) [
    | answered response ↦ response
    | failed e ↦ try_candidates r cs e
  ]

  -- The method of a request is in upper case already.
  unfoldable pub proxy_request : Environment → Request → Response
  unfolding try_candidates
  proxy_request e r = try_candidates r (get_backend_candidates e) no_error
