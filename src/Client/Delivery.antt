-- ===== src/Client/Delivery.antt =====
-- What becomes of a call of frontend/src/lib/api.ts on its way: the route of app/api/[...path]/route.ts
-- forwards it, and a handler of the backend answers it.
use lang_orch.Base.{
  String, Bool, true, false, not, Option, some, List, [], ◌∷◌, ◌++◌, map, All, all, ◌<>◌, is_empty,
  ◌≡◌, refl, ap, sym, ◌∙◌, arith, Bool-cases, inl, inr, append_assoc, Value,
}
use mathlib.Core.Path.{subst}
use text.Mathlib.TextLemmas.{append_assoc as text_assoc}
use lang_orch.Client.Parts.{call_of-is_fixed_fine}
use lang_orch.Client.{Part, Query, Search, nothing, params, single}
use lang_orch.Client.Request.{
  method_name, part_text, path_text, search_text, target, sent, outgoing,
}
use lang_orch.Client.Urls.{
  IsCodec, IsFine, is_plain, is_unreserved, joined, ServesDecoded, StartsQuery, parts-IsSegment,
  part_name, no_slash, IsWhole, decode-unreserved, map-decode-parts, no_slash-parts,
}
use lang_orch.Client.Surface.{ApiCall, call_of}
use lang_orch.Client.Routes.{Route, routes, fits, TakesFirst, first_fit}
use lang_orch.Client.Handlers.{handler_of, IsFree}
use lang_orch.Client.Handlers.Runs.{first_fit-procedure, first_fit-run, first_fit-resource}
use lang_orch.Client.Handlers.Cases.{first_fit-case, first_fit-webhook}
use lang_orch.Client.Handlers.Accounts.{first_fit-operation, first_fit-account}

true_of_not : (b : Bool) → b ≡ false → not b ≡ true
true_of_not b h = rw h refl

all-append :
    (p : Route → Bool) (rs : List Route) (r : Route)
    → all p rs ≡ true
    → p r ≡ true
    → all p (rs ++ r ∷ []) ≡ true
all-append p [] r h g = rw g refl
all-append p (s ∷ rs) r h g = ground (arith, all-append p rs r)

module _ (dispatch : List Route → String → List String → Option String)
    (takes : TakesFirst dispatch) where
  dispatch-first_fit :
      (before rs : List Route) (method : String) (path : List String) {handler : String}
      → all (λ b. not (fits b method path)) before ≡ true
      → first_fit rs method path ≡ some handler
      → dispatch (before ++ rs) method path ≡ some handler
  unfolding first_fit
  dispatch-first_fit before [] method path h found = cc
  dispatch-first_fit before (r ∷ rs) method path {handler} h found =
      elim (Bool-cases (fits r method path)) [
        | inl first ↦ takes before rs r method path h first ∙ (rw first at found)
        | inr other ↦
            subst (λ l. dispatch l method path ≡ some handler) (append_assoc before (r ∷ []) rs)
              (dispatch-first_fit (before ++ r ∷ []) rs method path
                (all-append (λ b. not (fits b method path)) before r h (true_of_not _ other))
                (rw other at found))
      ]

pub path_text-joined :
    (encode : String → String) (ps : List Part)
    → path_text encode ps ≡ joined (map (part_text encode) ps)
unfolding path_text
path_text-joined encode [] = refl
path_text-joined encode (p ∷ ps) =
    ap (λ t. "/" <> part_text encode p <> t) (path_text-joined encode ps)

search_text-StartsQuery :
    (encode : String → String) (print_query : Query → String) (print_json : Value → String)
    (s : Search)
    → StartsQuery (search_text encode print_query print_json s)
search_text-StartsQuery encode print_query print_json nothing = inl refl
search_text-StartsQuery encode print_query print_json (params q) =
    elim (Bool-cases (is_empty (print_query q))) [
      | inl nil ↦ rw nil (inl refl)
      | inr some_text ↦ rw some_text (inr (print_query q, refl))
    ]
search_text-StartsQuery encode print_query print_json (single key p) =
    inr (key <> "=" <> part_text encode p, refl)

first_fit-call_of :
    (c : ApiCall)
    → All IsFine (call_of c).path
    → IsFree c
    → first_fit routes (method_name (call_of c).method) ("api" ∷ map part_name (call_of c).path)
      ≡ some (handler_of c)
unfolding call_of handler_of
first_fit-call_of (ApiCall.of_procedure c) h g = first_fit-procedure c h g
first_fit-call_of (ApiCall.of_run c) h g = first_fit-run c h g
first_fit-call_of (ApiCall.of_resource c) h g = first_fit-resource c h g
first_fit-call_of (ApiCall.of_case c) h g = first_fit-case c h g
first_fit-call_of (ApiCall.of_webhook c) h g = first_fit-webhook c h g
first_fit-call_of (ApiCall.of_operation c) h g = first_fit-operation c h g
first_fit-call_of (ApiCall.of_account c) h g = first_fit-account c h g

-- `/api` before a path, as the first segment of it
api_joined : (path query : String) → "/api" <> path <> query ≡ ("/" <> "api" <> path) <> query
api_joined path query =
    text_assoc "/" "api" (path <> query)
    ∙ sym (text_assoc "/" ("api" <> path) query ∙ ap (λ t. "/" <> t) (text_assoc "api" path query))

module _ (print_query : Query → String) (print_json : Value → String)
    {encode decode : String → String} (codec : IsCodec encode decode) (read : String → List String)
    (serves : ServesDecoded decode read) where
  sent-read :
      (token : Option String) (c : ApiCall)
      → All IsFine (call_of c).path
      → All IsWhole (call_of c).path
      → read (sent encode print_query print_json token (call_of c)).url
        ≡ "api" ∷ map part_name (call_of c).path
  unfolding sent outgoing target is_plain no_slash is_unreserved
  sent-read token c fine whole =
      let fixed = call_of-is_fixed_fine c in
      let api : decode "api" ≡ "api" = decode-unreserved codec "api" refl in
      let api_whole : no_slash (decode "api") ≡ true = rw api refl in
      rw
        (
          path_text-joined encode (call_of c).path,
          api_joined (joined (map (part_text encode) (call_of c).path)),
        )
        (serves ("api" ∷ map (part_text encode) (call_of c).path)
            (search_text encode print_query print_json (call_of c).search)
            ((refl, refl, refl, refl), parts-IsSegment codec (call_of c).path fixed fine)
            (api_whole, no_slash-parts codec (call_of c).path fixed fine whole)
            (search_text-StartsQuery encode print_query print_json (call_of c).search)
          ∙ rw (api, map-decode-parts codec (call_of c).path fixed fine) refl)

module _ (print_query : Query → String) (print_json : Value → String)
    {encode decode : String → String} (codec : IsCodec encode decode) (read : String → List String)
    (serves : ServesDecoded decode read)
    (dispatch : List Route → String → List String → Option String)
    (takes : TakesFirst dispatch) where
  -- Each call reaches the handler that it is meant for, on a server that matches the routes with the
  -- decoded path: where no identifier is empty, is spelled like a route that is declared earlier, moves
  -- up in the path, or has a slash, encoded or not, and those that are not encoded have unreserved
  -- characters only.
  pub sent-handler :
      (token : Option String) (c : ApiCall)
      → All IsFine (call_of c).path
      → All IsWhole (call_of c).path
      → IsFree c
      → (let request = sent encode print_query print_json token (call_of c) in
          dispatch routes request.method (read request.url))
        ≡ some (handler_of c)
  unfolding sent outgoing
  sent-handler token c fine whole free =
      rw (sent-read print_query print_json codec read serves token c fine whole) (
        dispatch-first_fit dispatch takes [] routes (method_name (call_of c).method)
          ("api" ∷ map part_name (call_of c).path) refl (first_fit-call_of c fine free))
