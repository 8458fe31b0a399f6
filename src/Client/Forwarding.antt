-- ===== src/Client/Forwarding.antt =====
-- How app/api/[...path]/route.ts forwards the calls of frontend/src/lib/api.ts, and what it does with an answer
-- that has no content.
use text.Mathlib.TextLemmas.{append_assoc as text_assoc, append-nil as text_nil}
use lang_orch.Base.{
  ◌++◌, at, false, String, true, not, ◌||◌, Option, none, some, get_or, List, [], ◌∷◌, map, All,
  all, ◌<>◌, is_empty, ◌≡◌, refl, ap, sym, ◌∙◌, Value, ◌==◌,
}
use lang_orch.Client.{
  Part, fixed, raw, encoded, Query, Search, Method, unnamed, post, put, patch, delete, Call,
}
use lang_orch.Client.Request.{
  part_text, path_text, search_text, target, sent, outgoing, auth_header, Fetch,
}
use lang_orch.Client.Urls.{
  IsCodec, IsFine, decode-unreserved, is_fixed_fine, is_unreserved, joined, two_true, four_true,
}
use lang_orch.Client.Surface.{ApiCall, call_of}
use lang_orch.Client.Parts.{call_of-is_fixed_fine, is_nil, is_unnamed, is_bare, call_of-is_sendable}
use lang_orch.Client.Delivery.{path_text-joined}
use lang_orch.Gateway.{
  Headers, Outcome, Response, Environment, build_upstream_url, filter_request_headers, join_path,
  request_body, proxy_request,
}
use lang_orch.Gateway as Gateway

module _ {encode decode : String → String} (codec : IsCodec encode decode) where
  kept-unreserved : (s : String) → is_unreserved s ≡ true → encode (decode s) ≡ s
  kept-unreserved s h = ap encode (decode-unreserved codec s h) ∙ codec.keeps s h

  kept :
      (p : Part)
      → is_fixed_fine p ≡ true
      → IsFine p
      → encode (decode (part_text encode p)) ≡ part_text encode p
  unfolding is_fixed_fine
  kept (fixed s) h g =
      kept-unreserved s (four_true (is_unreserved s) (is_empty s) ("." == s) (".." == s) h).0
  kept (raw s) h g = kept-unreserved s g.0
  kept (encoded s) h g = ap encode (codec.round s)

  -- The segments are decoded for the route, which encodes them again.
  join_path-parts :
      (p : Part) (ps : List Part)
      → all is_fixed_fine (p ∷ ps) ≡ true
      → All IsFine (p ∷ ps)
      → "/" <> join_path encode (map decode (map (part_text encode) (p ∷ ps)))
        ≡ joined (map (part_text encode) (p ∷ ps))
  unfolding join_path
  join_path-parts p [] h g =
      let b = two_true (is_fixed_fine p) true h in
      rw (kept p b.0 g.0) (ap (λ t. "/" <> t) (sym (text_nil (part_text encode p))))
  join_path-parts p (q ∷ ps) h g =
      let b = two_true (is_fixed_fine p) (all is_fixed_fine (q ∷ ps)) h in
      rw (kept p b.0 g.0) (ap (λ t. "/" <> part_text encode p <> t) (join_path-parts q ps b.1 g.1))

  module _ (print_query : Query → String) (print_json : Value → String) where
    abbrev pub sent_of : Option String → Call → Fetch
    sent_of token c = sent encode print_query print_json token c

    -- What the route is given for a call: the segments after `/api`, decoded, the query, and the headers
    -- with their names in lower case, before those that the browser adds. An absent body is read as the
    -- empty one.
    abbrev pub received :
        (lower : String → String) → Option String → (added : Headers) → Call → Gateway.Request
    received lower token added c = record {
      method = (sent_of token c).method;
      headers = map (λ (p : String × String). (lower p.0, p.1)) (sent_of token c).headers ++ added;
      body = get_or (sent_of token c).body "";
      path = map decode (map (part_text encode) c.path);
      search = search_text encode print_query print_json c.search;
    }

    upstream-path :
        (base : String) (ps : List Part) (search_part : String)
        → not (is_nil ps) ≡ true
        → all is_fixed_fine ps ≡ true
        → All IsFine ps
        → build_upstream_url encode base (map decode (map (part_text encode) ps)) search_part
          ≡ base <> "/api" <> path_text encode ps <> search_part
    unfolding build_upstream_url
    upstream-path base [] search_part n h g = cc
    upstream-path base (p ∷ ps) search_part n h g =
        let j = join_path encode (map decode (map (part_text encode) (p ∷ ps))) in
        ap (λ t. base <> t)
          (text_assoc "/api" "/" (j <> search_part)
            ∙ ap (λ t. "/api" <> t) (sym (text_assoc "/" j search_part))
            ∙ ap (λ t. "/api" <> t <> search_part)
                (join_path-parts p ps h g ∙ sym (path_text-joined encode (p ∷ ps))))

    body-received :
        (lower : String → String) (token : Option String) (added : Headers) (m : Method)
        (ps : List Part) (s : Search) (body : Option Value)
        → (not (is_unnamed m) || is_bare body) ≡ true
        → (let c : Call = record { method = m; path = ps; search = s; body = body } in
            get_or (request_body (received lower token added c)) ""
            ≡ get_or (sent_of token c).body "")
    unfolding sent outgoing
    body-received lower token added unnamed ps s none h = refl
    body-received lower token added unnamed ps s (some v) h = cc
    body-received lower token added post ps s body h = refl
    body-received lower token added put ps s body h = refl
    body-received lower token added patch ps s body h = refl
    body-received lower token added delete ps s body h = refl

    -- A backend sees the header under a name that is sent, whatever the browser adds.
    headers-received :
        (lower : String → String) (token : String) (added : Headers) (c : Call)
        → lower "Content-Type" ≡ "content-type"
        → lower "Authorization" ≡ "authorization"
        → is_empty token ≡ false
        → (let hs = filter_request_headers (received lower (some token) added c).headers in
            (at "content-type" hs ≡ some "application/json")
            × (at "authorization" hs ≡ some ("Bearer " <> token)))
    unfolding sent outgoing auth_header filter_request_headers at
    headers-received lower token added c e f g = rw (g, e, f) (refl, refl)

    -- A call with a token is forwarded whole, to any backend: the route asks for the text of the URL that
    -- the call asks for, passes its body on, and keeps its token and the type of its content. Names of
    -- headers are read in lower case.
    pub forwarded-sent :
        (base : String) (lower : String → String) (token : String) (added : Headers) (c : ApiCall)
        → lower "Content-Type" ≡ "content-type"
        → lower "Authorization" ≡ "authorization"
        → is_empty token ≡ false
        → All IsFine (call_of c).path
        → (let r = received lower (some token) added (call_of c) in
            let f = sent_of (some token) (call_of c) in
            let hs = filter_request_headers r.headers in
            (build_upstream_url encode base r.path r.search ≡ base <> f.url)
            × (get_or (request_body r) "" ≡ get_or f.body "")
            × (at "content-type" hs ≡ some "application/json")
            × (at "authorization" hs ≡ some ("Bearer " <> token)))
    unfolding sent outgoing target
    forwarded-sent base lower token added c e f full g =
        let k = call_of c in
        let b =
          two_true (not (is_nil k.path)) (not (is_unnamed k.method) || is_bare k.body)
            (call_of-is_sendable c) in
        let hs = headers-received lower token added k e f full in
        (
          upstream-path base k.path (search_text encode print_query print_json k.search) b.0
              (call_of-is_fixed_fine c) g,
          body-received lower (some token) added k.method k.path k.search k.body b.1,
          hs.0,
          hs.1,
        )
