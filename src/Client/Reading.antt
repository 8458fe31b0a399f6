-- ===== src/Client/Reading.antt =====
-- A concrete server's reading of URLs, of the kind that the calls of frontend/src/lib/api.ts need of the
-- platform: it takes the path, decodes it, and splits it at the slashes.
use Prim.Native.Char.{Char, code}
use Prim.Native.String.{String, [], ◌∷◌}
use mathlib.Core.List.{List}
use lang_orch.Base.{
  Bool, true, false, not, ◌&&◌, ◌||◌, All, map, if◌then◌else◌, ◌<>◌, ◌≡◌, refl, sym, ap, ◌∙◌, inl,
  inr, arith, eqb, Bool-cases,
}
use Prim.Native.String.append
use text.Mathlib.TextLemmas.{append_assoc as text_assoc, append-nil as text_nil}
use lang_orch.Client.Codecs.{unescape, unescaped_from, unescaped}
use lang_orch.Client.Urls.{IsSegment, ServesDecoded, StartsQuery, is_plain, no_slash, joined}

-- The text of a URL up to the query
before_query : String → String
before_query [] = []
before_query (c ∷ s) = let rest = before_query s in if eqb (code c) 63 then [] else c ∷ rest

extend : Char → List String → List String
extend c List.[] = List.◌∷◌ (c ∷ []) List.[]
extend c (List.◌∷◌ s ss) = List.◌∷◌ (c ∷ s) ss

split : String → List String
unfolding extend
split [] = List.◌∷◌ [] List.[]
split (c ∷ s) = let rest = split s in if eqb (code c) 47 then List.◌∷◌ [] rest else extend c rest

without_first : List String → List String
without_first List.[] = List.[]
without_first (List.◌∷◌ s ss) = ss

unfoldable pub served : String → List String
unfolding before_query split without_first
served url = without_first (split (unescaped (before_query url)))

first_char : (c : Char) (t : String) → (c ∷ []) <> t ≡ c ∷ t
first_char c t = append.cons c [] t ∙ ap (λ s. c ∷ s) (append.nil t)

ends_by :
    (s q h b : Bool) → (not (s || q || h) && b) ≡ true → (s ≡ false) × (q ≡ false) × (b ≡ true)
ends_by s q h b e = ground arith

before_query-plain :
    (s t : String) → is_plain s ≡ true → before_query (s <> t) ≡ s <> before_query t
unfolding before_query is_plain
before_query-plain [] t h = ap before_query (append.nil t) ∙ sym (append.nil (before_query t))
before_query-plain (c ∷ s) t h =
    let e = ends_by (eqb (code c) 47) (eqb (code c) 63) (eqb (code c) 35) (is_plain s) h in
    ap before_query (append.cons c s t)
    ∙ rw (e.1) (ap (λ u. c ∷ u) (before_query-plain s t e.2))
    ∙ sym (append.cons c s (before_query t))

before_query-query : (query : String) → StartsQuery query → before_query query ≡ ""
unfolding before_query
before_query-query query (inl e) = rw e refl
before_query-query query (inr (q, e)) = ap before_query (e ∙ first_char "?" q)

before_query-joined :
    (ss : List String) (query : String)
    → All IsSegment ss
    → StartsQuery query
    → before_query (joined ss <> query) ≡ joined ss
unfolding before_query
before_query-joined List.[] query h g =
    ap before_query (append.nil query) ∙ before_query-query query g
before_query-joined (List.◌∷◌ s ss) query h g =
    ap before_query (
      text_assoc "/" (s <> joined ss) query
      ∙ ap (λ t. "/" <> t) (text_assoc s (joined ss) query)
      ∙ first_char "/" (s <> (joined ss <> query)))
    ∙ ap (λ t. "/" ∷ t)
        (before_query-plain s (joined ss <> query) h.0.0
          ∙ ap (λ t. s <> t) (before_query-joined ss query h.1 g))
    ∙ sym (first_char "/" (s <> joined ss))

unescaped_from-slash :
    (b : Bool) (s t : String)
    → unescaped_from b (s <> ("/" ∷ t)) ≡ unescaped_from b s <> ("/" ∷ unescaped_from false t)
unfolding unescaped_from unescape
unescaped_from-slash true [] t =
    ap (unescaped_from true) (append.nil ("/" ∷ t))
    ∙ sym (append.nil ("/" ∷ unescaped_from false t))
unescaped_from-slash false [] t =
    ap (unescaped_from false) (append.nil ("/" ∷ t))
    ∙ sym (append.nil ("/" ∷ unescaped_from false t))
unescaped_from-slash true (c ∷ s) t =
    ap (unescaped_from true) (append.cons c s ("/" ∷ t))
    ∙ ap (λ u. unescape c ∷ u) (unescaped_from-slash false s t)
    ∙ sym (append.cons (unescape c) (unescaped_from false s) ("/" ∷ unescaped_from false t))
unescaped_from-slash false (c ∷ s) t =
    ap (unescaped_from false) (append.cons c s ("/" ∷ t)) ∙ elim (Bool-cases (eqb (code c) 37)) [
      | inl percent ↦ rw percent (unescaped_from-slash true s t)
      | inr other ↦ rw other (
          ap (λ u. c ∷ u) (unescaped_from-slash false s t)
          ∙ sym (append.cons c (unescaped_from false s) ("/" ∷ unescaped_from false t)))
    ]

unescaped_from-joined :
    (b : Bool) (s : String) (ss : List String)
    → unescaped_from b (s <> joined ss) ≡ unescaped_from b s <> joined (map unescaped ss)
unfolding unescaped
unescaped_from-joined b s List.[] =
    ap (unescaped_from b) (text_nil s) ∙ sym (text_nil (unescaped_from b s))
unescaped_from-joined b s (List.◌∷◌ r ss) =
    ap (λ t. unescaped_from b (s <> t)) (first_char "/" (r <> joined ss))
    ∙ unescaped_from-slash b s (r <> joined ss)
    ∙ ap (λ t. unescaped_from b s <> t)
        (ap (λ t. "/" ∷ t) (unescaped_from-joined false r ss)
          ∙ sym (first_char "/" (unescaped_from false r <> joined (map unescaped ss))))

unescaped-joined : (ss : List String) → unescaped (joined ss) ≡ joined (map unescaped ss)
unfolding unescaped
unescaped-joined ss =
    ap unescaped (sym (append.nil (joined ss)))
    ∙ unescaped_from-joined false "" ss
    ∙ append.nil (joined (map unescaped ss))

prepend : String → List String → List String
prepend [] ss = ss
prepend (c ∷ s) ss = extend c (prepend s ss)

prepend-first : (s : String) (ss : List String) → prepend s (List.◌∷◌ [] ss) ≡ List.◌∷◌ s ss
unfolding prepend extend
prepend-first [] ss = refl
prepend-first (c ∷ s) ss = ap (extend c) (prepend-first s ss)

whole_by : (s b : Bool) → (not s && b) ≡ true → (s ≡ false) × (b ≡ true)
whole_by s b e = ground arith

split-whole : (s t : String) → no_slash s ≡ true → split (s <> t) ≡ prepend s (split t)
unfolding split prepend no_slash
split-whole [] t h = ap split (append.nil t)
split-whole (c ∷ s) t h =
    let e = whole_by (eqb (code c) 47) (no_slash s) h in
    ap split (append.cons c s t) ∙ rw (e.0) (ap (extend c) (split-whole s t e.1))

split-joined :
    (ss : List String)
    → All (λ s. no_slash (unescaped s) ≡ true) ss
    → split (joined (map unescaped ss)) ≡ List.◌∷◌ [] (map unescaped ss)
unfolding split
split-joined List.[] h = refl
split-joined (List.◌∷◌ s ss) h =
    ap split (first_char "/" (unescaped s <> joined (map unescaped ss)))
    ∙ ap (λ l. List.◌∷◌ [] l)
        (split-whole (unescaped s) (joined (map unescaped ss)) h.0
          ∙ ap (prepend (unescaped s)) (split-joined ss h.1)
          ∙ prepend-first (unescaped s) (map unescaped ss))

pub served-ServesDecoded : ServesDecoded unescaped served
unfolding served without_first
served-ServesDecoded ss query h w q =
    ap (λ t. without_first (split (unescaped t))) (before_query-joined ss query h q)
    ∙ ap (λ t. without_first (split t)) (unescaped-joined ss)
    ∙ ap without_first (split-joined ss w)
