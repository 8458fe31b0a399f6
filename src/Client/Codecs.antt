-- ===== src/Client/Codecs.antt =====
-- A concrete codec for the parts of a path, of the kind that frontend/src/lib/api.ts takes from the platform.
use Prim.Native.Char.{Char, code}
use Prim.Native.String.{String, [], ◌∷◌}
use text.Mathlib.TextEquality.{Char-path}
use lang_orch.Base.{
  Bool, true, false, not, ◌||◌, Option, none, some, if◌then◌else◌, ◌≡◌, refl, ap, sym, ◌∙◌, inl,
  inr, arith, eqb, Option-cases,
}
use mathlib.Core.Option.{some-injective}
use lang_orch.Client.Urls.{IsCodec, is_plain, is_unreserved, is_unreserved_char, two_true}

-- The escape of a character that ends a segment, and of `%` itself: `%` and a letter.
escape_by : (is_percent is_slash is_question is_hash : Bool) → Option Char
escape_by true s q h = some "p"
escape_by false true q h = some "s"
escape_by false false true h = some "q"
escape_by false false false true = some "h"
escape_by false false false false = none

escape : Char → Option Char
unfolding escape_by
escape c = escape_by (eqb (code c) 37) (eqb (code c) 47) (eqb (code c) 63) (eqb (code c) 35)

unfoldable pub unescape : Char → Char
unescape c =
    if eqb (code c) 112
    then "%"
    else if eqb (code c) 115
    then "/"
    else if eqb (code c) 113
    then "?"
    else if eqb (code c) 104
    then "#"
    else c

unfoldable pub escaped : String → String
unfolding escape
escaped [] = []
escaped (c ∷ s) = elim (escape c) [ none ↦ c ∷ escaped s | some d ↦ "%" ∷ d ∷ escaped s ]

-- `after_percent` tells whether the character before was the first of an escape.
unfoldable pub unescaped_from : Bool → String → String
unescaped_from after_percent [] = []
unescaped_from true (c ∷ s) = unescape c ∷ unescaped_from false s
unescaped_from false (c ∷ s) =
    if eqb (code c) 37 then unescaped_from true s else c ∷ unescaped_from false s

unfoldable pub unescaped : String → String
unfolding unescaped_from unescape
unescaped s = unescaped_from false s

same_char : (c d : Char) → eqb (code c) (code d) ≡ true → d ≡ c
same_char c d h = Char-path d c (ground arith)

unescape_by :
    (p s q h : Bool) (c d : Char)
    → (p ≡ true → "%" ≡ c)
    → (s ≡ true → "/" ≡ c)
    → (q ≡ true → "?" ≡ c)
    → (h ≡ true → "#" ≡ c)
    → escape_by p s q h ≡ some d
    → unescape d ≡ c
unfolding escape_by unescape
unescape_by true s q h c d f1 f2 f3 f4 e = ap unescape (sym (some-injective "p" d e)) ∙ f1 refl
unescape_by false true q h c d f1 f2 f3 f4 e = ap unescape (sym (some-injective "s" d e)) ∙ f2 refl
unescape_by false false true h c d f1 f2 f3 f4 e =
    ap unescape (sym (some-injective "q" d e)) ∙ f3 refl
unescape_by false false false true c d f1 f2 f3 f4 e =
    ap unescape (sym (some-injective "h" d e)) ∙ f4 refl
unescape_by false false false false c d f1 f2 f3 f4 e = cc

unescape-escape : (c d : Char) → escape c ≡ some d → unescape d ≡ c
unfolding escape
unescape-escape c d =
    unescape_by (eqb (code c) 37) (eqb (code c) 47) (eqb (code c) 63) (eqb (code c) 35) c d
      (same_char c "%") (same_char c "/") (same_char c "?") (same_char c "#")

none_by : (p s q h : Bool) → escape_by p s q h ≡ none → (p ≡ false) × (not (s || q || h) ≡ true)
unfolding escape_by
none_by true s q h e = cc
none_by false true q h e = cc
none_by false false true h e = cc
none_by false false false true e = cc
none_by false false false false e = (refl, refl)

-- No character that ends a segment
abbrev is_plain_char : Char → Bool
is_plain_char c = not (eqb (code c) 47 || eqb (code c) 63 || eqb (code c) 35)

plain_by : (p s q h : Bool) (d : Char) → escape_by p s q h ≡ some d → is_plain_char d ≡ true
unfolding escape_by
plain_by true s q h d e = ap is_plain_char (sym (some-injective "p" d e))
plain_by false true q h d e = ap is_plain_char (sym (some-injective "s" d e))
plain_by false false true h d e = ap is_plain_char (sym (some-injective "q" d e))
plain_by false false false true d e = ap is_plain_char (sym (some-injective "h" d e))
plain_by false false false false d e = cc

escape-none :
    (c : Char)
    → escape c ≡ none
    → (eqb (code c) 37 ≡ false)
      × (not (eqb (code c) 47 || eqb (code c) 63 || eqb (code c) 35) ≡ true)
unfolding escape escape_by
escape-none c h = none_by (eqb (code c) 37) (eqb (code c) 47) (eqb (code c) 63) (eqb (code c) 35) h

unescaped-escaped : (s : String) → unescaped (escaped s) ≡ s
unfolding unescaped escaped
unescaped-escaped [] = refl
unescaped-escaped (c ∷ s) = elim (Option-cases (escape c)) [
  | inl kept ↦
      rw (kept, escaped) (rw (escape-none c kept).0 (ap (λ t. c ∷ t) (unescaped-escaped s)))
  | inr (d, e) ↦
      rw (e, escaped) (rw (unescape-escape c d e) (ap (λ t. c ∷ t) (unescaped-escaped s)))
]

escape_unreserved : (c : Char) → is_unreserved_char c ≡ true → escape c ≡ none
unfolding escape escape_by is_unreserved_char
escape_unreserved c h =
    let no_percent : eqb (code c) 37 ≡ false = ground arith in
    let no_slash : eqb (code c) 47 ≡ false = ground arith in
    let no_question : eqb (code c) 63 ≡ false = ground arith in
    let no_hash : eqb (code c) 35 ≡ false = ground arith in
    rw (no_percent, no_slash, no_question, no_hash) refl

escaped-keeps : (s : String) → is_unreserved s ≡ true → escaped s ≡ s
unfolding escaped is_unreserved
escaped-keeps [] h = refl
escaped-keeps (c ∷ s) h =
    let b = two_true (is_unreserved_char c) (is_unreserved s) h in
    rw (escape_unreserved c b.0, escaped) (ap (λ t. c ∷ t) (escaped-keeps s b.1))

escape-plain :
    (c d : Char)
    → escape c ≡ some d
    → not (eqb (code d) 47 || eqb (code d) 63 || eqb (code d) 35) ≡ true
unfolding escape escape_by
escape-plain c d =
    plain_by (eqb (code c) 37) (eqb (code c) 47) (eqb (code c) 63) (eqb (code c) 35) d

escaped-plain : (s : String) → is_plain (escaped s) ≡ true
unfolding escaped is_plain
escaped-plain [] = refl
escaped-plain (c ∷ s) = elim (Option-cases (escape c)) [
  | inl kept ↦ rw (kept, escaped) (rw (escape-none c kept).1 (escaped-plain s))
  | inr (d, e) ↦ rw (e, escaped) (rw (escape-plain c d e) (escaped-plain s))
]

pub escaped-IsCodec : IsCodec escaped unescaped
escaped-IsCodec = record {
  round = unescaped-escaped;
  keeps = escaped-keeps;
  escapes = escaped-plain;
}
