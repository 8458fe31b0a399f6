-- ===== src/Client/Urls.antt =====
-- The texts of the parts of a path, for frontend/src/lib/api.ts, and what is documented of encodeURIComponent
-- and of the reading of URLs.
use Prim.Native.Char.{Char, code}
use Prim.Native.String.{String, [], ◌∷◌}
use mathlib.Core.List.{List}
use lang_orch.Base.{
  ℕ, Bool, true, false, not, ◌&&◌, ◌||◌, map, All, all, ◌==◌, ◌<>◌, is_empty, ◌≡◌, refl, ap, sym,
  ◌∙◌, ◌⊎◌, inl, inr, arith, eq_iff, Bool-cases, leb, eqb,
}
use lang_orch.Client.{Part, fixed, raw, encoded}
use lang_orch.Client.Request.{part_text}

between : ℕ → ℕ → ℕ → Bool
between lo hi n = leb lo n && leb n hi

-- A letter, a digit, or one of `-._~`
unfoldable pub is_unreserved_char : Char → Bool
unfolding between
is_unreserved_char c =
    between 97 122 (code c)
    || between 65 90 (code c)
    || between 48 57 (code c)
    || eqb (code c) 45
    || eqb (code c) 46
    || eqb (code c) 95
    || eqb (code c) 126

unfoldable pub is_unreserved : String → Bool
unfolding is_unreserved_char
is_unreserved [] = true
is_unreserved (c ∷ s) = is_unreserved_char c && is_unreserved s

-- No character ends a segment of a URL: none is `/`, `?` or `#`.
unfoldable pub is_plain : String → Bool
is_plain [] = true
is_plain (c ∷ s) = not (eqb (code c) 47 || eqb (code c) 63 || eqb (code c) 35) && is_plain s

-- A segment that a URL keeps as it is
abbrev pub IsSegment : String → Type 0
IsSegment s =
    (is_plain s ≡ true) × (is_empty s ≡ false) × (("." == s) ≡ false) × ((".." == s) ≡ false)

-- encodeURIComponent and decodeURIComponent
pub record IsCodec (encode decode : String → String) : Type 0 where
  pub round : (s : String) → decode (encode s) ≡ s
  pub keeps : (s : String) → is_unreserved s ≡ true → encode s ≡ s
  pub escapes : (s : String) → is_plain (encode s) ≡ true

abbrev pub joined : List String → String
joined List.[] = ""
joined (List.◌∷◌ s ss) = "/" <> s <> joined ss

abbrev pub StartsQuery : String → Type 0
StartsQuery t = (t ≡ "") ⊎ ((q : String) × (t ≡ "?" <> q))

plain_char :
    (c : Char) (b : Bool)
    → (is_unreserved_char c && b) ≡ true
    → (not (eqb (code c) 47 || eqb (code c) 63 || eqb (code c) 35) ≡ true) × (b ≡ true)
unfolding is_unreserved_char
plain_char c b h = ground arith

pub unreserved-plain : (s : String) → is_unreserved s ≡ true → is_plain s ≡ true
unfolding is_unreserved is_plain
unreserved-plain [] h = refl
unreserved-plain (c ∷ s) h =
    let p = plain_char c (is_unreserved s) h in rw p.0 (unreserved-plain s p.1)

-- What a caller passes: a raw part has unreserved characters only, and no part is empty or moves up.
abbrev pub IsFine : Part → Type 0
IsFine (fixed s) = Unit
IsFine (raw s) =
    (is_unreserved s ≡ true) × (is_empty s ≡ false) × (("." == s) ≡ false) × ((".." == s) ≡ false)
IsFine (encoded s) = (is_empty s ≡ false) × (("." == s) ≡ false) × ((".." == s) ≡ false)

-- The text of a part before it is encoded
abbrev pub part_name : Part → String
part_name (fixed s) = s
part_name (raw s) = s
part_name (encoded s) = s

unfoldable pub no_slash : String → Bool
no_slash [] = true
no_slash (c ∷ s) = not (eqb (code c) 47) && no_slash s

-- A part that is one segment of a decoded path too
abbrev pub IsWhole : Part → Type 0
IsWhole p = no_slash (part_name p) ≡ true

-- The server decodes the path of a URL, and splits it at each slash afterwards.
abbrev pub ServesDecoded : (String → String) → (String → List String) → Type 0
ServesDecoded decode read =
    (ss : List String) (query : String)
    → All IsSegment ss
    → All (λ s. no_slash (decode s) ≡ true) ss
    → StartsQuery query
    → read (joined ss <> query) ≡ map decode ss

unfoldable pub is_fixed_fine : Part → Bool
unfolding is_unreserved
is_fixed_fine (fixed s) = is_unreserved s && not (is_empty s) && not ("." == s) && not (".." == s)
is_fixed_fine (raw s) = true
is_fixed_fine (encoded s) = true

pub four_true :
    (a b c d : Bool)
    → (a && not b && not c && not d) ≡ true
    → (a ≡ true) × (b ≡ false) × (c ≡ false) × (d ≡ false)
four_true a b c d h = ground arith

pub two_true : (a b : Bool) → (a && b) ≡ true → (a ≡ true) × (b ≡ true)
two_true a b h = ground arith

module _ {encode decode : String → String} (codec : IsCodec encode decode) where
  pub encode-injective : (s t : String) → encode s ≡ encode t → s ≡ t
  encode-injective s t e = sym (codec.round s) ∙ ap decode e ∙ codec.round t

  -- Unreserved text is decoded to itself.
  pub decode-unreserved : (s : String) → is_unreserved s ≡ true → decode s ≡ s
  decode-unreserved s h = ap decode (sym (codec.keeps s h)) ∙ codec.round s

  -- Encoding gives no unreserved text but that text itself.
  pub differs-encode :
      (w s : String) → is_unreserved w ≡ true → (w == s) ≡ false → (w == encode s) ≡ false
  differs-encode w s u h = elim (Bool-cases (w == encode s)) [
    | inl same ↦
        let e : w ≡ encode s = (eq_iff w (encode s)).0 same in
        let f : w ≡ s = encode-injective w s (codec.keeps w u ∙ e) in
        let g : (w == s) ≡ true = (eq_iff w s).1 f in cc
    | inr differ ↦ differ
  ]

  is_empty-eq : (s : String) → is_empty s ≡ ("" == s)
  is_empty-eq [] = refl
  is_empty-eq (c ∷ s) = elim (Bool-cases ("" == c ∷ s)) [
    | inl same ↦ let e : "" ≡ c ∷ s = (eq_iff "" (c ∷ s)).0 same in cc
    | inr differ ↦ sym differ
  ]

  pub full-encode : (s : String) → is_empty s ≡ false → is_empty (encode s) ≡ false
  unfolding is_unreserved
  full-encode s h = is_empty-eq (encode s) ∙ differs-encode "" s refl (sym (is_empty-eq s) ∙ h)

  -- Every part is a segment that the URL keeps.
  pub part-IsSegment :
      (p : Part) → is_fixed_fine p ≡ true → IsFine p → IsSegment (part_text encode p)
  unfolding is_fixed_fine is_unreserved
  part-IsSegment (fixed s) h g =
      let f = four_true (is_unreserved s) (is_empty s) ("." == s) (".." == s) h in
      (unreserved-plain s f.0, f.1, f.2, f.3)
  part-IsSegment (raw s) h g = rw (unreserved-plain s g.0) (refl, g.1, g.2, g.3)
  part-IsSegment (encoded s) h g = (
    codec.escapes s,
    full-encode s g.0,
    differs-encode "." s refl g.1,
    differs-encode ".." s refl g.2,
  )

  pub parts-IsSegment :
      (ps : List Part)
      → all is_fixed_fine ps ≡ true
      → All IsFine ps
      → All IsSegment (map (part_text encode) ps)
  parts-IsSegment List.[] h g = tt
  parts-IsSegment (List.◌∷◌ p ps) h g =
      let b = two_true (is_fixed_fine p) (all is_fixed_fine ps) h in
      (part-IsSegment p b.0 g.0, parts-IsSegment ps b.1 g.1)

  pub decode-part_text :
      (p : Part) → is_fixed_fine p ≡ true → IsFine p → decode (part_text encode p) ≡ part_name p
  unfolding is_fixed_fine
  decode-part_text (fixed s) h g =
      decode-unreserved s (four_true (is_unreserved s) (is_empty s) ("." == s) (".." == s) h).0
  decode-part_text (raw s) h g = decode-unreserved s g.0
  decode-part_text (encoded s) h g = codec.round s

  pub map-decode-parts :
      (ps : List Part)
      → all is_fixed_fine ps ≡ true
      → All IsFine ps
      → map decode (map (part_text encode) ps) ≡ map part_name ps
  map-decode-parts List.[] h g = refl
  map-decode-parts (List.◌∷◌ p ps) h g =
      let b = two_true (is_fixed_fine p) (all is_fixed_fine ps) h in
      rw (decode-part_text p b.0 g.0, map-decode-parts ps b.1 g.1) refl

  pub no_slash-parts :
      (ps : List Part)
      → all is_fixed_fine ps ≡ true
      → All IsFine ps
      → All IsWhole ps
      → All (λ s. no_slash (decode s) ≡ true) (map (part_text encode) ps)
  no_slash-parts List.[] h g w = tt
  no_slash-parts (List.◌∷◌ p ps) h g w =
      let b = two_true (is_fixed_fine p) (all is_fixed_fine ps) h in
      (rw (decode-part_text p b.0 g.0) w.0, no_slash-parts ps b.1 g.1 w.1)
