-- ===== src/Redact.antt =====
-- Hiding secrets before they are displayed: frontend/src/lib/redact.ts.
-- The test of the caller's own patterns, regular expressions made from texts, is the parameter `extra`.
pub mod Clean
pub mod Schema
mod Tests
use Prim.Native.Char.{Char, code}
use Prim.Native.String.{[], ◌∷◌}
use lang_orch.Base.{
  ℕ, zero, suc, ◌+◌, String, Bool, true, false, not, ◌&&◌, ◌||◌, List, [], ◌∷◌, any, if◌then◌else◌,
  eqb, leb, ltb, ◌==◌, is_empty, lower_code, Value, undefined, null, bool, num, str, arr, obj,
  Fields, no_fields, field, Elements, no_elements, element, get, truthy,
}

-- A pattern is a text in which `?` stands for `[_-]?`; the test ignores the case of letters.
same_letter : Char → Char → Bool
same_letter c d = eqb (lower_code (code c)) (lower_code (code d))

is_separator : Char → Bool
is_separator c = eqb (code c) 95 || eqb (code c) 45

skip_separator : String → String
skip_separator [] = []
skip_separator (c ∷ s) = if is_separator c then s else c ∷ s

matches_here : String → String → Bool
unfolding same_letter skip_separator is_separator
matches_here [] s = true
matches_here (p ∷ ps) s =
    let after_separator = matches_here ps (skip_separator s) in
    if eqb (code p) 63
    then after_separator
    else elim s [ [] ↦ false | c ∷ s' ↦ same_letter p c && matches_here ps s' ]

-- `pattern.test(key)` without anchors
unfoldable pub matches : String → String → Bool
unfolding matches_here
matches p [] = matches_here p []
matches p (c ∷ s) = matches_here p (c ∷ s) || matches p s

-- `/^auth$/i`
unfoldable pub is_same_text : String → String → Bool
unfolding same_letter
is_same_text [] [] = true
is_same_text (c ∷ s) (d ∷ t) = same_letter c d && is_same_text s t
is_same_text s t = false

unfoldable pub sensitive_patterns : List String
sensitive_patterns =
    "password" ∷ "token" ∷ "api?key" ∷ "secret" ∷ "credential" ∷ "authorization" ∷ "private?key"
    ∷ "access?key" ∷ "client?secret" ∷ []

unfoldable pub redaction_placeholder : String
redaction_placeholder = "***REDACTED***"

unfoldable pub is_sensitive_key : String → Bool
unfolding sensitive_patterns
is_sensitive_key k = is_same_text "auth" k || any (λ p. matches p k) sensitive_patterns

module _ (extra : String → Bool) where
  -- `allPatterns.some((p) => p.test(k))`
  unfoldable pub is_hidden : String → Bool
  is_hidden k = is_sensitive_key k || extra k

  unfoldable mutual
    pub redact_for_display : ℕ → Value → Value
    redact_for_display depth (arr vs) =
        let items = redact_items (depth + 1) vs in if ltb 10 depth then arr vs else arr items
    redact_for_display depth (obj o) =
        let out = redact_fields (depth + 1) o in if ltb 10 depth then obj o else obj out
    redact_for_display depth v = v

    pub redact_items : ℕ → Elements → Elements
    redact_items depth no_elements = no_elements
    redact_items depth (element v vs) = element (redact_for_display depth v) (redact_items depth vs)

    -- `depth` is the depth of the values.
    pub redact_fields : ℕ → Fields → Fields
    redact_fields depth no_fields = no_fields
    redact_fields depth (field k v o) =
        let shown = redact_for_display depth v in
        field k (if is_hidden k then str redaction_placeholder else shown) (redact_fields depth o)

-- `!!meta.sensitive || meta.type === "password"`
abbrev is_text : String → Value → Bool
is_text t (str s) = s == t
is_text t v = false

unfoldable pub is_field_sensitive : Fields → Bool
is_field_sensitive meta = truthy (get "sensitive" meta) || is_text "password" (get "type" meta)
