-- ===== src/Base/Text.antt =====
-- The operations on text that the source calls: `trim`, `toLowerCase`, `split`, `slice`, and a
-- number printed in a template. A text is the list of its code points.
mod Decimal
unfoldable pub use Decimal.{show}
pub use Decimal.{show_inj}
use Prim.Native.Nat.{ℕ, zero, suc, ◌+◌}
use Prim.Native.Char.{Char, code}
use Prim.Native.String
use Prim.Native.String.{String, [], ◌∷◌}
use mathlib.Core.Path.{◌≡◌, refl}
use mathlib.Core.Bool.{Bool, true, false, ◌&&◌, ◌||◌}
use mathlib.Core.List.{List, [], ◌∷◌}
use mathlib.Core.List
use native.Mathlib.Omega.{arith}
use text.Mathlib.Text
use lang_orch.Base.Tests.{leb, eqb, if◌then◌else◌}

infix 50 ◌==◌
abbrev pub ◌==◌ : String → String → Bool
◌==◌ = Text.◌==◌

-- Concatenation, as in a template literal.
infixr 65 ◌<>◌
abbrev pub ◌<>◌ : String → String → String
◌<>◌ = String.◌++◌

abbrev pub is_empty : String → Bool
is_empty [] = true
is_empty (c ∷ s) = false

-- White space and line ends, as `trim` strips them.
unfoldable pub is_space : Char → Bool
is_space c =
    let n = code c in
    leb 9 n && leb n 13
    || eqb n 32
    || eqb n 0xa0
    || eqb n 0x1680
    || leb 0x2000 n && leb n 0x200a
    || eqb n 0x2028
    || eqb n 0x2029
    || eqb n 0x202f
    || eqb n 0x205f
    || eqb n 0x3000
    || eqb n 0xfeff

unfoldable pub trim_start : String → String
trim_start [] = []
trim_start (c ∷ s) = if is_space c then trim_start s else c ∷ s

unfoldable pub trim_end : String → String
trim_end [] = []
trim_end (c ∷ s) = let rest = trim_end s in if is_space c && is_empty rest then [] else c ∷ rest

unfoldable pub trim : String → String
unfolding is_space trim_start trim_end
trim s = trim_end (trim_start s)

-- `!s.trim()`
abbrev pub is_blank : String → Bool
is_blank s = is_empty (trim s)

unfoldable pub drop : ℕ → String → String
drop zero s = s
drop (suc n) [] = []
drop (suc n) (c ∷ s) = drop n s

-- `s.toLowerCase() === t` for a text `t` of lower-case ASCII letters without `k`: besides A to Z, no
-- other character becomes one of these letters.
unfoldable pub lower_code : ℕ → ℕ
lower_code n = if leb 65 n && leb n 90 then n + 32 else n

unfoldable pub is_lower_case : String → String → Bool
unfolding lower_code
is_lower_case [] [] = true
is_lower_case (c ∷ s) (d ∷ t) = eqb (lower_code (code c)) (code d) && is_lower_case s t
is_lower_case s t = false

-- `s.split(separator)` for a separator of one character, given by its code
extend_first : Char → List String → List String
extend_first c [] = (c ∷ []) ∷ []
extend_first c (s ∷ ss) = (c ∷ s) ∷ ss

unfoldable pub split_on : ℕ → String → List String
unfolding extend_first
split_on separator [] = [] ∷ []
split_on separator (c ∷ s) =
    let rest = split_on separator s in
    if eqb (code c) separator then [] ∷ rest else extend_first c rest
