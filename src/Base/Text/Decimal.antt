-- ===== src/Base/Text/Decimal.antt =====
-- A natural number printed in decimal, and that different numbers print differently.
use Prim.Native.Nat.{ℕ, zero, suc, ◌+◌, ◌-◌, ◌*◌, ◌/◌, ◌%◌, ◌<◌}
use Prim.Native.Char.{Char, code}
use Prim.Native.String.{String, [], ◌∷◌}
use mathlib.Core.Path.{◌≡◌, refl, sym, ap, ◌∙◌}
use mathlib.Core.Logic.{inl, inr}
use native.Mathlib.Omega.{arith}
use lang_orch.Base.Tests.{eqb, if◌then◌else◌, Bool-cases}

digit : ℕ → Char
digit zero = "0"
digit (suc zero) = "1"
digit (suc (suc zero)) = "2"
digit (suc (suc (suc zero))) = "3"
digit (suc (suc (suc (suc zero)))) = "4"
digit (suc (suc (suc (suc (suc zero))))) = "5"
digit (suc (suc (suc (suc (suc (suc zero)))))) = "6"
digit (suc (suc (suc (suc (suc (suc (suc zero))))))) = "7"
digit (suc (suc (suc (suc (suc (suc (suc (suc zero)))))))) = "8"
digit _ = "9"

digits : ℕ → ℕ → String → String
digits zero n out = out
digits (suc fuel) n out =
    let longer = digits fuel (n / 10) (digit (n % 10) ∷ out) in
    if eqb (n / 10) 0 then digit (n % 10) ∷ out else longer

unfoldable pub show : ℕ → String
unfolding digit digits
show n = digits (suc n) n []

-- Reading the digits back.
value : ℕ → String → ℕ
value n [] = n
value n (c ∷ s) = value (n * 10 + (code c - 48)) s

code-digit : (n : ℕ) → n < 10 → code (digit n) - 48 ≡ n
unfolding digit
code-digit zero h = refl
code-digit (suc zero) h = refl
code-digit (suc (suc zero)) h = refl
code-digit (suc (suc (suc zero))) h = refl
code-digit (suc (suc (suc (suc zero)))) h = refl
code-digit (suc (suc (suc (suc (suc zero))))) h = refl
code-digit (suc (suc (suc (suc (suc (suc zero)))))) h = refl
code-digit (suc (suc (suc (suc (suc (suc (suc zero))))))) h = refl
code-digit (suc (suc (suc (suc (suc (suc (suc (suc zero)))))))) h = refl
code-digit (suc (suc (suc (suc (suc (suc (suc (suc (suc n))))))))) h = omega arith

value-digits : (fuel n : ℕ) (out : String) → n < fuel → value 0 (digits fuel n out) ≡ value n out
unfolding value digits
value-digits zero n out h = elim h [ ]
value-digits (suc fuel) n out h =
    let low : code (digit (n % 10)) - 48 ≡ n % 10 = code-digit (n % 10) (omega arith) in
    elim (Bool-cases (eqb (n / 10) 0)) [
      | inl last ↦ rw last (ap (λ k. value k out) (ground arith))
      | inr more ↦ rw more (
          value-digits fuel (n / 10) (digit (n % 10) ∷ out) (ground arith)
          ∙ ap (λ k. value k out) (omega arith))
    ]

pub show_inj : (a b : ℕ) → show a ≡ show b → a ≡ b
unfolding show value
show_inj a b h =
    sym (value-digits (suc a) a [] (omega arith))
    ∙ ap (value 0) h
    ∙ value-digits (suc b) b [] (omega arith)
