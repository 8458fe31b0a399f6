-- ===== src/Base/Tables.antt =====
-- A `Record<string, A>` as a list of keys and values.
use Prim.Native.String.{String}
use mathlib.Core.Path.{◌≡◌, refl}
use mathlib.Core.Option.{Option, none, some}
use mathlib.Core.List.{List, [], ◌∷◌}
use native.Mathlib.Omega.{arith}
use text.Mathlib.TextEquality.{eq_iff}
use lang_orch.Base.Tests.{if◌then◌else◌}
use lang_orch.Base.Text.{◌==◌}

module _ {ℓ} {A : Type ℓ} where
  -- `table[k]`
  unfoldable pub at : String → List (String × A) → Option A
  at k [] = none
  at k ((j, a) ∷ t) = if j == k then some a else at k t

  -- `table[k] = a`: a key that is there keeps its place.
  unfoldable pub set : String → A → List (String × A) → List (String × A)
  set k a [] = (k, a) ∷ []
  set k a ((j, b) ∷ t) = if j == k then (j, a) ∷ t else (j, b) ∷ set k a t

pub at-set {ℓ} :
    {A : Type ℓ} (k j : String) (a : A) (t : List (String × A))
    → at j (set k a t) ≡ (if k == j then some a else at j t)
unfolding at set
at-set k j a [] = refl
at-set k j a ((i, b) ∷ t) = ground (arith, eq_iff k j, eq_iff i k, eq_iff i j, at-set k j a t)
