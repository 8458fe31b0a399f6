-- ===== src/RunPage/Sorting.antt =====
-- What the sorts of the run's page keep: how many items pass a test, whether one does, and what holds of all.
use lang_orch.Base.{
  ℕ, ◌+◌, Bool, ◌||◌, List, [], ◌∷◌, All, any, if◌then◌else◌, ◌≡◌, refl, ap, ◌∙◌, arith, Bool-cases,
  inl, inr,
}
use lang_orch.RunPage.Summaries.{insert_by, sort_by}

abbrev pub one_if : Bool → ℕ
one_if b = if b then 1 else 0

-- How many items pass a test.
unfoldable pub count_if {ℓ} : {A : Type ℓ} → (A → Bool) → List A → ℕ
count_if p [] = 0
count_if p (x ∷ xs) = one_if (p x) + count_if p xs

module _ {ℓ} {A : Type ℓ} (p : A → Bool) (first : A → A → Bool) where
  count_if-insert_by :
      (x : A) (xs : List A) → count_if p (insert_by first x xs) ≡ one_if (p x) + count_if p xs
  unfolding count_if insert_by
  count_if-insert_by x [] = refl
  count_if-insert_by x (y ∷ ys) = elim (Bool-cases (first y x)) [
    | inl later ↦ rw later (omega (arith, count_if-insert_by x ys))
    | inr stays ↦ rw stays refl
  ]

  pub count_if-sort_by : (xs : List A) → count_if p (sort_by first xs) ≡ count_if p xs
  unfolding count_if sort_by
  count_if-sort_by [] = refl
  count_if-sort_by (x ∷ xs) =
      count_if-insert_by x (sort_by first xs) ∙ ap (λ n. one_if (p x) + n) (count_if-sort_by xs)

or_swap : (a b c : Bool) → (a || (b || c)) ≡ (b || (a || c))
or_swap a b c = ground arith

module _ {ℓ} {A : Type ℓ} (p : A → Bool) (first : A → A → Bool) where
  any-insert_by : (x : A) (xs : List A) → any p (insert_by first x xs) ≡ (p x || any p xs)
  unfolding insert_by
  any-insert_by x [] = refl
  any-insert_by x (y ∷ ys) = elim (Bool-cases (first y x)) [
    | inl later ↦
        rw later (ap (λ b. p y || b) (any-insert_by x ys) ∙ or_swap (p y) (p x) (any p ys))
    | inr stays ↦ rw stays refl
  ]

  pub any-sort_by : (xs : List A) → any p (sort_by first xs) ≡ any p xs
  unfolding sort_by
  any-sort_by [] = refl
  any-sort_by (x ∷ xs) = any-insert_by x (sort_by first xs) ∙ ap (λ b. p x || b) (any-sort_by xs)

module _ {ℓ κ} {A : Type ℓ} (P : A → Type κ) (first : A → A → Bool) where
  All-insert_by : (x : A) (xs : List A) → P x → All P xs → All P (insert_by first x xs)
  unfolding insert_by
  All-insert_by x [] h g = (h, tt)
  All-insert_by x (y ∷ ys) h g = elim (Bool-cases (first y x)) [
    | inl later ↦ rw later (g.0, All-insert_by x ys h g.1)
    | inr stays ↦ rw stays (h, (g.0, g.1))
  ]

  pub All-sort_by : (xs : List A) → All P xs → All P (sort_by first xs)
  unfolding sort_by
  All-sort_by [] g = tt
  All-sort_by (x ∷ xs) g = All-insert_by x (sort_by first xs) g.0 (All-sort_by xs g.1)
