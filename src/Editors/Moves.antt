-- ===== src/Editors/Moves.antt =====
-- Moving an item of a list and moving it back.
use lang_orch.Base.{
  ℕ, zero, suc, ◌≤◌, ◌<◌, List, [], ◌∷◌, length, item, pos, Value, undefined, ◌≡◌, ◌≢◌, refl, sym,
  ap, ◌∙◌, arith,
}
use native.Mathlib.Decide.{ℕ_discrete}
use lang_orch.Editors.{remove_at, insert_at, move_item}

module _ {ℓ} {A : Type ℓ} where
  remove_at-insert_at :
      (i : ℕ) (y : A) (xs : List A) → i ≤ length xs → remove_at i (insert_at i y xs) ≡ xs
  unfolding remove_at insert_at
  remove_at-insert_at zero y xs h = refl
  remove_at-insert_at (suc i) y [] h = absurd (omega arith)
  remove_at-insert_at (suc i) y (x ∷ xs) h =
      ap (λ zs. x ∷ zs) (remove_at-insert_at i y xs (omega arith))

  item-insert_at :
      (d : A) (i : ℕ) (y : A) (xs : List A) → i ≤ length xs → item d (insert_at i y xs) i ≡ y
  unfolding item insert_at
  item-insert_at d zero y xs h = refl
  item-insert_at d (suc i) y [] h = absurd (omega arith)
  item-insert_at d (suc i) y (x ∷ xs) h = item-insert_at d i y xs (omega arith)

  insert_at-remove_at :
      (d : A) (i : ℕ) (xs : List A)
      → i < length xs
      → insert_at i (item d xs i) (remove_at i xs) ≡ xs
  unfolding item insert_at remove_at
  insert_at-remove_at d zero (x ∷ xs) h = refl
  insert_at-remove_at d (suc i) (x ∷ xs) h =
      ap (λ zs. x ∷ zs) (insert_at-remove_at d i xs (omega arith))
  insert_at-remove_at d i [] h = absurd (omega arith)

  length-insert_at : (i : ℕ) (y : A) (xs : List A) → length (insert_at i y xs) ≡ suc (length xs)
  unfolding insert_at
  length-insert_at zero y xs = refl
  length-insert_at (suc i) y [] = refl
  length-insert_at (suc i) y (x ∷ xs) = ap suc (length-insert_at i y xs)

  length-remove_at :
      (i : ℕ) (xs : List A) → i < length xs → suc (length (remove_at i xs)) ≡ length xs
  unfolding remove_at
  length-remove_at zero (x ∷ xs) h = refl
  length-remove_at (suc i) (x ∷ xs) h = ap suc (length-remove_at i xs (omega arith))
  length-remove_at i [] h = absurd (omega arith)

module _ (items : List Value) (from to : ℕ) where
  move_item-same : from ≡ to → move_item items from (pos to) ≡ items
  unfolding move_item
  move_item-same e = ground (arith, e)

  move_item-moves :
      from ≢ to
      → to < length items
      → move_item items from (pos to)
        ≡ insert_at to (item undefined items from) (remove_at from items)
  unfolding move_item
  move_item-moves differ h = ground (arith, differ, h)

abbrev pub IsMoved : List Value → ℕ → ℕ → List Value → Type 0
IsMoved items from to moved =
    (item undefined moved to ≡ item undefined items from)
    × (length moved ≡ length items)
    × (move_item moved to (pos from) ≡ items)

module _ (items : List Value) (from to : ℕ) (h : from < length items) (g : to < length items) where
  length-moved :
      length (insert_at to (item undefined items from) (remove_at from items)) ≡ length items
  length-moved =
      length-insert_at to (item undefined items from) (remove_at from items)
      ∙ length-remove_at from items h

  insert_at-IsMoved :
      from ≢ to
      → IsMoved items from to (insert_at to (item undefined items from) (remove_at from items))
  insert_at-IsMoved differ =
      let fits : to ≤ length (remove_at from items) =
        omega (arith, length-remove_at from items h) in
      let x = item undefined items from in
      let stands : item undefined (insert_at to x (remove_at from items)) to ≡ x =
        item-insert_at undefined to x (remove_at from items) fits in
      (
        stands,
        length-moved,
        move_item-moves (insert_at to x (remove_at from items)) to from (λ e. differ (sym e))
              (omega (arith, length-moved))
            ∙ rw stands (
                rw (remove_at-insert_at to x (remove_at from items) fits)
                  (insert_at-remove_at undefined from items h)),
      )

-- The moved item stands at the index it was moved to, the list is as long as before, and moving the
-- item back gives the list as it was.
pub move_item-back :
    (items : List Value) (from to : ℕ)
    → from < length items
    → to < length items
    → IsMoved items from to (move_item items from (pos to))
move_item-back items from to h g = elim (ℕ_discrete from to) [
  | yes e ↦
      rw (move_item-same items from to e)
        (ap (item undefined items) (sym e), refl, move_item-same items to from (sym e))
  | no differ ↦
      rw (move_item-moves items from to differ g) (insert_at-IsMoved items from to h g differ)
]
