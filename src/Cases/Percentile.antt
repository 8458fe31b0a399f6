-- ===== src/Cases/Percentile.antt =====
-- The percentile by rank of frontend/src/app/cases/page.tsx.
use lang_orch.Base.{
  ℕ, zero, suc, ◌+◌, ◌*◌, ◌≤◌, ◌<◌, Bool, true, false, List, [], ◌∷◌, length, item, leb, ltb, All,
  ◌≡◌, refl, arith, Bool-cases, inl, inr,
}
use lang_orch.Cases.{insert_number, sort_numbers, rank, percentile}

abbrev one : Bool → ℕ
one true = 1
one false = 0

-- How many values are at most `x`, and how many are less
unfoldable pub count_le : ℕ → List ℕ → ℕ
count_le x [] = 0
count_le x (y ∷ ys) = one (leb y x) + count_le x ys

unfoldable pub count_lt : ℕ → List ℕ → ℕ
count_lt x [] = 0
count_lt x (y ∷ ys) = one (ltb y x) + count_lt x ys

count_le-insert_number :
    (x n : ℕ) (ns : List ℕ) → count_le x (insert_number n ns) ≡ one (leb n x) + count_le x ns
unfolding count_le insert_number
count_le-insert_number x n [] = refl
count_le-insert_number x n (m ∷ ms) = ground (arith, count_le-insert_number x n ms)

count_lt-insert_number :
    (x n : ℕ) (ns : List ℕ) → count_lt x (insert_number n ns) ≡ one (ltb n x) + count_lt x ns
unfolding count_lt insert_number
count_lt-insert_number x n [] = refl
count_lt-insert_number x n (m ∷ ms) = ground (arith, count_lt-insert_number x n ms)

length-insert_number : (n : ℕ) (ns : List ℕ) → length (insert_number n ns) ≡ suc (length ns)
unfolding insert_number
length-insert_number n [] = refl
length-insert_number n (m ∷ ms) = ground (arith, length-insert_number n ms)

count_le-sort_numbers : (x : ℕ) (ns : List ℕ) → count_le x (sort_numbers ns) ≡ count_le x ns
unfolding count_le sort_numbers
count_le-sort_numbers x [] = refl
count_le-sort_numbers x (n ∷ ns) =
    omega (arith, count_le-insert_number x n (sort_numbers ns), count_le-sort_numbers x ns)

count_lt-sort_numbers : (x : ℕ) (ns : List ℕ) → count_lt x (sort_numbers ns) ≡ count_lt x ns
unfolding count_lt sort_numbers
count_lt-sort_numbers x [] = refl
count_lt-sort_numbers x (n ∷ ns) =
    omega (arith, count_lt-insert_number x n (sort_numbers ns), count_lt-sort_numbers x ns)

length-sort_numbers : (ns : List ℕ) → length (sort_numbers ns) ≡ length ns
unfolding sort_numbers
length-sort_numbers [] = refl
length-sort_numbers (n ∷ ns) =
    omega (arith, length-insert_number n (sort_numbers ns), length-sort_numbers ns)

-- A lower bound of all, and a list in ascending order
abbrev IsBelow : ℕ → List ℕ → Type 0
IsBelow n ns = All (λ m. n ≤ m) ns

abbrev IsSorted : List ℕ → Type 0
IsSorted [] = Unit
IsSorted (n ∷ ns) = IsBelow n ns × IsSorted ns

IsBelow-weaken : (k n : ℕ) (ns : List ℕ) → k ≤ n → IsBelow n ns → IsBelow k ns
IsBelow-weaken k n [] h b = tt
IsBelow-weaken k n (m ∷ ms) h b = (omega (arith, b.0), IsBelow-weaken k n ms h b.1)

IsBelow-insert_number :
    (k n : ℕ) (ns : List ℕ) → k ≤ n → IsBelow k ns → IsBelow k (insert_number n ns)
unfolding insert_number
IsBelow-insert_number k n [] h b = (h, tt)
IsBelow-insert_number k n (m ∷ ms) h b = ground (arith, IsBelow-insert_number k n ms h b.1)

insert_number-IsSorted : (n : ℕ) (ns : List ℕ) → IsSorted ns → IsSorted (insert_number n ns)
unfolding insert_number
insert_number-IsSorted n [] s = (tt, tt)
insert_number-IsSorted n (m ∷ ms) s = elim (Bool-cases (ltb m n)) [
  | inl less ↦
      rw less (IsBelow-insert_number m n ms (ground arith) s.0, insert_number-IsSorted n ms s.1)
  | inr other ↦ let le : n ≤ m = ground arith in rw other ((le, IsBelow-weaken n m ms le s.0), s)
]

sort_numbers-IsSorted : (ns : List ℕ) → IsSorted (sort_numbers ns)
unfolding sort_numbers
sort_numbers-IsSorted [] = tt
sort_numbers-IsSorted (n ∷ ns) =
    insert_number-IsSorted n (sort_numbers ns) (sort_numbers-IsSorted ns)

-- The item at a place of a sorted list is at least the bound of all.
item-IsBelow : (k : ℕ) (ns : List ℕ) (i : ℕ) → i < length ns → IsBelow k ns → k ≤ item 0 ns i
unfolding item
item-IsBelow k [] i h b = absurd (omega arith)
item-IsBelow k (n ∷ ns) zero h b = b.0
item-IsBelow k (n ∷ ns) (suc i) h b = item-IsBelow k ns i (omega arith) b.1

count_lt-IsBelow : (k : ℕ) (ns : List ℕ) → IsBelow k ns → count_lt k ns ≡ 0
unfolding count_lt
count_lt-IsBelow k [] b = refl
count_lt-IsBelow k (n ∷ ns) b = ground (arith, count_lt-IsBelow k ns b.1, b.0)

-- In a sorted list more than `i` values are at most the one at place `i`, and at most `i` are less.
item-counts :
    (ns : List ℕ) (i : ℕ)
    → IsSorted ns
    → i < length ns
    → (i < count_le (item 0 ns i) ns) × (count_lt (item 0 ns i) ns ≤ i)
unfolding item count_le count_lt
item-counts [] i s h = absurd (omega arith)
item-counts (n ∷ ns) zero s h = ground (arith, count_lt-IsBelow n ns s.0)
item-counts (n ∷ ns) (suc i) s h = ground (arith, item-counts ns i s.1, item-IsBelow n ns i, s.0)

-- The exact product, rounded up: the least whole number that is not below it.
abbrev RoundsUp : (ℕ → ℕ → ℕ) → ℕ → ℕ → Type 0
RoundsUp ceil_product p n =
    (p * n ≤ 100 * ceil_product p n) × (100 * ceil_product p n < p * n + 100)

-- For the two shares that are used, rounding in floating point does not move the product of a share and
-- the length of an array across a whole number.
pub record RoundsUsed (ceil_product : ℕ → ℕ → ℕ) : Type 0 where
  pub half : (n : ℕ) → n < 4294967296 → RoundsUp ceil_product 50 n
  pub most : (n : ℕ) → n < 4294967296 → RoundsUp ceil_product 95 n

module _ (ceil_product : ℕ → ℕ → ℕ) where
  -- The place is in the list, and is the first with the share of the values up to it.
  rank_bounds :
      (p n : ℕ)
      → 0 < p * n
      → p * n ≤ 100 * n
      → RoundsUp ceil_product p n
      → (rank ceil_product p n < n)
        × (p * n ≤ 100 * suc (rank ceil_product p n))
        × (100 * rank ceil_product p n < p * n)
  unfolding rank
  rank_bounds p n h g k = ground arith

  share_counts :
      (values : List ℕ) (p : ℕ)
      → 0 < p * length values
      → p * length values ≤ 100 * length values
      → RoundsUp ceil_product p (length values)
      → (p * length values ≤ 100 * count_le (percentile ceil_product values p) values)
        × (100 * count_lt (percentile ceil_product values p) values < p * length values)
  unfolding percentile
  share_counts values p h g k =
      let r = rank_bounds p (length values) h g k in
      let i = rank ceil_product p (length values) in
      let c =
        item-counts (sort_numbers values) i (sort_numbers-IsSorted values)
          (omega (arith, r.0, length-sort_numbers values)) in
      let x = item 0 (sort_numbers values) i in
      (
        omega (arith, r, c, count_le-sort_numbers x values),
        omega (arith, r, c, count_lt-sort_numbers x values),
      )

-- For the shares 50 and 95 that the page uses, at least the share of the values, in hundredths, is at
-- most the percentile, and less than the share is below it. There is a value, there are fewer than
-- 2 ^ 32, and for these shares `Math.ceil` gives the exact product with a length, rounded up.
pub percentile-counts :
    (ceil_product : ℕ → ℕ → ℕ) (values : List ℕ)
    → RoundsUsed ceil_product
    → 0 < length values
    → length values < 4294967296
    → (50 * length values ≤ 100 * count_le (percentile ceil_product values 50) values)
      × (100 * count_lt (percentile ceil_product values 50) values < 50 * length values)
      × (95 * length values ≤ 100 * count_le (percentile ceil_product values 95) values)
      × (100 * count_lt (percentile ceil_product values 95) values < 95 * length values)
percentile-counts ceil_product values rounds n short =
    let h =
      share_counts ceil_product values 50 (omega arith) (omega arith)
        (rounds.half (length values) short) in
    let m =
      share_counts ceil_product values 95 (omega arith) (omega arith)
        (rounds.most (length values) short) in
    (h.0, h.1, m.0, m.1)
