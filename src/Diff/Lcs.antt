-- ===== src/Diff/Lcs.antt =====
-- The table of the comparison holds the lengths of longest common subsequences.
use lang_orch.Base.{
  ℕ, zero, suc, ◌+◌, ◌≤◌, ◌<◌, max, String, List, [], ◌∷◌, length, item, if◌then◌else◌, ◌==◌, ◌≡◌,
  refl, ap, ◌∙◌, arith,
}
use lang_orch.Diff.{zeros, cells, next_row, rows, lcs_table, cell_at}

module _ (lines_a lines_b : List String) where
  -- for the first `i` and the first `j` lines
  unfoldable pub lcs : ℕ → ℕ → ℕ
  lcs zero j = 0
  lcs (suc i) zero = 0
  lcs (suc i) (suc j) =
      let both = lcs i j + 1 in
      let either = max (lcs i (suc j)) (lcs (suc i) j) in
      if item "" lines_a i == item "" lines_b j then both else either

  -- `n` values of a row from column `j`
  values : ℕ → ℕ → ℕ → List ℕ
  values i j zero = []
  values i j (suc n) = lcs i j ∷ values i (suc j) n

  IsSuffix : List String → List String → ℕ → Type 0
  IsSuffix xs ys j = (k : ℕ) → item "" ys k ≡ item "" xs (j + k)

  IsSuffix-tail :
      (xs ys : List String) (y : String) (j : ℕ) → IsSuffix xs (y ∷ ys) j → IsSuffix xs ys (suc j)
  unfolding IsSuffix item
  IsSuffix-tail xs ys y j h k = h (suc k) ∙ ap (item "" xs) (omega arith)

  cells-values :
      (i j : ℕ) (ys : List String)
      → IsSuffix lines_b ys j
      → cells (item "" lines_a i) ys (values i (suc j) (length ys)) (lcs i j) (lcs (suc i) j)
        ≡ values (suc i) (suc j) (length ys)
  unfolding cells values lcs IsSuffix item
  cells-values i j [] h = refl
  cells-values i j (y ∷ ys) h =
      let here : y ≡ item "" lines_b j = h 0 ∙ ap (item "" lines_b) (omega arith) in
      let below = cells-values i (suc j) ys (IsSuffix-tail lines_b ys y j h) in
      rw here (ap (λ t. lcs (suc i) (suc j) ∷ t) below)

  next_row-values :
      (i : ℕ)
      → next_row (item "" lines_a i) lines_b (values i 0 (suc (length lines_b)))
        ≡ values (suc i) 0 (suc (length lines_b))
  unfolding next_row values lcs IsSuffix
  next_row-values i =
      ap (λ t. 0 ∷ t) (cells-values i 0 lines_b (λ k. ap (item "" lines_b) (omega arith)))

  rows_from : ℕ → ℕ → List (List ℕ)
  rows_from i zero = []
  rows_from i (suc n) = values i 0 (suc (length lines_b)) ∷ rows_from (suc i) n

  rows-values :
      (i : ℕ) (xs : List String)
      → IsSuffix lines_a xs i
      → rows xs lines_b (values i 0 (suc (length lines_b))) ≡ rows_from (suc i) (length xs)
  unfolding rows rows_from IsSuffix item
  rows-values i [] h = refl
  rows-values i (x ∷ xs) h =
      let here : x ≡ item "" lines_a i = h 0 ∙ ap (item "" lines_a) (omega arith) in
      let row =
        ap (λ l. next_row l lines_b (values i 0 (suc (length lines_b)))) here ∙ next_row-values i in
      rw row (
        ap (λ t. values (suc i) 0 (suc (length lines_b)) ∷ t)
          (rows-values (suc i) xs (IsSuffix-tail lines_a xs x i h)))

  zeros-values : (n j : ℕ) → zeros n ≡ values 0 j n
  unfolding zeros values lcs
  zeros-values zero j = refl
  zeros-values (suc n) j = ap (λ t. 0 ∷ t) (zeros-values n (suc j))

  table-rows : lcs_table lines_a lines_b ≡ rows_from 0 (suc (length lines_a))
  unfolding lcs_table rows_from IsSuffix
  table-rows = rw (zeros-values (suc (length lines_b)) 0) (
      ap (λ t. values 0 0 (suc (length lines_b)) ∷ t)
        (rows-values 0 lines_a (λ k. ap (item "" lines_a) (omega arith))))

  item-values : (i j n k : ℕ) → k < n → item 0 (values i j n) k ≡ lcs i (j + k)
  unfolding item values
  item-values i j (suc n) zero h = ap (lcs i) (omega arith)
  item-values i j (suc n) (suc k) h =
      item-values i (suc j) n k (omega arith) ∙ ap (lcs i) (omega arith)
  item-values i j zero k h = absurd (omega arith)

  item-rows :
      (i n k : ℕ) → k < n → item [] (rows_from i n) k ≡ values (i + k) 0 (suc (length lines_b))
  unfolding item rows_from
  item-rows i (suc n) zero h = ap (λ m. values m 0 (suc (length lines_b))) (omega arith)
  item-rows i (suc n) (suc k) h =
      item-rows (suc i) n k (omega arith)
      ∙ ap (λ m. values m 0 (suc (length lines_b))) (omega arith)
  item-rows i zero k h = absurd (omega arith)

  pub cell_at-lcs_table :
      (i j : ℕ)
      → i ≤ length lines_a
      → j ≤ length lines_b
      → cell_at (lcs_table lines_a lines_b) i j ≡ lcs i j
  unfolding cell_at
  cell_at-lcs_table i j h g =
      rw
        (
          table-rows,
          item-rows 0 (suc (length lines_a)) i (omega arith),
          item-values (0 + i) 0 (suc (length lines_b)) j (omega arith),
        )
        (cc (sum i, sum j))
    where
      sum : (k : ℕ) → 0 + k ≡ k
      sum k = omega arith
