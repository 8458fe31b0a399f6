-- ===== src/Diff/Optimal.antt =====
-- A comparison keeps as many lines as any script of deletions and insertions can.
use lang_orch.Base.{
  ℕ, zero, suc, ◌+◌, ◌≤◌, max, String, List, [], ◌∷◌, length, item, if◌then◌else◌, leb, ◌==◌, ◌≡◌,
  refl, ◌∙◌, arith, Bool-cases, inl, inr, eq_iff, split_on,
}
use lang_orch.Diff.{
  DiffHunk, lcs_table, cell_at, equal_hunk, added_hunk, removed_hunk, backtrack, diff_lines,
  compute_line_diff,
}
use lang_orch.Diff.Lcs.{lcs, cell_at-lcs_table}
use lang_orch.Diff.Laws.{equal_count}

module _ (lines_a lines_b : List String) where
  -- a script that turns the first `i` lines of one text into the first `j` lines of the other
  pub data Script : ℕ → ℕ → Type 0 where
    nothing : Script 0 0
    delete : {i j : ℕ} → Script i j → Script (suc i) j
    insert : {i j : ℕ} → Script i j → Script i (suc j)
    keep : {i j : ℕ} → Script i j → item "" lines_a i ≡ item "" lines_b j → Script (suc i) (suc j)

  unfoldable pub kept : {i j : ℕ} → Script i j → ℕ
  kept nothing = 0
  kept (delete s) = kept s
  kept (insert s) = kept s
  kept (keep s e) = suc (kept s)

  -- The table grows along both axes, by at most one.
  record IsMonotone (i j : ℕ) : Type 0 where
    down : lcs lines_a lines_b i j ≤ lcs lines_a lines_b (suc i) j
    right : lcs lines_a lines_b i j ≤ lcs lines_a lines_b i (suc j)
    down_one : lcs lines_a lines_b (suc i) j ≤ lcs lines_a lines_b i j + 1
    right_one : lcs lines_a lines_b i (suc j) ≤ lcs lines_a lines_b i j + 1

  lcs-zero : (i : ℕ) → lcs lines_a lines_b i 0 ≡ 0
  unfolding lcs
  lcs-zero zero = refl
  lcs-zero (suc i) = refl

  lcs-none : (j : ℕ) → lcs lines_a lines_b 0 j ≡ 0
  unfolding lcs
  lcs-none j = refl

  lcs-suc :
      (i j : ℕ)
      → lcs lines_a lines_b (suc i) (suc j) ≡ (
          if item "" lines_a i == item "" lines_b j
          then lcs lines_a lines_b i j + 1
          else max (lcs lines_a lines_b i (suc j)) (lcs lines_a lines_b (suc i) j))
  unfolding lcs
  lcs-suc i j = refl

  lcs-IsMonotone : (i j : ℕ) → IsMonotone i j
  lcs-IsMonotone zero zero = ground (arith, lcs-none 0, lcs-none 1, lcs-zero 1)
  lcs-IsMonotone zero (suc j) =
      let ih = lcs-IsMonotone zero j in
      ground (arith, ih.down_one, lcs-none j, lcs-none (suc j), lcs-none (suc (suc j)), lcs-suc 0 j)
  lcs-IsMonotone (suc i) zero =
      let ih = lcs-IsMonotone i zero in
      ground
        (arith, ih.right_one, lcs-zero i, lcs-zero (suc i), lcs-zero (suc (suc i)), lcs-suc i 0)
  lcs-IsMonotone (suc i) (suc j) =
      let above = lcs-IsMonotone i (suc j) in
      let left = lcs-IsMonotone (suc i) j in
      ground (arith, above, left, lcs-suc (suc i) j, lcs-suc i (suc j))

  kept-le-lcs : {i j : ℕ} (s : Script i j) → kept s ≤ lcs lines_a lines_b i j
  unfolding kept
  kept-le-lcs nothing = omega arith
  kept-le-lcs (delete {i} {j} s) = omega (arith, kept-le-lcs s, (lcs-IsMonotone i j).down)
  kept-le-lcs (insert {i} {j} s) = omega (arith, kept-le-lcs s, (lcs-IsMonotone i j).right)
  kept-le-lcs (keep {i} {j} s e) =
      rw (lcs-suc i j, (eq_iff (item "" lines_a i) (item "" lines_b j)).1 e)
        (omega (arith, kept-le-lcs s))

  equal_count-backtrack :
      (i j : ℕ) (hs : List DiffHunk)
      → i ≤ length lines_a
      → j ≤ length lines_b
      → equal_count (backtrack lines_a lines_b (lcs_table lines_a lines_b) i j hs)
        ≡ lcs lines_a lines_b i j + equal_count hs
  unfolding backtrack equal_count
  equal_count-backtrack zero zero hs h g = omega (arith, lcs-none 0)
  equal_count-backtrack zero (suc j) hs h g =
      equal_count-backtrack zero j (added_hunk lines_b j ∷ hs) h (omega arith)
      ∙ omega (arith, lcs-none j, lcs-none (suc j))
  equal_count-backtrack (suc i) zero hs h g =
      equal_count-backtrack i zero (removed_hunk lines_a i ∷ hs) (omega arith) g
      ∙ omega (arith, lcs-zero i, lcs-zero (suc i))
  equal_count-backtrack (suc i) (suc j) hs h g =
      let diagonal =
        equal_count-backtrack i j (equal_hunk lines_a i j ∷ hs) (omega arith) (omega arith) in
      let across = equal_count-backtrack (suc i) j (added_hunk lines_b j ∷ hs) h (omega arith) in
      let up = equal_count-backtrack i (suc j) (removed_hunk lines_a i ∷ hs) (omega arith) g in
      let above = cell_at-lcs_table lines_a lines_b i (suc j) (omega arith) g in
      let left = cell_at-lcs_table lines_a lines_b (suc i) j h (omega arith) in
      rw (lcs-suc i j) (elim (Bool-cases (item "" lines_a i == item "" lines_b j)) [
        | inl same ↦ rw same (diagonal ∙ omega arith)
        | inr differ ↦
            rw differ
              (elim (Bool-cases (
                leb (cell_at (lcs_table lines_a lines_b) i (suc j))
                  (cell_at (lcs_table lines_a lines_b) (suc i) j))) [
                    | inl adds ↦ rw adds (across ∙ ground (arith, above, left, adds))
                    | inr removes ↦ rw removes (up ∙ ground (arith, above, left, removes))
                  ])
      ])

-- No script of deletions and insertions that turns the one text into the other keeps more lines than
-- the comparison shows as equal.
pub compute_line_diff-keeps_most :
    (a b : String)
    (s : Script (split_on 10 a) (split_on 10 b) (length (split_on 10 a)) (length (split_on 10 b)))
    → kept (split_on 10 a) (split_on 10 b) s ≤ equal_count (compute_line_diff a b)
unfolding compute_line_diff diff_lines equal_count
compute_line_diff-keeps_most a b s =
    let all =
      equal_count-backtrack (split_on 10 a) (split_on 10 b) (length (split_on 10 a))
        (length (split_on 10 b)) [] (omega arith) (omega arith) in
    omega (arith, all, kept-le-lcs (split_on 10 a) (split_on 10 b) s)
