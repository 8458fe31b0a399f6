-- ===== src/Diff/Laws.antt =====
-- What a comparison of two texts says: frontend/src/app/procedures/[id]/[version]/page.tsx.
use lang_orch.Base.{
  ℕ, zero, suc, ◌≤◌, ◌<◌, String, List, [], ◌∷◌, ◌++◌, append_assoc, append-nil, length, item, take,
  take-suc, take-length, leb, ◌==◌, ◌≡◌, refl, sym, ap, ◌∙◌, arith, Bool-cases, inl, inr, eq_iff,
  split_on,
}
use lang_orch.Diff.{
  equal, added, removed, DiffHunk, lcs_table, cell_at, equal_hunk, added_hunk, removed_hunk,
  backtrack, diff_lines, compute_line_diff,
}

-- The lines of the old text and of the new text that the hunks show.
unfoldable pub old_lines : List DiffHunk → List String
old_lines [] = []
old_lines (h ∷ hs) = elim h.type [
  | equal ↦ h.text ∷ old_lines hs
  | added ↦ old_lines hs
  | removed ↦ h.text ∷ old_lines hs
]

unfoldable pub new_lines : List DiffHunk → List String
new_lines [] = []
new_lines (h ∷ hs) = elim h.type [
  | equal ↦ h.text ∷ new_lines hs
  | added ↦ h.text ∷ new_lines hs
  | removed ↦ new_lines hs
]

unfoldable pub equal_count : List DiffHunk → ℕ
equal_count [] = 0
equal_count (h ∷ hs) = elim h.type [
  | equal ↦ suc (equal_count hs)
  | added ↦ equal_count hs
  | removed ↦ equal_count hs
]

take-zero : (xs : List String) → take 0 xs ≡ []
unfolding take
take-zero [] = refl
take-zero (x ∷ xs) = refl

snoc :
    (xs : List String) (i : ℕ) (rest : List String)
    → i < length xs
    → take i xs ++ item "" xs i ∷ rest ≡ take (suc i) xs ++ rest
snoc xs i rest h = rw (take-suc "" i xs h) (sym (append_assoc (take i xs) (item "" xs i ∷ []) rest))

module _ (lines_a lines_b : List String) (dp : List (List ℕ)) where
  old-backtrack :
      (i j : ℕ) (hs : List DiffHunk)
      → i ≤ length lines_a
      → old_lines (backtrack lines_a lines_b dp i j hs) ≡ take i lines_a ++ old_lines hs
  unfolding old_lines backtrack
  old-backtrack zero zero hs h = rw (take-zero lines_a) refl
  old-backtrack zero (suc j) hs h = old-backtrack zero j (added_hunk lines_b j ∷ hs) h
  old-backtrack (suc i) zero hs h =
      old-backtrack i zero (removed_hunk lines_a i ∷ hs) (omega arith)
      ∙ snoc lines_a i (old_lines hs) (omega arith)
  old-backtrack (suc i) (suc j) hs h = elim (Bool-cases (item "" lines_a i == item "" lines_b j)) [
    | inl same ↦ rw same (
        old-backtrack i j (equal_hunk lines_a i j ∷ hs) (omega arith)
        ∙ snoc lines_a i (old_lines hs) (omega arith))
    | inr differ ↦
        rw differ (elim (Bool-cases (leb (cell_at dp i (suc j)) (cell_at dp (suc i) j))) [
          | inl adds ↦ rw adds (old-backtrack (suc i) j (added_hunk lines_b j ∷ hs) h)
          | inr removes ↦ rw removes (
              old-backtrack i (suc j) (removed_hunk lines_a i ∷ hs) (omega arith)
              ∙ snoc lines_a i (old_lines hs) (omega arith))
        ])
  ]

  new-backtrack :
      (i j : ℕ) (hs : List DiffHunk)
      → j ≤ length lines_b
      → new_lines (backtrack lines_a lines_b dp i j hs) ≡ take j lines_b ++ new_lines hs
  unfolding new_lines backtrack
  new-backtrack zero zero hs h = rw (take-zero lines_b) refl
  new-backtrack zero (suc j) hs h =
      new-backtrack zero j (added_hunk lines_b j ∷ hs) (omega arith)
      ∙ snoc lines_b j (new_lines hs) (omega arith)
  new-backtrack (suc i) zero hs h = new-backtrack i zero (removed_hunk lines_a i ∷ hs) h
  new-backtrack (suc i) (suc j) hs h = elim (Bool-cases (item "" lines_a i == item "" lines_b j)) [
    | inl same ↦ rw same (
        new-backtrack i j (equal_hunk lines_a i j ∷ hs) (omega arith)
        ∙ ap (λ t. take j lines_b ++ t ∷ new_lines hs)
            ((eq_iff (item "" lines_a i) (item "" lines_b j)).0 same)
        ∙ snoc lines_b j (new_lines hs) (omega arith))
    | inr differ ↦
        rw differ (elim (Bool-cases (leb (cell_at dp i (suc j)) (cell_at dp (suc i) j))) [
          | inl adds ↦ rw adds (
              new-backtrack (suc i) j (added_hunk lines_b j ∷ hs) (omega arith)
              ∙ snoc lines_b j (new_lines hs) (omega arith))
          | inr removes ↦ rw removes (new-backtrack i (suc j) (removed_hunk lines_a i ∷ hs) h)
        ])
  ]

-- The hunks give back both texts: the equal and removed lines are the lines of the old text, the equal
-- and added ones those of the new text, in order.
pub compute_line_diff-lines :
    (a b : String)
    → (old_lines (compute_line_diff a b) ≡ split_on 10 a)
      × (new_lines (compute_line_diff a b) ≡ split_on 10 b)
unfolding compute_line_diff diff_lines old_lines new_lines
compute_line_diff-lines a b = (
  old-backtrack (split_on 10 a) (split_on 10 b) (lcs_table (split_on 10 a) (split_on 10 b)) _
        (length (split_on 10 b)) [] (omega arith)
      ∙ append-nil (take (length (split_on 10 a)) (split_on 10 a))
      ∙ take-length (split_on 10 a),
  new-backtrack (split_on 10 a) (split_on 10 b) (lcs_table (split_on 10 a) (split_on 10 b))
        (length (split_on 10 a)) _ [] (omega arith)
      ∙ append-nil (take (length (split_on 10 b)) (split_on 10 b))
      ∙ take-length (split_on 10 b),
)
