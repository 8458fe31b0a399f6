-- ===== src/Diff.antt =====
-- The comparison of two versions of a procedure, line by line:
-- frontend/src/app/procedures/[id]/[version]/page.tsx, lines 87 to 127.
pub mod Lcs
pub mod Laws
pub mod Optimal
mod Tests
use lang_orch.Base.{
  ℕ, zero, suc, ◌+◌, max, String, Bool, true, false, Option, none, some, List, [], ◌∷◌, length,
  item, if◌then◌else◌, leb, ◌==◌, split_on,
}

pub data HunkType : Type 0 where
  equal added removed : HunkType

pub record DiffHunk : Type 0 where
  pub type : HunkType
  pub line_a : Option ℕ
  pub line_b : Option ℕ
  pub text : String

pub zeros : ℕ → List ℕ
zeros zero = []
zeros (suc n) = 0 ∷ zeros n

-- The inner loop: the cells of a row after the first, from the line `x`, the row above, the cell
-- above to the left and the cell to the left.
pub cells : String → List String → List ℕ → ℕ → ℕ → List ℕ
cells x [] above diagonal left = []
cells x (y ∷ ys) [] diagonal left = []
cells x (y ∷ ys) (up ∷ above) diagonal left =
    let cell = if x == y then diagonal + 1 else max up left in cell ∷ cells x ys above up cell

pub next_row : String → List String → List ℕ → List ℕ
unfolding cells
next_row x ys [] = []
next_row x ys (diagonal ∷ above) = 0 ∷ cells x ys above diagonal 0

-- The outer loop.
pub rows : List String → List String → List ℕ → List (List ℕ)
unfolding next_row
rows [] ys prev = []
rows (x ∷ xs) ys prev = next_row x ys prev ∷ rows xs ys (next_row x ys prev)

pub lcs_table : List String → List String → List (List ℕ)
unfolding zeros rows
lcs_table xs ys = zeros (suc (length ys)) ∷ rows xs ys (zeros (suc (length ys)))

-- `dp[i][j]`
pub cell_at : List (List ℕ) → ℕ → ℕ → ℕ
cell_at dp i j = item 0 (item [] dp i) j

abbrev pub equal_hunk : List String → ℕ → ℕ → DiffHunk
equal_hunk lines_a i j = record {
  type = equal;
  line_a = some (suc i);
  line_b = some (suc j);
  text = item "" lines_a i;
}

abbrev pub added_hunk : List String → ℕ → DiffHunk
added_hunk lines_b j = record {
  type = added;
  line_a = none;
  line_b = some (suc j);
  text = item "" lines_b j;
}

abbrev pub removed_hunk : List String → ℕ → DiffHunk
removed_hunk lines_a i = record {
  type = removed;
  line_a = some (suc i);
  line_b = none;
  text = item "" lines_a i;
}

module _ (lines_a lines_b : List String) (dp : List (List ℕ)) where
  -- The walk back through the table. The hunks are pushed from the last to the first and the list is
  -- reversed at the end, so each one goes to the front of those before it.
  pub backtrack : ℕ → ℕ → List DiffHunk → List DiffHunk
  unfolding cell_at
  backtrack zero zero result = result
  backtrack zero (suc j) result = backtrack zero j (added_hunk lines_b j ∷ result)
  backtrack (suc i) zero result = backtrack i zero (removed_hunk lines_a i ∷ result)
  backtrack (suc i) (suc j) result =
      let keep = backtrack i j (equal_hunk lines_a i j ∷ result) in
      let add = backtrack (suc i) j (added_hunk lines_b j ∷ result) in
      let remove = backtrack i (suc j) (removed_hunk lines_a i ∷ result) in
      if item "" lines_a i == item "" lines_b j
      then keep
      else if leb (cell_at dp i (suc j)) (cell_at dp (suc i) j)
      then add
      else remove

pub diff_lines : List String → List String → List DiffHunk
unfolding backtrack
diff_lines lines_a lines_b =
    backtrack lines_a lines_b (lcs_table lines_a lines_b) (length lines_a) (length lines_b) []

pub compute_line_diff : String → String → List DiffHunk
unfolding diff_lines
compute_line_diff a b = diff_lines (split_on 10 a) (split_on 10 b)
