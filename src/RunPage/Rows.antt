-- ===== src/RunPage/Rows.antt =====
-- The table of summaries: its keys, and one row for each of them.
use lang_orch.Base.{
  ℕ, ◌+◌, String, Bool, true, false, ◌||◌, none, some, List, [], ◌∷◌, any, if◌then◌else◌, ◌==◌,
  eq_iff, ◌≡◌, refl, ap, sym, arith, Bool-cases, inl, inr, set,
}
use lang_orch.Overlay.Traversals.{RunEvent, node_of_event}
use lang_orch.RunPage.Summaries.{NodeExecutionSummary}
use lang_orch.RunPage.Sorting.{one_if, count_if}

-- Whether an event is about the node.
unfoldable pub names : String → RunEvent → Bool
names i e = elim (node_of_event e) [ none ↦ false | some j ↦ j == i ]

pub or_turn : (a b c : Bool) → (a || (b || c)) ≡ ((b || a) || c)
or_turn a b c = ground arith

abbrev pub Table : Type 0
Table = List (String × NodeExecutionSummary)

abbrev pub has_row : String → Table → Bool
has_row i t = any (λ (p : String × NodeExecutionSummary). p.0 == i) t

abbrev pub rows_at : String → Table → ℕ
rows_at i t = count_if (λ (p : String × NodeExecutionSummary). p.0 == i) t

pub has_row-set :
    (i k : String) (s : NodeExecutionSummary) (t : Table)
    → has_row i (set k s t) ≡ (k == i || has_row i t)
unfolding set
has_row-set i k s [] = refl
has_row-set i k s ((j, r) ∷ t) =
    ground (arith, eq_iff j k, eq_iff j i, eq_iff k i, has_row-set i k s t)

rows_at-set :
    (i k : String) (s : NodeExecutionSummary) (t : Table)
    → rows_at i (set k s t) ≡ (if has_row k t then rows_at i t else one_if (k == i) + rows_at i t)
unfolding set count_if
rows_at-set i k s [] = refl
rows_at-set i k s ((j, r) ∷ t) =
    ground (arith, eq_iff j k, eq_iff j i, eq_iff k i, rows_at-set i k s t)

-- A table has one row for each of its keys.
unfoldable pub HasOneRowEach : Table → Type 0
HasOneRowEach t = (i : String) → rows_at i t ≡ one_if (has_row i t)

row_again : (i k : String) (t : Table) → (k == i) ≡ true → has_row i t ≡ has_row k t
row_again i k t h = let e : k ≡ i = (eq_iff k i).0 h in ap (λ j. has_row j t) (sym e)

pub HasOneRowEach-set :
    (k : String) (s : NodeExecutionSummary) (t : Table)
    → HasOneRowEach t
    → HasOneRowEach (set k s t)
unfolding HasOneRowEach
HasOneRowEach-set k s t h i =
    rw (rows_at-set i k s t, has_row-set i k s t)
      (elim (Bool-cases (k == i)) [
        | inl same ↦ let g = row_again i k t same in let r = h i in ground (arith, same, g, r)
        | inr differ ↦ let r = h i in ground (arith, differ, r)
      ])
