-- ===== src/Client/Limits.antt =====
-- The limit that `listCases` of frontend/src/lib/api.ts passes on.
use lang_orch.Base.{
  ℕ, ◌≤◌, String, Bool, true, false, Option, none, some, List, [], ◌∷◌, if◌then◌else◌, ◌==◌,
  or_else, ℤ, num, finite, pos, pos_part, ltb_ℤ, at, set, at-set, show, show_number, to_text, ◌≡◌,
  refl, ap, ◌∙◌, arith,
}
use lang_orch.Client.{Query, set_all, query_of}
use lang_orch.Client.Cases.{ListCasesParams, clamped_limit, list_cases_query}

-- The value of the last entry for the key
abbrev latest : String → List (String × Option String) → Option String → Option String
latest k [] found = found
latest k ((j, o) ∷ entries) found = latest k entries (if j == k then or_else o found else found)

same_both {ℓ} : {A : Type ℓ} (b : Bool) (a : A) → a ≡ (if b then a else a)
same_both true a = refl
same_both false a = refl

at-set_all :
    (k : String) (entries : List (String × Option String)) (q : Query)
    → at k (set_all entries q) ≡ latest k entries (at k q)
unfolding set_all
at-set_all k [] q = refl
at-set_all k ((j, none) ∷ entries) q =
    at-set_all k entries q ∙ ap (latest k entries) (same_both (j == k) (at k q))
at-set_all k ((j, some s) ∷ entries) q =
    at-set_all k entries (set j s q) ∙ ap (latest k entries) (at-set j k s q)

at-query_of :
    (k : String) (entries : List (String × Option String))
    → at k (query_of entries) ≡ latest k entries none
unfolding query_of at
at-query_of k entries = at-set_all k entries []

-- The number nearest to the limit from 1 to 500
abbrev pub nearest : ℤ → ℕ
nearest n = if ltb_ℤ n (pos 1) then 1 else if ltb_ℤ (pos 500) n then 500 else pos_part n

clamped-nearest : (n : ℤ) → clamped_limit n ≡ pos (nearest n)
unfolding clamped_limit
clamped-nearest n = ground arith

nearest_bounds : (n : ℤ) → (1 ≤ nearest n) × (nearest n ≤ 500)
nearest_bounds n = ground arith

-- A limit is passed on as the nearest number from 1 to 500, which the backend accepts, whatever the other
-- parameters are.
pub list_cases-limit :
    (p : ListCasesParams) (n : ℤ)
    → p.limit ≡ some n
    → (at "limit" (list_cases_query p) ≡ some (show (nearest n)))
      × (1 ≤ nearest n)
      × (nearest n ≤ 500)
unfolding list_cases_query to_text show_number
list_cases-limit p n h = (
  at-query_of "limit" _ ∙ rw h (ap (λ m. some (to_text (num (finite m)))) (clamped-nearest n)),
  (nearest_bounds n).0,
  (nearest_bounds n).1,
)
