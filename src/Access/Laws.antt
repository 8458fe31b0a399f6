-- ===== src/Access/Laws.antt =====
-- The hierarchy of roles: frontend/src/lib/auth.ts.
use lang_orch.Base.{
  ℕ, ◌≤◌, String, true, some, List, [], ◌∷◌, any, leb, ◌≡◌, refl, arith, Bool-cases, Option-cases,
  inl, inr,
}
use lang_orch.Access.{roles, index_of, reaches, has_role}

any-reaches :
    (i j : ℕ) (held : List String)
    → i ≤ j
    → any (λ r. reaches j (index_of r roles)) held ≡ true
    → any (λ r. reaches i (index_of r roles)) held ≡ true
any-reaches i j [] le h = h
any-reaches i j (r ∷ held) le h = elim (Option-cases (index_of r roles)) [
  | inl unknown ↦ rw unknown (any-reaches i j held le (rw unknown at h))
  | inr (k, known) ↦ rw known (elim (Bool-cases (leb j k)) [
    | inl above ↦ let e : leb i k ≡ true = ground arith in rw e refl
    | inr below ↦ elim (Bool-cases (leb i k)) [
      | inl enough ↦ rw enough refl
      | inr low ↦ rw low (any-reaches i j held le (rw (known, below) at h))
    ]
  ])
]

-- A user who has the rights of a role of the hierarchy has those of every role that is not above it.
pub has_role_mono :
    (held : List String) (lower higher : String) (i j : ℕ)
    → index_of lower roles ≡ some i
    → index_of higher roles ≡ some j
    → i ≤ j
    → has_role held higher ≡ true
    → has_role held lower ≡ true
unfolding has_role
has_role_mono held lower higher i j at_i at_j le h =
    rw (has_role, at_i) (any-reaches i j held le (rw (has_role, at_j) at h))
