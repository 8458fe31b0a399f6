-- ===== src/Cases/RawKeys.antt =====
-- The keys of the working arrays in the groups of the queue of cases, frontend/src/app/cases/page.tsx.
use Prim.Native.Char.{Char}
use Prim.Native.String.{[] as nil, ◌∷◌ as ◌∷∷◌}
use text.Mathlib.TextLemmas.{append_cancel_right, nil-append, cons-append}
use lang_orch.Base.{
  String, true, false, none, [], ◌∷◌, if◌then◌else◌, ◌==◌, ◌<>◌, eq_iff, ◌≡◌, refl, sym, ap, ◌∙◌,
  arith, Bool-cases, inl, inr, at,
}
use lang_orch.Cases.{Bucket, raw_key, ends_with, without_raw}

ends_with_self : (s : String) → ends_with s s ≡ true
unfolding ends_with
ends_with_self nil = refl
ends_with_self (c ∷∷ s) = let e = (eq_iff (c ∷∷ s) (c ∷∷ s)).1 refl in rw e refl

ends_with-cons :
    (suffix : String) (c : Char) (s : String)
    → ends_with suffix s ≡ true
    → ends_with suffix (c ∷∷ s) ≡ true
unfolding ends_with
ends_with-cons suffix c s h = ground arith

ends_with-append : (suffix s : String) → ends_with suffix (s <> suffix) ≡ true
unfolding ends_with
ends_with-append suffix nil =
    ap (λ t. ends_with suffix t) (nil-append suffix) ∙ ends_with_self suffix
ends_with-append suffix (c ∷∷ s) =
    ap (λ t. ends_with suffix t) (cons-append c s suffix)
    ∙ ends_with-cons suffix c (s <> suffix) (ends_with-append suffix s)

-- The key of an array is that of its group alone.
pub raw_key-eq : (j k : String) → (raw_key j == raw_key k) ≡ (j == k)
raw_key-eq j k = elim (Bool-cases (j == k)) [
  | inl same ↦
      let e : j ≡ k = (eq_iff j k).0 same in
      rw same ((eq_iff (raw_key j) (raw_key k)).1 (ap (λ t. raw_key t) e))
  | inr differ ↦ rw differ (elim (Bool-cases (raw_key j == raw_key k)) [
    | inl one ↦
        let e = append_cancel_right j k "__raw" ((eq_iff (raw_key j) (raw_key k)).0 one) in
        let same : (j == k) ≡ true = (eq_iff j k).1 e in cc
    | inr two ↦ two
  ])
]

pub raw_key-differs : (j k : String) → ends_with "__raw" k ≡ false → (raw_key j == k) ≡ false
raw_key-differs j k h = elim (Bool-cases (raw_key j == k)) [
  | inl same ↦
      let e : raw_key j ≡ k = (eq_iff (raw_key j) k).0 same in
      let ends : ends_with "__raw" k ≡ true =
        sym (ap (λ t. ends_with "__raw" t) e) ∙ ends_with-append "__raw" j in
      cc
  | inr differ ↦ differ
]

pub flip : (j k : String) → (j == k) ≡ false → (k == j) ≡ false
flip j k h = ground (arith, eq_iff j k, eq_iff k j)

pub at-without_raw :
    (k : String) (b : Bucket)
    → at k (without_raw b) ≡ (if ends_with "__raw" k then none else at k b)
unfolding without_raw at
at-without_raw k [] = ground arith
at-without_raw k ((j, e) ∷ b) = elim (Bool-cases (j == k)) [
  | inl same ↦
      let e : j ≡ k = (eq_iff j k).0 same in
      rw (e) (elim (Bool-cases (ends_with "__raw" k)) [
        | inl ends ↦ rw (ends, at-without_raw k b, ends) refl
        | inr kept ↦ let own = (eq_iff k k).1 refl in rw (kept, own) refl
      ])
  | inr differ ↦ elim (Bool-cases (ends_with "__raw" j)) [
    | inl ends ↦ rw (ends, differ, at-without_raw k b) refl
    | inr kept ↦ rw (kept, differ, at-without_raw k b) refl
  ]
]
