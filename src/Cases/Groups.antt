-- ===== src/Cases/Groups.antt =====
-- The groups of the queue of cases, frontend/src/app/cases/page.tsx.
use lang_orch.Base.{
  ℕ, String, true, false, Option, none, some, List, [], ◌∷◌, ◌++◌, append_assoc, append-nil, map,
  keep, All, if◌then◌else◌, ◌==◌, ◌>>=◌, eq_iff, ◌≡◌, refl, sym, ap, ◌∙◌, Bool-cases, inl, inr, ℤ,
  at, set, at-set,
}
use lang_orch.Cases.RawKeys.{raw_key-eq, raw_key-differs, flip, at-without_raw}
use lang_orch.Cases.{
  CaseQueueItem, wait_of, stats_of, GroupEntry, stats, raw, Bucket, raw_key, raw_values, ends_with,
  without_raw, add_grouped, key_or_unknown, add_all, CaseQueueAnalytics,
  build_queue_analytics_fallback,
}

-- The waits of the cases with a key, in order.
unfoldable pub waits_with : (CaseQueueItem → Option String) → String → List CaseQueueItem → List ℕ
waits_with key_of k items = map (λ c. wait_of c) (keep (λ c. key_or_unknown (key_of c) == k) items)

abbrev raw_if_any : List ℕ → Option GroupEntry
raw_if_any [] = none
raw_if_any (w ∷ ws) = some (raw (w ∷ ws))

raw_values-raw_if_any : (ws : List ℕ) → raw_values (raw_if_any ws) ≡ some ws
raw_values-raw_if_any [] = refl
raw_values-raw_if_any (w ∷ ws) = refl

raw_if_any-concat : (ws : List ℕ) (w : ℕ) → raw_if_any (ws ++ w ∷ []) ≡ some (raw (ws ++ w ∷ []))
raw_if_any-concat [] w = refl
raw_if_any-concat (v ∷ ws) w = refl

-- No key of a case ends in `__raw`.
abbrev pub NoRawKey : (CaseQueueItem → Option String) → List CaseQueueItem → Type 0
NoRawKey key_of items = All (λ c. ends_with "__raw" (key_or_unknown (key_of c)) ≡ false) items

module _ (ceil_product : ℕ → ℕ → ℕ) where
  -- The numbers of a group that has cases.
  unfoldable pub stats_if_any : List ℕ → Option GroupEntry
  stats_if_any [] = none
  stats_if_any (w ∷ ws) = some (stats (stats_of ceil_product (w ∷ ws)))

  stats_if_any-concat :
      (ws : List ℕ) (w : ℕ)
      → stats_if_any (ws ++ w ∷ []) ≡ some (stats (stats_of ceil_product (ws ++ w ∷ [])))
  unfolding stats_if_any
  stats_if_any-concat [] w = refl
  stats_if_any-concat (v ∷ ws) w = refl

  -- A bucket that has the numbers and the array of the waits that each key was given.
  record IsGrouped (b : Bucket) (waits : String → List ℕ) : Type 0 where
    raw_lem : (k : String) → ends_with "__raw" k ≡ false → at (raw_key k) b ≡ raw_if_any (waits k)
    group_lem : (k : String) → ends_with "__raw" k ≡ false → at k b ≡ stats_if_any (waits k)

  abbrev with_wait : (String → List ℕ) → String → ℕ → String → List ℕ
  with_wait waits j w k = if j == k then waits k ++ w ∷ [] else waits k

  IsGrouped-set :
      (b : Bucket) (waits : String → List ℕ) (j : String) (w : ℕ)
      → ends_with "__raw" j ≡ false
      → IsGrouped b waits
      → IsGrouped
          (set
            (raw_key j)
            (raw (waits j ++ w ∷ []))
            (set j (stats (stats_of ceil_product (waits j ++ w ∷ []))) b))
          (with_wait waits j w)
  IsGrouped-set b waits j w fine h =
      let group = stats (stats_of ceil_product (waits j ++ w ∷ [])) in
      let array = raw (waits j ++ w ∷ []) in
      record {
        raw_lem = λ k g.
            rw
              (
                at-set (raw_key j) (raw_key k) array (set j group b),
                at-set j (raw_key k) group b,
                raw_key-eq j k,
                flip (raw_key k) j (raw_key-differs k j fine),
              )
              (elim (Bool-cases (j == k)) [
                | inl same ↦
                    let e : j ≡ k = (eq_iff j k).0 same in
                    rw (same, e) (sym (raw_if_any-concat (waits k) w))
                | inr differ ↦ rw differ (h.raw_lem k g)
              ]);
        group_lem = λ k g.
            rw
              (
                at-set (raw_key j) k array (set j group b),
                at-set j k group b,
                raw_key-differs j k g,
              )
              (elim (Bool-cases (j == k)) [
                | inl same ↦
                    let e : j ≡ k = (eq_iff j k).0 same in
                    rw (same, e) (sym (stats_if_any-concat (waits k) w))
                | inr differ ↦ rw differ (h.group_lem k g)
              ]);
      }

  add_grouped-lem :
      (b : Bucket) (waits : String → List ℕ) (j : String) (w : ℕ)
      → ends_with "__raw" j ≡ false
      → IsGrouped b waits
      → add_grouped ceil_product b j w
        ≡ some (
            set
              (raw_key j)
              (raw (waits j ++ w ∷ []))
              (set j (stats (stats_of ceil_product (waits j ++ w ∷ []))) b))
  unfolding add_grouped
  add_grouped-lem b waits j w fine h = rw (h.raw_lem j fine, raw_values-raw_if_any (waits j)) refl

  IsGrouped-ext :
      (b : Bucket) (f g : String → List ℕ)
      → ((k : String) → f k ≡ g k)
      → IsGrouped b f
      → IsGrouped b g
  IsGrouped-ext b f g e h = record {
    raw_lem = λ k r. h.raw_lem k r ∙ ap (λ ws. raw_if_any ws) (e k);
    group_lem = λ k r. h.group_lem k r ∙ ap (λ ws. stats_if_any ws) (e k);
  }

  module _ (key_of : CaseQueueItem → Option String) where
    waits-step :
        (c : CaseQueueItem) (items : List CaseQueueItem) (waits : String → List ℕ) (k : String)
        → with_wait waits (key_or_unknown (key_of c)) (wait_of c) k ++ waits_with key_of k items
          ≡ waits k ++ waits_with key_of k (c ∷ items)
    unfolding waits_with
    waits-step c items waits k = elim (Bool-cases (key_or_unknown (key_of c) == k)) [
      | inl same ↦ rw same (append_assoc (waits k) (wait_of c ∷ []) (waits_with key_of k items))
      | inr differ ↦ rw differ refl
    ]

    IsGrouped-add_all :
        (items : List CaseQueueItem) (b : Bucket) (waits : String → List ℕ)
        → NoRawKey key_of items
        → IsGrouped b waits
        → (after : Bucket) × (add_all ceil_product key_of items b ≡ some after)
          × IsGrouped after (λ k. waits k ++ waits_with key_of k items)
    unfolding add_all waits_with
    IsGrouped-add_all [] b waits fine h =
        (b, refl, IsGrouped-ext b waits _ (λ k. sym (append-nil (waits k))) h)
    IsGrouped-add_all (c ∷ items) b waits fine h =
        let j = key_or_unknown (key_of c) in
        let w = wait_of c in
        let rest =
          IsGrouped-add_all items _ (with_wait waits j w) fine.1
            (IsGrouped-set b waits j w fine.0 h) in
        (
          rest.0,
          rw (add_grouped-lem b waits j w fine.0 h) rest.1,
          IsGrouped-ext rest.0 _ _ (waits-step c items waits) rest.2,
        )

    waits_with-none :
        (items : List CaseQueueItem) (k : String)
        → NoRawKey key_of items
        → ends_with "__raw" k ≡ true
        → waits_with key_of k items ≡ []
    unfolding waits_with
    waits_with-none [] k fine h = refl
    waits_with-none (c ∷ items) k fine h = elim (Bool-cases (key_or_unknown (key_of c) == k)) [
      | inl same ↦
          let e : key_or_unknown (key_of c) ≡ k = (eq_iff (key_or_unknown (key_of c)) k).0 same in
          let f : ends_with "__raw" k ≡ false = sym (ap (λ t. ends_with "__raw" t) e) ∙ fine.0 in cc
      | inr differ ↦ rw differ (waits_with-none items k fine.1 h)
    ]

    grouped :
        (items : List CaseQueueItem)
        → NoRawKey key_of items
        → (after : Bucket) × (add_all ceil_product key_of items [] ≡ some after)
          × ((k : String) → at k (without_raw after) ≡ stats_if_any (waits_with key_of k items))
    unfolding stats_if_any at
    grouped items fine =
        let r =
          IsGrouped-add_all items [] (λ k. []) fine
            (record { raw_lem = λ k g. refl; group_lem = λ k g. refl }) in
        (
          r.0,
          r.1,
          λ k. at-without_raw k r.0 ∙ elim (Bool-cases (ends_with "__raw" k)) [
            | inl ends ↦ rw (ends, waits_with-none items k fine ends) refl
            | inr plain ↦ rw plain (r.2.group_lem k plain)
          ],
        )

both_some {ℓ} :
    {A : Type ℓ} {o q : Option Bucket} {a b : Bucket} (f : Bucket → Bucket → A)
    → o ≡ some a
    → q ≡ some b
    → (o >>= λ p. q >>= λ t. some (f p t)) ≡ some (f a b)
both_some f h g = rw (h, g) refl

-- Where no priority and no type of a case ends in `__raw`, the analytics are built without an exception. The group of
-- a priority has the number of its cases and the percentiles of their waits; it is there if and only if a case has
-- the priority, where a case without one has the priority unknown. The group of a type of case likewise.
pub build_queue_analytics_fallback-groups :
    (ceil_product : ℕ → ℕ → ℕ) (items : List CaseQueueItem) (risk_window_minutes : ℤ) (k : String)
    → NoRawKey (λ (c : CaseQueueItem). c.priority) items
    → NoRawKey (λ (c : CaseQueueItem). c.case_type) items
    → (a : CaseQueueAnalytics) × (build_queue_analytics_fallback ceil_product items
          risk_window_minutes
        ≡ some a)
      × (at k a.wait_by_priority
          ≡ stats_if_any ceil_product (waits_with (λ (c : CaseQueueItem). c.priority) k items))
      × (at k a.wait_by_case_type
          ≡ stats_if_any ceil_product (waits_with (λ (c : CaseQueueItem). c.case_type) k items))
unfolding build_queue_analytics_fallback
build_queue_analytics_fallback-groups ceil_product items risk_window_minutes k fine_p fine_t =
    let p = grouped ceil_product (λ (c : CaseQueueItem). c.priority) items fine_p in
    let t = grouped ceil_product (λ (c : CaseQueueItem). c.case_type) items fine_t in
    (_, both_some _ p.1 t.1, p.2 k, t.2 k)
