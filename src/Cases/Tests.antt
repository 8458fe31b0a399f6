-- ===== src/Cases/Tests.antt =====
-- A queue of three cases.
use Prim.Native.Nat.{◌/◌}
use mathlib.Core.Option.{map}
use lang_orch.Base.{
  ℕ, ◌+◌, set, arith, ◌*◌, ◌≤◌, ◌<◌, String, false, Option, none, some, List, [], ◌∷◌, ◌≡◌, refl, ℤ,
  pos, negsuc, at, item,
}
use lang_orch.Cases.{
  CaseQueueItem, CaseQueueAnalytics, stats, ends_with, without_raw, percentile, sort_numbers, rank,
  stats_of, build_queue_analytics_fallback,
}
use lang_orch.Cases.Percentile.{count_le, count_lt, RoundsUsed, percentile-counts}
use lang_orch.Cases.Groups.{waits_with, stats_if_any, build_queue_analytics_fallback-groups}

abbrev queued : Option String → ℤ → CaseQueueItem
queued priority age = record {
  owner = none;
  priority = priority;
  case_type = none;
  is_sla_breached = false;
  sla_remaining_seconds = some (pos 30);
  age_seconds = age;
}

abbrev queue : List CaseQueueItem
queue = queued (some "high") (pos 40) ∷ queued none (negsuc 4) ∷ queued (some "high") (pos 10) ∷ []

-- The exact product, rounded up
abbrev ceil_exact : ℕ → ℕ → ℕ
ceil_exact hundredths n = (hundredths * n + 99) / 100

percentiles :
    (percentile ceil_exact (40 ∷ 10 ∷ 30 ∷ 20 ∷ []) 50 ≡ 20)
    × (percentile ceil_exact (40 ∷ 10 ∷ 30 ∷ 20 ∷ []) 95 ≡ 40)
    × (percentile ceil_exact [] 50 ≡ 0)
unfolding percentile sort_numbers rank item
percentiles = (refl, refl, refl)

build_queue_analytics_fallback-groups_example :
    (a : CaseQueueAnalytics) × (build_queue_analytics_fallback ceil_exact queue (pos 1) ≡ some a)
    × (at "high" a.wait_by_priority
        ≡ some (stats (record { count = 2; wait_p50_seconds = 10; wait_p95_seconds = 40 })))
    × (at "high" a.wait_by_case_type ≡ none)
unfolding waits_with stats_if_any stats_of percentile sort_numbers rank item ends_with
build_queue_analytics_fallback-groups_example =
    build_queue_analytics_fallback-groups ceil_exact queue (pos 1) "high" (refl, (refl, (refl, tt)))
      (refl, (refl, (refl, tt)))

-- A priority that is the key of another one's array: the code throws.
clash :
    build_queue_analytics_fallback ceil_exact
      (queued (some "high__raw") (pos 40) ∷ queued (some "high") (pos 10) ∷ [])
      (pos 1)
    ≡ none
unfolding build_queue_analytics_fallback at set
clash = refl

-- A priority with that ending alone has no group.
hidden_group :
    map
      (λ a. a.wait_by_priority)
      (build_queue_analytics_fallback ceil_exact (queued (some "high__raw") (pos 40) ∷ []) (pos 1))
    ≡ some []
unfolding build_queue_analytics_fallback without_raw at set ends_with
hidden_group = refl

ceil_exact-RoundsUsed : RoundsUsed ceil_exact
ceil_exact-RoundsUsed = record { half = λ n h. ground arith; most = λ n h. ground arith }

percentile-counts_example :
    (50 * 4 ≤ 100 * count_le 20 (40 ∷ 10 ∷ 30 ∷ 20 ∷ []))
    × (100 * count_lt 20 (40 ∷ 10 ∷ 30 ∷ 20 ∷ []) < 50 * 4)
    × (95 * 4 ≤ 100 * count_le 40 (40 ∷ 10 ∷ 30 ∷ 20 ∷ []))
    × (100 * count_lt 40 (40 ∷ 10 ∷ 30 ∷ 20 ∷ []) < 95 * 4)
unfolding percentile sort_numbers rank item
percentile-counts_example =
    percentile-counts ceil_exact (40 ∷ 10 ∷ 30 ∷ 20 ∷ []) ceil_exact-RoundsUsed (omega arith)
      (omega arith)
