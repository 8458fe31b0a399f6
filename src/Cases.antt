-- ===== src/Cases.antt =====
-- The numbers on the queue of cases: frontend/src/app/cases/page.tsx, lines 96 to 162. Times are whole
-- seconds, and a share is a whole number of hundredths. `Math.ceil(p * n)`, of a product of floating
-- point numbers, is the parameter `ceil_product`. An object is a table that has no key of its prototype.
pub mod Groups
pub mod Percentile
pub mod RawKeys
mod Tests
use Prim.Native.String.{[], ◌∷◌}
use mathlib.Core.Option
use lang_orch.Base.{
  ℕ, zero, suc, ◌+◌, ◌-◌, ◌*◌, ◌<◌, String, Bool, true, false, not, ◌&&◌, ◌||◌, ◌>>=◌, ◌<>◌, ◌||◌,
  Option, none, some, get_or, List, [], ◌∷◌, ◌++◌, length, map, keep, item, if◌then◌else◌, leb, ltb,
  ◌==◌, is_empty, ℤ, pos, negsuc, ltb_ℤ, at, set,
}

pub record CaseQueueItem : Type 0 where
  pub owner : Option String
  pub priority : Option String
  pub case_type : Option String
  pub is_sla_breached : Bool
  pub sla_remaining_seconds : Option ℤ
  pub age_seconds : ℤ

insert_number : ℕ → List ℕ → List ℕ
insert_number n [] = n ∷ []
insert_number n (m ∷ ms) =
    let later = insert_number n ms in if ltb m n then m ∷ later else n ∷ m ∷ ms

unfoldable pub sort_numbers : List ℕ → List ℕ
unfolding insert_number
sort_numbers [] = []
sort_numbers (n ∷ ns) = insert_number n (sort_numbers ns)

module _ (ceil_product : ℕ → ℕ → ℕ) where
  -- `Math.ceil(p * n) - 1`, at least 0 and at most `n - 1`
  unfoldable pub rank : ℕ → ℕ → ℕ
  rank hundredths n = let i = ceil_product hundredths n - 1 in if leb n i then n - 1 else i

  unfoldable pub percentile : List ℕ → ℕ → ℕ
  unfolding sort_numbers rank
  percentile values hundredths = item 0 (sort_numbers values) (rank hundredths (length values))

-- `Math.max(0, item.age_seconds || 0)`
abbrev pub wait_of : CaseQueueItem → ℕ
wait_of c = elim c.age_seconds [ pos n ↦ n | negsuc n ↦ 0 ]

pub record GroupStats : Type 0 where
  pub count : ℕ
  pub wait_p50_seconds : ℕ
  pub wait_p95_seconds : ℕ

-- What a bucket holds: the numbers of a group, and under another key the array of its waits.
pub data GroupEntry : Type 0 where
  stats : GroupStats → GroupEntry
  raw : List ℕ → GroupEntry

abbrev pub Bucket : Type 0
Bucket = List (String × GroupEntry)

abbrev pub raw_key : String → String
raw_key key = key <> "__raw"

-- `raw ?? []`; the numbers of a group have no `push`, so that the code throws on them.
abbrev pub raw_values : Option GroupEntry → Option (List ℕ)
raw_values none = some []
raw_values (some (raw values)) = some values
raw_values (some (stats _)) = none

-- `key.endsWith(suffix)`
unfoldable pub ends_with : String → String → Bool
ends_with suffix [] = is_empty suffix
ends_with suffix (c ∷ s) = c ∷ s == suffix || ends_with suffix s

unfoldable pub without_raw : Bucket → Bucket
unfolding ends_with
without_raw b = keep (λ (e : String × GroupEntry). not (ends_with "__raw" e.0)) b

module _ (ceil_product : ℕ → ℕ → ℕ) where
  unfoldable pub stats_of : List ℕ → GroupStats
  unfolding percentile
  stats_of values = record {
    count = length values;
    wait_p50_seconds = percentile ceil_product values 50;
    wait_p95_seconds = percentile ceil_product values 95;
  }

  -- `none` where the code throws.
  unfoldable pub add_grouped : Bucket → String → ℕ → Option Bucket
  unfolding stats_of
  add_grouped bucket key wait = do
    before ← raw_values (at (raw_key key) bucket)
    let values = before ++ wait ∷ []
    some (set (raw_key key) (raw values) (set key (stats (stats_of values)) bucket))

-- `key || "unknown"`
abbrev pub key_or_unknown : Option String → String
key_or_unknown none = "unknown"
key_or_unknown (some k) = if is_empty k then "unknown" else k

module _ (ceil_product : ℕ → ℕ → ℕ) (key_of : CaseQueueItem → Option String) where
  unfoldable pub add_all : List CaseQueueItem → Bucket → Option Bucket
  unfolding add_grouped
  add_all [] b = some b
  add_all (c ∷ cs) b = do
    after ← add_grouped ceil_product b (key_or_unknown (key_of c)) (wait_of c)
    add_all cs after

abbrev is_unowned : CaseQueueItem → Bool
is_unowned c = elim c.owner [ none ↦ true | some o ↦ is_empty o ]

-- Not breached yet, with no more time left than the window
abbrev is_at_risk : ℕ → CaseQueueItem → Bool
is_at_risk window c =
    not c.is_sla_breached
    && (elim c.sla_remaining_seconds [ none ↦ false | some s ↦ not (ltb_ℤ (pos window) s) ])

pub record CaseQueueAnalytics : Type 0 where
  pub total_active_cases : ℕ
  pub unassigned_cases : ℕ
  pub breached_cases : ℕ
  pub breach_risk_next_window_cases : ℕ
  pub wait_p50_seconds : ℕ
  pub wait_p95_seconds : ℕ
  pub wait_by_priority : Bucket
  pub wait_by_case_type : Bucket

abbrev minutes : ℤ → ℕ
minutes (pos n) = n
minutes (negsuc n) = 0

-- The share of cases at risk, which follows from two of the numbers, and the two rates, which are 0, are left out.
unfoldable pub build_queue_analytics_fallback :
    (ℕ → ℕ → ℕ) → List CaseQueueItem → ℤ → Option CaseQueueAnalytics
unfolding add_all percentile without_raw
build_queue_analytics_fallback ceil_product items risk_window_minutes = do
  by_priority ← add_all ceil_product (λ (c : CaseQueueItem). c.priority) items []
  by_case_type ← add_all ceil_product (λ (c : CaseQueueItem). c.case_type) items []
  let waits = map (λ c. wait_of c) items
  some (record {
    total_active_cases = length items;
    unassigned_cases = length (keep (λ c. is_unowned c) items);
    breached_cases = length (keep (λ (c : CaseQueueItem). c.is_sla_breached) items);
    breach_risk_next_window_cases =
        length (keep (λ c. is_at_risk (minutes risk_window_minutes * 60) c) items);
    wait_p50_seconds = percentile ceil_product waits 50;
    wait_p95_seconds = percentile ceil_product waits 95;
    wait_by_priority = without_raw by_priority;
    wait_by_case_type = without_raw by_case_type;
  })
