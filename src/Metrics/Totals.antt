-- ===== src/Metrics/Totals.antt =====
-- The totals over all tenants.
use isched.Common.{
  ℕ, ◌+◌, ◌%◌, ◌^◌, ◌<◌, ◌≡◌, refl, Bool, List, [], ◌∷◌, Option, none, some, Text, text_eq,
  if◌then◌else◌, max, length, Map, lookup, insert, arith,
}
use isched.Metrics.{
  Floats, TenantCounters, ServerMetrics, counters_or_fresh, maybe_reset_interval, count_request,
  record_request, set_interval_minutes, sum_metrics, add_metrics, no_metrics, get_server_metrics,
}

-- What is done to a collector.
pub data Event (F : Type 0) : Type 0 where
  requests : ℕ → Text → F → Bool → Event F
  sets_interval : ℕ → Text → ℕ → Event F

module _ {F : Type 0} (floats : Floats F) where
  unfoldable pub apply_event : Event F → Map Text (TenantCounters F) → Map Text (TenantCounters F)
  apply_event (requests now tenant ms failed) tenants =
      record_request floats now tenant ms failed tenants
  apply_event (sets_interval now tenant minutes) tenants =
      set_interval_minutes floats now tenant minutes tenants

  -- The events, the last one first.
  unfoldable pub collect : List (Event F) → Map Text (TenantCounters F)
  collect [] = []
  collect (e ∷ earlier) = apply_event e (collect earlier)

abbrev pub is_request : {F : Type 0} → Event F → ℕ
is_request (requests now tenant ms failed) = 1
is_request (sets_interval now tenant minutes) = 0

abbrev pub is_failure : {F : Type 0} → Event F → ℕ
is_failure (requests now tenant ms failed) = if failed then 1 else 0
is_failure (sets_interval now tenant minutes) = 0

unfoldable pub count_events : {F : Type 0} → (Event F → ℕ) → List (Event F) → ℕ
count_events weight [] = 0
count_events weight (e ∷ es) = weight e + count_events weight es

module _ {F : Type 0} where
  -- The sum of a counter, without wrap-around.
  sum_of : (TenantCounters F → ℕ) → Map Text (TenantCounters F) → ℕ
  sum_of counter [] = 0
  sum_of counter (entry ∷ entries) = counter entry.1 + sum_of counter entries

  value_or_zero : (TenantCounters F → ℕ) → Option (TenantCounters F) → ℕ
  value_or_zero counter none = 0
  value_or_zero counter (some tc) = counter tc

  sum_of-insert :
      (counter : TenantCounters F → ℕ) (key : Text) (new : TenantCounters F)
      (m : Map Text (TenantCounters F))
      → sum_of counter (insert key new m) + value_or_zero counter (lookup key m)
        ≡ sum_of counter m + counter new
  unfolding sum_of value_or_zero insert lookup
  sum_of-insert counter key new [] = ground arith
  sum_of-insert counter key new ((at, old) ∷ m) = ground (arith, sum_of-insert counter key new m)

  abbrev total_of : TenantCounters F → ℕ
  total_of tc = tc.total_requests

  abbrev errors_of : TenantCounters F → ℕ
  errors_of tc = tc.total_errors

module _ {F : Type 0} (floats : Floats F) where
  requests-collect :
      (es : List (Event F))
      → sum_of total_of (collect floats es) % 2 ^ 64 ≡ count_events is_request es % 2 ^ 64
  unfolding collect apply_event count_events sum_of value_or_zero record_request count_request
      maybe_reset_interval set_interval_minutes
  requests-collect [] = refl
  requests-collect (requests now tenant ms failed ∷ es) =
      let m = collect floats es in
      let old = counters_or_fresh floats now (lookup tenant m) in
      ground (
        arith,
        requests-collect es,
        sum_of-insert total_of tenant (count_request floats now ms failed old) m,
      )
  requests-collect (sets_interval now tenant minutes ∷ es) =
      let m = collect floats es in
      let old = counters_or_fresh floats now (lookup tenant m) in
      ground (
        arith,
        requests-collect es,
        sum_of-insert total_of tenant (record old { interval_duration_m = max 1 minutes }) m,
      )

  errors-collect :
      (es : List (Event F))
      → sum_of errors_of (collect floats es) % 2 ^ 64 ≡ count_events is_failure es % 2 ^ 64
  unfolding collect apply_event count_events sum_of value_or_zero record_request count_request
      maybe_reset_interval set_interval_minutes
  errors-collect [] = refl
  errors-collect (requests now tenant ms failed ∷ es) =
      let m = collect floats es in
      let old = counters_or_fresh floats now (lookup tenant m) in
      ground (
        arith,
        errors-collect es,
        sum_of-insert errors_of tenant (count_request floats now ms failed old) m,
      )
  errors-collect (sets_interval now tenant minutes ∷ es) =
      let m = collect floats es in
      let old = counters_or_fresh floats now (lookup tenant m) in
      ground (
        arith,
        errors-collect es,
        sum_of-insert errors_of tenant (record old { interval_duration_m = max 1 minutes }) m,
      )

  sum_metrics-sums :
      (m : Map Text (TenantCounters F)) (s : ServerMetrics F)
      → s.requests_since_startup < 2 ^ 64
      → s.errors_since_startup < 2 ^ 64
      → ((sum_metrics floats m s).requests_since_startup
          ≡ (s.requests_since_startup + sum_of total_of m) % 2 ^ 64)
        × ((sum_metrics floats m s).errors_since_startup
            ≡ (s.errors_since_startup + sum_of errors_of m) % 2 ^ 64)
        × ((sum_metrics floats m s).tenant_count ≡ s.tenant_count + length m)
  unfolding sum_metrics sum_of
  sum_metrics-sums [] s h i = (omega arith, omega arith, omega arith)
  sum_metrics-sums (entry ∷ m) s h i =
      let (a, b, c) =
        sum_metrics-sums m (add_metrics floats s entry.1) (omega arith) (omega arith) in
      (ground (arith, a), ground (arith, b), ground (arith, c))

  -- Whatever requests are recorded for whichever tenants, and however their intervals are set in
  -- between, the server's totals are the numbers of all requests and of all failed ones, modulo 2 ^ 64,
  -- and its tenants are those that the collector has counters of.
  pub get_server_metrics-totals :
      (es : List (Event F))
      → ((get_server_metrics floats (collect floats es)).requests_since_startup
          ≡ count_events is_request es % 2 ^ 64)
        × ((get_server_metrics floats (collect floats es)).errors_since_startup
            ≡ count_events is_failure es % 2 ^ 64)
        × ((get_server_metrics floats (collect floats es)).tenant_count
            ≡ length (collect floats es))
  unfolding get_server_metrics
  get_server_metrics-totals es =
      let (a, b, c) =
        sum_metrics-sums (collect floats es) (no_metrics floats) (omega arith) (omega arith) in
      (
        ground (arith, a, requests-collect es),
        ground (arith, b, errors-collect es),
        ground (arith, c),
      )
