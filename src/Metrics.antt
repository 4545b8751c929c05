-- ===== src/Metrics.antt =====
-- backend/isched_MetricsCollector.cpp and .hpp: the request metrics of each tenant. A recording is one
-- step; the interleaving of the atomic counters is not modelled. Averages are floating-point numbers,
-- whose type and arithmetic are a parameter. A time is a number of nanoseconds.
pub mod Totals
use isched.Common.{
  ℕ, suc, ◌+◌, ◌-◌, ◌*◌, ◌%◌, ◌^◌, ◌≡◌, Bool, true, false, List, [], ◌∷◌, Option, none, some, Text,
  text_eq, if◌then◌else◌, leb, ltb, max, length, Map, lookup, insert,
}

pub record Floats (F : Type 0) : Type 0 where
  pub zero_ms : F
  -- `old_avg * 0.9 + duration_ms * 0.1`.
  pub average : F → F → F
  pub plus : F → F → F
  pub divide : F → ℕ → F

-- The counters are 64-bit.
pub record TenantCounters (F : Type 0) : Type 0 where
  pub requests_in_interval : ℕ
  pub errors_in_interval : ℕ
  pub total_requests : ℕ
  pub total_errors : ℕ
  pub avg_response_ms : F
  pub interval_start_ns : ℕ
  pub interval_duration_m : ℕ

pub record ServerMetrics (F : Type 0) : Type 0 where
  pub interval_requests : ℕ
  pub interval_errors : ℕ
  pub requests_since_startup : ℕ
  pub errors_since_startup : ℕ
  pub average_ms : F
  pub tenant_count : ℕ

abbrev pub next64 : ℕ → ℕ
next64 n = (n + 1) % 2 ^ 64

abbrev pub add64 : ℕ → ℕ → ℕ
add64 a b = (a + b) % 2 ^ 64

abbrev pub minute : ℕ
minute = 60 * 1000000000

module _ {F : Type 0} (floats : Floats F) where
  abbrev pub fresh_counters : ℕ → TenantCounters F
  fresh_counters now = record {
    requests_in_interval = 0;
    errors_in_interval = 0;
    total_requests = 0;
    total_errors = 0;
    avg_response_ms = floats.zero_ms;
    interval_start_ns = now;
    interval_duration_m = 60;
  }

  abbrev pub counters_or_fresh : ℕ → Option (TenantCounters F) → TenantCounters F
  counters_or_fresh now none = fresh_counters now
  counters_or_fresh now (some tc) = tc

  unfoldable pub maybe_reset_interval : ℕ → TenantCounters F → TenantCounters F
  maybe_reset_interval now tc =
      if leb (tc.interval_duration_m * minute) (now - tc.interval_start_ns)
      then record tc { interval_start_ns = now; requests_in_interval = 0; errors_in_interval = 0 }
      else tc

  abbrev pub if_error : Bool → ℕ → ℕ
  if_error is_error n = if is_error then next64 n else n

  unfoldable pub count_request : ℕ → F → Bool → TenantCounters F → TenantCounters F
  count_request now duration_ms is_error old =
      let tc = maybe_reset_interval now old in
      record tc {
        total_requests = next64 tc.total_requests;
        requests_in_interval = next64 tc.requests_in_interval;
        total_errors = if_error is_error tc.total_errors;
        errors_in_interval = if_error is_error tc.errors_in_interval;
        avg_response_ms = floats.average tc.avg_response_ms duration_ms;
      }

  unfoldable pub record_request :
      ℕ → Text → F → Bool → Map Text (TenantCounters F) → Map Text (TenantCounters F)
  record_request now tenant_id duration_ms is_error tenants =
      insert tenant_id
        (count_request now duration_ms is_error (counters_or_fresh now (lookup tenant_id tenants)))
        tenants

  -- `minutes` is what a caller gave, 0 for a number below it.
  unfoldable pub set_interval_minutes :
      ℕ → Text → ℕ → Map Text (TenantCounters F) → Map Text (TenantCounters F)
  set_interval_minutes now org_id minutes tenants =
      let tc = counters_or_fresh now (lookup org_id tenants) in
      insert org_id (record tc { interval_duration_m = max 1 minutes }) tenants

  abbrev pub add_metrics : ServerMetrics F → TenantCounters F → ServerMetrics F
  add_metrics s tc = record {
    interval_requests = add64 s.interval_requests tc.requests_in_interval;
    interval_errors = add64 s.interval_errors tc.errors_in_interval;
    requests_since_startup = add64 s.requests_since_startup tc.total_requests;
    errors_since_startup = add64 s.errors_since_startup tc.total_errors;
    average_ms = floats.plus s.average_ms tc.avg_response_ms;
    tenant_count = s.tenant_count + 1;
  }

  -- The loop over the tenants; the average is still a sum.
  unfoldable pub sum_metrics : Map Text (TenantCounters F) → ServerMetrics F → ServerMetrics F
  sum_metrics [] s = s
  sum_metrics (entry ∷ entries) s = sum_metrics entries (add_metrics s entry.1)

  abbrev pub no_metrics : ServerMetrics F
  no_metrics = record {
    interval_requests = 0;
    interval_errors = 0;
    requests_since_startup = 0;
    errors_since_startup = 0;
    average_ms = floats.zero_ms;
    tenant_count = 0;
  }

  unfoldable pub get_server_metrics : Map Text (TenantCounters F) → ServerMetrics F
  get_server_metrics tenants =
      let s = sum_metrics tenants no_metrics in
      if ltb 0 s.tenant_count
      then record s { average_ms = floats.divide s.average_ms s.tenant_count }
      else record s { average_ms = floats.zero_ms }

  unfoldable pub get_tenant_metrics : Text → Map Text (TenantCounters F) → Option (TenantCounters F)
  get_tenant_metrics org_id tenants = lookup org_id tenants
