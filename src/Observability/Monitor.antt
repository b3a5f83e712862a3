-- ===== src/Observability/Monitor.antt =====
-- core/observability/monitor.go: `PerformanceMonitor`. Durations are nanoseconds as uint64, counters wrap at
-- 64 bits. One recording runs at a time, so that a compare-and-swap succeeds at once.
pub mod Totals
mod Tests
use fast_server.Base.{
  Bool, Bytes, List, Option, [], codes, false, get_or, if◌then◌else◌, insert, lookup, ltb, none,
  set, some, true, ℕ, ◌%◌, ◌&&◌, ◌*◌, ◌++◌, ◌+◌, ◌-◌, ◌/◌, ◌==◌, ◌||◌, ◌∷◌, bytes_key,
}

-- `Add` on a uint64.
abbrev pub add_uint64 : ℕ → ℕ → ℕ
add_uint64 a b = (a + b) % 18446744073709551616

-- `HandlerMetrics`, without its name, which is its key, and the two counters that nothing writes.
pub record HandlerMetrics : Type 0 where
  pub count : ℕ
  pub errors : ℕ
  pub total_duration : ℕ
  pub min_duration : ℕ
  pub max_duration : ℕ
  pub latency_buckets : List ℕ

abbrev pub new_metrics : HandlerMetrics
new_metrics = record {
  count = 0;
  errors = 0;
  total_duration = 0;
  min_duration = 0;
  max_duration = 0;
  latency_buckets = 0 ∷ 0 ∷ 0 ∷ 0 ∷ 0 ∷ 0 ∷ 0 ∷ 0 ∷ 0 ∷ 0 ∷ [];
}

pub record PerformanceMonitor : Type 0 where
  pub enabled : Bool
  pub handlers : List (Bytes × HandlerMetrics)
  pub total_requests : ℕ
  pub total_duration : ℕ

-- `NewPerformanceMonitor`
abbrev pub new_monitor : PerformanceMonitor
new_monitor = record { enabled = true; handlers = []; total_requests = 0; total_duration = 0 }

-- `updateMinMax`
pub update_min_max : ℕ → HandlerMetrics → HandlerMetrics
update_min_max d m = record m {
  min_duration = if m.min_duration == 0 || ltb d m.min_duration then d else m.min_duration;
  max_duration = if ltb m.max_duration d then d else m.max_duration;
}

-- The cases of `updateLatencyBucket`, by milliseconds.
pub bucket_index : ℕ → ℕ
bucket_index ms =
    if ltb ms 1
    then 0
    else if ltb ms 5
    then 1
    else if ltb ms 10
    then 2
    else if ltb ms 50
    then 3
    else if ltb ms 100
    then 4
    else if ltb ms 500
    then 5
    else if ltb ms 1000
    then 6
    else if ltb ms 5000
    then 7
    else if ltb ms 10000
    then 8
    else 9

pub update_latency_bucket : ℕ → HandlerMetrics → HandlerMetrics
update_latency_bucket d m =
    let idx = bucket_index (d / 1000000) in
    record m {
      latency_buckets = set m.latency_buckets idx (add_uint64 (get_or m.latency_buckets idx 0) 1);
    }

-- What `RecordRequest` does to the metrics of the handler.
pub record_metrics : ℕ → Bool → HandlerMetrics → HandlerMetrics
record_metrics d is_error m = update_latency_bucket d (
    update_min_max d (record m {
      count = add_uint64 m.count 1;
      errors = if is_error then add_uint64 m.errors 1 else m.errors;
      total_duration = add_uint64 m.total_duration d;
    }))

-- `LoadOrStore`
abbrev pub metrics_of : Bytes → PerformanceMonitor → HandlerMetrics
metrics_of handler pm = elim (lookup handler pm.handlers) [ none ↦ new_metrics | some m ↦ m ]

-- `RecordRequest`
pub record_request : Bytes → ℕ → Bool → PerformanceMonitor → PerformanceMonitor
record_request handler d is_error pm =
    if pm.enabled
    then record pm {
      handlers = insert handler (record_metrics d is_error (metrics_of handler pm)) pm.handlers;
      total_requests = add_uint64 pm.total_requests 1;
      total_duration = add_uint64 pm.total_duration d;
    }
    else pm

-- `Bottleneck`, by type, location and severity.
pub record Bottleneck : Type 0 where
  pub kind : Bytes
  pub location : Bytes
  pub severity : ℕ

abbrev pub when : Bool → Bottleneck → List Bottleneck → List Bottleneck
when test b rest = if test then b ∷ rest else rest

-- `detectBottlenecks`, in the order in which `Range` meets the handlers. The quotient of two counts below
-- 2^50 is over 0.05 as a float64 exactly if it is.
pub detect_bottlenecks : List (Bytes × HandlerMetrics) → List Bottleneck
detect_bottlenecks [] = []
detect_bottlenecks ((name, m) ∷ handlers) =
    let rest = detect_bottlenecks handlers in
    if m.count == 0
    then rest
    else when (ltb 100000000 (m.total_duration / m.count))
        (record { kind = codes "latency"; location = name; severity = 8 })
        (when (ltb 0 m.errors && ltb m.count (20 * m.errors))
          (record { kind = codes "errors"; location = name; severity = 10 }) rest)

-- `StartTrace` and `EndTrace`, at a time; the clock does not go back.
abbrev pub start_trace : ℕ → PerformanceMonitor → ℕ
start_trace now pm = if pm.enabled then now else 0

abbrev pub end_trace : Bytes → ℕ → Bool → ℕ → PerformanceMonitor → PerformanceMonitor
end_trace handler start_time is_error now pm =
    if start_time == 0 then pm else record_request handler (now - start_time) is_error pm
