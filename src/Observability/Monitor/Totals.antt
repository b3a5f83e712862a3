-- ===== src/Observability/Monitor/Totals.antt =====
-- core/observability/monitor.go: what the metrics of a handler say of its requests.
use fast_server.Base.{
  All, Bool, Bool-cases, Bytes, List, [], ap, arith, bytes_eq, bytes_eq_iff, if◌then◌else◌, inl,
  inr, length, lookup, lookup-insert, ltb, refl, true, ℕ, ◌%◌, ◌+◌, ◌<◌, ◌==◌, ◌∙◌, ◌∷◌, ◌≡◌,
  bytes_key,
}
use fast_server.Observability.Monitor.{
  HandlerMetrics, PerformanceMonitor, metrics_of, new_metrics, new_monitor, record_metrics,
  record_request, update_latency_bucket, update_min_max,
}

-- A request: its handler, its duration, and whether it failed.
abbrev pub Request : Type 0
Request = Bytes × ℕ × Bool

-- Recordings, the first request first.
abbrev pub record_all : List Request → PerformanceMonitor → PerformanceMonitor
record_all [] pm = pm
record_all ((handler, d, is_error) ∷ rs) pm = record_all rs (record_request handler d is_error pm)

abbrev pub record_each : List (ℕ × Bool) → HandlerMetrics → HandlerMetrics
record_each [] m = m
record_each ((d, is_error) ∷ es) m = record_each es (record_metrics d is_error m)

-- The requests of one handler.
abbrev pub requests_of : Bytes → List Request → List (ℕ × Bool)
requests_of handler [] = []
requests_of handler ((name, d, is_error) ∷ rs) =
    if bytes_eq name handler then (d, is_error) ∷ requests_of handler rs else requests_of handler rs

abbrev pub durations : List (ℕ × Bool) → ℕ
durations [] = 0
durations ((d, is_error) ∷ es) = d + durations es

abbrev pub failures : List (ℕ × Bool) → ℕ
failures [] = 0
failures ((d, is_error) ∷ es) = (if is_error then 1 else 0) + failures es

abbrev pub slowest : List (ℕ × Bool) → ℕ
slowest [] = 0
slowest ((d, is_error) ∷ es) = let rest = slowest es in if ltb rest d then d else rest

-- The least duration, 0 if there is none.
abbrev pub quickest : List (ℕ × Bool) → ℕ
quickest [] = 0
quickest ((d, is_error) ∷ es) =
    let rest = quickest es in if rest == 0 then d else if ltb d rest then d else rest

metrics_of-record_request :
    (name handler : Bytes) (d : ℕ) (is_error : Bool) (pm : PerformanceMonitor)
    → pm.enabled ≡ true
    → metrics_of handler (record_request name d is_error pm) ≡ (
        if bytes_eq name handler
        then record_metrics d is_error (metrics_of name pm)
        else metrics_of handler pm)
unfolding record_request
metrics_of-record_request name handler d is_error pm e = ground (
  arith,
  e,
  lookup-insert name handler (record_metrics d is_error (metrics_of name pm)) pm.handlers,
)

metrics_of-record_all :
    (handler : Bytes) (rs : List Request) (pm : PerformanceMonitor)
    → pm.enabled ≡ true
    → metrics_of handler (record_all rs pm)
      ≡ record_each (requests_of handler rs) (metrics_of handler pm)
unfolding record_request
metrics_of-record_all handler [] pm e = refl
metrics_of-record_all handler ((name, d, is_error) ∷ rs) pm e =
    let next = record_request name d is_error pm in
    let on : next.enabled ≡ true = ground (arith, e) in
    let behind = metrics_of-record_all handler rs next on in
    let first = metrics_of-record_request name handler d is_error pm e in
    elim (Bool-cases (bytes_eq name handler)) [
      | inl same ↦
          let s : metrics_of name pm ≡ metrics_of handler pm =
            ap (λ n. metrics_of n pm) ((bytes_eq_iff name handler).0 same) in
          let here : metrics_of handler next ≡ record_metrics d is_error (metrics_of handler pm) =
            ground (arith, same, first, ap (record_metrics d is_error) s) in
          rw same (behind ∙ ap (record_each (requests_of handler rs)) here)
      | inr different ↦
          let here : metrics_of handler next ≡ metrics_of handler pm =
            ground (arith, different, first) in
          rw different (behind ∙ ap (record_each (requests_of handler rs)) here)
    ]

record_each-count :
    (es : List (ℕ × Bool)) (m : HandlerMetrics)
    → m.count < 18446744073709551616
    → (record_each es m).count ≡ (m.count + length es) % 18446744073709551616
unfolding record_metrics update_latency_bucket update_min_max
record_each-count [] m h = ground (arith, h)
record_each-count ((d, is_error) ∷ es) m h =
    ground (arith, h, record_each-count es (record_metrics d is_error m))

record_each-total :
    (es : List (ℕ × Bool)) (m : HandlerMetrics)
    → m.total_duration < 18446744073709551616
    → (record_each es m).total_duration ≡ (m.total_duration + durations es) % 18446744073709551616
unfolding record_metrics update_latency_bucket update_min_max
record_each-total [] m h = ground (arith, h)
record_each-total ((d, is_error) ∷ es) m h =
    ground (arith, h, record_each-total es (record_metrics d is_error m))

record_each-errors :
    (es : List (ℕ × Bool)) (m : HandlerMetrics)
    → m.errors < 18446744073709551616
    → (record_each es m).errors ≡ (m.errors + failures es) % 18446744073709551616
unfolding record_metrics update_latency_bucket update_min_max
record_each-errors [] m h = ground (arith, h)
record_each-errors ((d, is_error) ∷ es) m h =
    ground (arith, h, record_each-errors es (record_metrics d is_error m))

record_each-max :
    (es : List (ℕ × Bool)) (m : HandlerMetrics)
    → (record_each es m).max_duration
      ≡ (if ltb (slowest es) m.max_duration then m.max_duration else slowest es)
unfolding record_metrics update_latency_bucket update_min_max
record_each-max [] m = ground arith
record_each-max ((d, is_error) ∷ es) m =
    ground (arith, record_each-max es (record_metrics d is_error m))

record_each-min :
    (es : List (ℕ × Bool)) (m : HandlerMetrics)
    → All (λ (d, is_error). 0 < d) es
    → (record_each es m).min_duration ≡ (
        if m.min_duration == 0
        then quickest es
        else if quickest es == 0
        then m.min_duration
        else if ltb (quickest es) m.min_duration
        then quickest es
        else m.min_duration)
unfolding record_metrics update_latency_bucket update_min_max
record_each-min [] m w = ground arith
record_each-min ((d, is_error) ∷ es) m w =
    ground (arith, w.0, record_each-min es (record_metrics d is_error m) w.1)

metrics_of-new_monitor : (handler : Bytes) → metrics_of handler new_monitor ≡ new_metrics
unfolding lookup
metrics_of-new_monitor handler = refl

-- Where no recorded duration is 0, the metrics of a handler have how many requests it had, how many of them
-- failed, and the sum of their durations, all up to 64 bits, and the greatest and the least duration.
pub metrics_of-totals :
    (handler : Bytes) (rs : List Request)
    → All (λ (d, is_error). 0 < d) (requests_of handler rs)
    → let es = requests_of handler rs in
      let m = metrics_of handler (record_all rs new_monitor) in
      (m.count ≡ length es % 18446744073709551616)
      × (m.errors ≡ failures es % 18446744073709551616)
      × (m.total_duration ≡ durations es % 18446744073709551616)
      × (m.max_duration ≡ slowest es)
      × (m.min_duration ≡ quickest es)
metrics_of-totals handler rs w =
    let es = requests_of handler rs in
    let same =
      metrics_of-record_all handler rs new_monitor refl
      ∙ ap (record_each es) (metrics_of-new_monitor handler) in
    (
      ap (λ m. m.count) same ∙ ground (arith, record_each-count es new_metrics (omega arith)),
      ap (λ m. m.errors) same ∙ ground (arith, record_each-errors es new_metrics (omega arith)),
      ap (λ m. m.total_duration) same
          ∙ ground (arith, record_each-total es new_metrics (omega arith)),
      ap (λ m. m.max_duration) same ∙ ground (arith, record_each-max es new_metrics),
      ap (λ m. m.min_duration) same ∙ ground (arith, record_each-min es new_metrics w),
    )
