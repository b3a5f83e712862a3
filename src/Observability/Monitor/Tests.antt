-- ===== src/Observability/Monitor/Tests.antt =====
-- core/observability/monitor.go: some requests of two handlers.
use fast_server.Base.{
  All, ◌<◌, List, [], arith, bytes_eq, codes, false, insert, length, lookup, refl, true, ◌%◌, ◌∷◌,
  ◌≡◌,
}
use fast_server.Observability.Monitor.{
  detect_bottlenecks, metrics_of, new_metrics, new_monitor, record_metrics, record_request,
  update_latency_bucket, update_min_max,
}
use fast_server.Observability.Monitor.Totals.{
  Request, durations, failures, metrics_of-totals, quickest, record_all, requests_of, slowest,
}

abbrev some_requests : List Request
some_requests = (codes "a", 5, false) ∷ (codes "b", 7, true) ∷ (codes "a", 300000000, true) ∷ []

take_time : All (λ (d, is_error). 0 < d) (requests_of (codes "a") some_requests)
unfolding bytes_eq
take_time = (omega arith, (omega arith, tt))

metrics_of-totals_example :
    let es = requests_of (codes "a") some_requests in
    let m = metrics_of (codes "a") (record_all some_requests new_monitor) in
    (m.count ≡ length es % 18446744073709551616)
    × (m.errors ≡ failures es % 18446744073709551616)
    × (m.total_duration ≡ durations es % 18446744073709551616)
    × (m.max_duration ≡ slowest es)
    × (m.min_duration ≡ quickest es)
metrics_of-totals_example = metrics_of-totals (codes "a") some_requests take_time

-- A request that took no time is forgotten as the least.
forgotten :
    (metrics_of
      (codes "a")
      (record_all ((codes "a", 0, false) ∷ (codes "a", 9, false) ∷ []) new_monitor)).min_duration
    ≡ 9
unfolding record_request record_metrics update_min_max update_latency_bucket insert lookup bytes_eq
forgotten = refl

slow_handler :
    length (detect_bottlenecks ((codes "a", record_metrics 300000000 true new_metrics) ∷ [])) ≡ 2
unfolding detect_bottlenecks record_metrics update_min_max update_latency_bucket
slow_handler = refl
