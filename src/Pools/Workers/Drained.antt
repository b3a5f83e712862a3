-- ===== src/Pools/Workers/Drained.antt =====
-- core/pools/worker_pool.go: without new tasks the workers come to a stop, and then all has run.
use fast_server.Pools.Workers.{
  Phase, WorkerPool, gone, is_empty, looking, take_task, waiting, worker_step, working,
}
use fast_server.Pools.Workers.Kept.{SameTasks, at_worker, count, held, pending, worker_step-kept}
use fast_server.Pools.Workers.Effort.{IsSound, effort, worker_step-Lowers}
use fast_server.Base.{
  total-zero, All, Bool, Bool-cases, List, Option, Option-cases, [], ap, arith, false, inl, inr,
  length, none, refl, some, sym, true, ℕ, ◌+◌, ◌<◌, ◌∷◌, ◌≡◌, ◌≢◌, ◌≤◌,
}

All-eq : {m n : ℕ} (ws : List ℕ) → m ≡ n → All (λ w. w < m) ws → All (λ w. w < n) ws
All-eq ws e h = rw (← e) h

module _ {T : Type 0} where
  -- Steps of workers in some order; `none` if one of them cannot be made.
  unfoldable pub run : List ℕ → WorkerPool T → Option (WorkerPool T)
  run [] p = some p
  run (w ∷ ws) p = elim (worker_step w p) [ none ↦ none | some u ↦ run ws u ]

  abbrev pub Workers : WorkerPool T → List ℕ → Type 0
  Workers p = All (λ w. w < p.num_workers)

  take_task-runs :
      (w i : ℕ) (p : WorkerPool T) → is_empty (p.queues i) ≡ false → take_task w i p ≢ none
  unfolding take_task
  take_task-runs w i p h = go (p.queues i) refl
    where
      go : (qs : List T) → p.queues i ≡ qs → take_task w i p ≢ none
      go [] q = absurd (ground (arith, h, q))
      go (task ∷ tasks) q = ground (arith, q)

  -- A worker with a task, in its queue or in its hands, can take a step.
  worker_step-runs :
      (among : T → Bool) (w : ℕ) (p : WorkerPool T)
      → IsSound p
      → worker_step w p ≡ none
      → at_worker among p w ≡ 0
  unfolding worker_step
  worker_step-runs among w p s e = go (p.phases w) refl
    where
      empty_count : (tasks : List T) → is_empty tasks ≡ true → count among tasks ≡ 0
      empty_count [] z = refl
      empty_count (task ∷ tasks) z = cc

      go : (phase : Phase T) → p.phases w ≡ phase → at_worker among p w ≡ 0
      go looking f = elim (Bool-cases (is_empty (p.queues w))) [
        | inl z ↦ omega (arith, ap (held among) f, empty_count (p.queues w) z)
        | inr z ↦ absurd (take_task-runs w w p z (ground (arith, f, z, e)))
      ]
      go waiting f = elim (Bool-cases (is_empty (p.queues w))) [
        | inl z ↦ omega (arith, ap (held among) f, empty_count (p.queues w) z)
        | inr z ↦ absurd (take_task-runs w w p z (ground (arith, f, z, e)))
      ]
      go (working task) f = absurd (ground (arith, f, e))
      go gone f = omega (arith, ap (held among) f, ap (count among) (s w f).1)

  run-Lowers :
      (among : T → Bool) (ws : List ℕ) (p u : WorkerPool T)
      → IsSound p
      → Workers p ws
      → run ws p ≡ some u
      → (length ws + effort u ≤ effort p) × SameTasks among p u × IsSound u
  unfolding run
  run-Lowers among [] p u s h e =
      let v : p ≡ u = ground (arith, e) in rw (← v) (omega arith, refl, s)
  run-Lowers among (w ∷ ws) p u s h e = elim (Option-cases (worker_step w p)) [
    | inl f ↦ absurd (ground (arith, f, e))
    | inr (v, f) ↦
        let (l, n, t) = worker_step-Lowers w p v h.0 s f in
        let (m, k, r) = run-Lowers among ws v u t (All-eq ws (sym n) h.1) (ground (arith, f, e)) in
        (omega (arith, l, m), omega (arith, k, worker_step-kept among w p v h.0 f), r)
  ]

  -- Whatever the order of the steps: there are no more of them than `effort` says, no task is lost or
  -- run twice, and when no worker can take a step any more every task that was in the pool has run.
  pub run-drains :
      (among : T → Bool) (ws : List ℕ) (p u : WorkerPool T)
      → IsSound p
      → Workers p ws
      → run ws p ≡ some u
      → (length ws + effort u ≤ effort p)
        × (pending among u + count among u.done ≡ pending among p + count among p.done)
        × (((w : ℕ) → w < u.num_workers → worker_step w u ≡ none)
            → count among u.done ≡ pending among p + count among p.done)
  run-drains among ws p u s h e =
      let (l, k, t) = run-Lowers among ws p u s h e in
      (
        l,
        k,
        λ stops. omega (
          arith,
          k,
          total-zero u.num_workers (at_worker among u)
              (λ w i. worker_step-runs among w u t (stops w i)),
        ),
      )
