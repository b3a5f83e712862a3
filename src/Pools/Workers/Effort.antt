-- ===== src/Pools/Workers/Effort.antt =====
-- core/pools/worker_pool.go: each step of a worker leaves less to do.
use fast_server.Pools.Workers.{
  Phase, WorkerPool, completed, enter_phase, find_victim, gone, is_empty, looking, take_task,
  try_steal, waiting, worker_step, working,
}
use fast_server.Pools.Workers.Kept.{find_victim-lt}
use fast_server.Base.{
  total, total-change, put, Bool-cases, List, Option-cases, [], ap, arith, inl, inr, length, refl,
  some, sym, true, ℕ, ◌%◌, ◌*◌, ◌+◌, ◌-◌, ◌<◌, ◌==◌, ◌∙◌, ◌∷◌, ◌≡◌,
}

module _ {T : Type 0} where
  -- A worker that has returned did so after the end, with an empty queue.
  abbrev pub IsSound : WorkerPool T → Type 0
  IsSound p = (w : ℕ) → p.phases w ≡ gone → (p.closed ≡ true) × (p.queues w ≡ [])

  abbrev weight : Phase T → ℕ
  weight looking = 2
  weight waiting = 1
  weight (working task) = 3
  weight gone = 0

  abbrev load : WorkerPool T → ℕ → ℕ
  load p i = 4 * length (p.queues i) + weight (p.phases i)

  -- A bound on the steps that the workers can still take.
  abbrev pub effort : WorkerPool T → ℕ
  effort p = total p.num_workers (load p)

  effort-queue :
      (i : ℕ) (tasks : List T) (p : WorkerPool T)
      → i < p.num_workers
      → effort (record p { queues = put p.queues i tasks }) + 4 * length (p.queues i)
        ≡ effort p + 4 * length tasks
  effort-queue i tasks p h = ground (
    arith,
    total-change p.num_workers i (load p) (load (record p { queues = put p.queues i tasks })) h
        (λ k e. ground (arith, e)),
  )

  effort-phase :
      (w : ℕ) (phase : Phase T) (p : WorkerPool T)
      → w < p.num_workers
      → effort (enter_phase w phase p) + weight (p.phases w) ≡ effort p + weight phase
  effort-phase w phase p h = ground (
    arith,
    total-change p.num_workers w (load p) (load (enter_phase w phase p)) h
        (λ k e. ground (arith, e)),
  )

  empty : (tasks : List T) → is_empty tasks ≡ true → tasks ≡ []
  empty [] e = refl
  empty (task ∷ tasks) e = cc

  -- A step leaves less to do, and the pool sound.
  abbrev Lowers : WorkerPool T → WorkerPool T → Type 0
  Lowers p u = (effort u < effort p) × (u.num_workers ≡ p.num_workers) × IsSound u

  take_task-Lowers :
      (w i : ℕ) (p u : WorkerPool T)
      → w < p.num_workers
      → i < p.num_workers
      → 0 < weight (p.phases w)
      → IsSound p
      → take_task w i p ≡ some u
      → Lowers p u
  unfolding take_task
  take_task-Lowers w i p u hw hi z s e = go (p.queues i) refl
    where
      go : (qs : List T) → p.queues i ≡ qs → Lowers p u
      go [] q = absurd (ground (arith, q, e))
      go (task ∷ tasks) q =
          let mid = record p { queues = put p.queues i tasks } in
          let v : enter_phase w (working task) mid ≡ u = ground (arith, q, e) in
          rw (← v) (
            omega (
              arith,
              effort-queue i tasks p hi,
              effort-phase w (working task) mid hw,
              ap length q,
              z,
            ),
            refl,
            λ k g.
                let n = s k (ground (arith, g)) in
                (
                  n.0,
                  elim (Bool-cases (i == k)) [
                    | inl same ↦
                        let t : i ≡ k = ground (arith, same) in
                        absurd (ground (arith, n.1, q, ap p.queues t))
                    | inr other ↦ ground (arith, other, n.1)
                  ],
                ),
          )

  -- A worker that does not return keeps the pool sound.
  enter_phase-Lowers :
      (w : ℕ) (phase : Phase T) (p : WorkerPool T)
      → w < p.num_workers
      → weight phase < weight (p.phases w)
      → (phase ≡ gone → (p.closed ≡ true) × (p.queues w ≡ []))
      → IsSound p
      → Lowers p (enter_phase w phase p)
  enter_phase-Lowers w phase p h l g s = (
    omega (arith, effort-phase w phase p h, l),
    refl,
    λ k e. elim (Bool-cases (w == k)) [
      | inl same ↦
          let t : w ≡ k = ground (arith, same) in
          let n = g (ground (arith, same, e)) in (n.0, ap p.queues (sym t) ∙ n.1)
      | inr other ↦ s k (ground (arith, other, e))
    ],
  )

  try_steal-Lowers :
      (w : ℕ) (p u : WorkerPool T)
      → w < p.num_workers
      → p.phases w ≡ looking
      → IsSound p
      → try_steal w p ≡ some u
      → Lowers p u
  unfolding try_steal
  try_steal-Lowers w p u h f s e =
      elim (Option-cases (find_victim (p.num_workers - 1) ((w + 1) % p.num_workers) p)) [
        | inl n ↦
            let q = record p { steals_failed = p.steals_failed + 1 } in
            let v : enter_phase w waiting q ≡ u = ground (arith, n, e) in
            rw (← v) (enter_phase-Lowers w waiting q h (omega (arith, ap weight f)) (λ g. cc) s)
        | inr (i, n) ↦
            let q = record p { steals_success = p.steals_success + 1 } in
            take_task-Lowers w i q u h
              (find_victim-lt (λ t. true) (p.num_workers - 1) ((w + 1) % p.num_workers) i p
                (omega (arith, h)) n)
              (omega (arith, ap weight f)) s (ground (arith, n, e))
      ]

  pub worker_step-Lowers :
      (w : ℕ) (p u : WorkerPool T)
      → w < p.num_workers
      → IsSound p
      → worker_step w p ≡ some u
      → Lowers p u
  unfolding worker_step
  worker_step-Lowers w p u h s e = go (p.phases w) refl
    where
      leave :
          0 < weight (p.phases w)
          → p.closed ≡ true
          → is_empty (p.queues w) ≡ true
          → enter_phase w gone p ≡ u
          → Lowers p u
      leave z c n v = rw (← v) (enter_phase-Lowers w gone p h z (λ g. (c, empty (p.queues w) n)) s)

      go : (phase : Phase T) → p.phases w ≡ phase → Lowers p u
      go looking f =
          let z : 0 < weight (p.phases w) = omega (arith, ap weight f) in
          elim (Bool-cases (is_empty (p.queues w))) [
            | inr some_task ↦ take_task-Lowers w w p u h h z s (ground (arith, f, some_task, e))
            | inl no_task ↦ elim (Bool-cases p.closed) [
              | inl shut ↦ leave z shut no_task (ground (arith, f, no_task, shut, e))
              | inr runs ↦ try_steal-Lowers w p u h f s (ground (arith, f, no_task, runs, e))
            ]
          ]
      go waiting f =
          let z : 0 < weight (p.phases w) = omega (arith, ap weight f) in
          elim (Bool-cases (is_empty (p.queues w))) [
            | inr some_task ↦ take_task-Lowers w w p u h h z s (ground (arith, f, some_task, e))
            | inl no_task ↦ elim (Bool-cases p.closed) [
              | inl shut ↦ leave z shut no_task (ground (arith, f, no_task, shut, e))
              | inr runs ↦ absurd (ground (arith, f, no_task, runs, e))
            ]
          ]
      go (working task) f =
          let v : enter_phase w looking (completed task p) ≡ u = ground (arith, f, e) in
          rw (← v) (
            enter_phase-Lowers w looking (completed task p) h (omega (arith, ap weight f)) (λ g. cc)
              s)
      go gone f = absurd (ground (arith, f, e))
