-- ===== src/Pools/Workers/Kept.antt =====
-- core/pools/worker_pool.go: no task is lost, and none runs twice.
use fast_server.Pools.Workers.{
  Phase, WorkerPool, accepted, completed, enter_phase, find_victim, gone, is_empty, looking, place,
  push, queue_size, submit, take_task, try_steal, waiting, worker_step, working,
}
use fast_server.Base.{
  total, total-change, put, Bool, Bool-cases, List, Option-cases, [], ap, arith, if◌then◌else◌, inl,
  inr, length, ltb, refl, some, suc, zero, ℕ, ◌%◌, ◌++◌, ◌+◌, ◌-◌, ◌<◌, ◌∷◌, ◌≡◌,
}

module _ {T : Type 0} (among : T → Bool) where
  -- How many tasks of a kind there are in a list, with a worker, in the queues and with the workers.
  abbrev pub one : T → ℕ
  one task = if among task then 1 else 0

  abbrev pub count : List T → ℕ
  count [] = 0
  count (task ∷ tasks) = one task + count tasks

  abbrev pub held : Phase T → ℕ
  held (working task) = one task
  held _ = 0

  abbrev pub at_worker : WorkerPool T → ℕ → ℕ
  at_worker p i = count (p.queues i) + held (p.phases i)

  abbrev pub pending : WorkerPool T → ℕ
  pending p = total p.num_workers (at_worker p)

  count-append : (xs ys : List T) → count (xs ++ ys) ≡ count xs + count ys
  count-append [] ys = omega arith
  count-append (x ∷ xs) ys = omega (arith, count-append xs ys)

  pending-queue :
      (i : ℕ) (tasks : List T) (p : WorkerPool T)
      → i < p.num_workers
      → pending (record p { queues = put p.queues i tasks }) + count (p.queues i)
        ≡ pending p + count tasks
  pending-queue i tasks p h = ground (
    arith,
    total-change p.num_workers i (at_worker p)
        (at_worker (record p { queues = put p.queues i tasks })) h (λ k e. ground (arith, e)),
  )

  pending-phase :
      (w : ℕ) (phase : Phase T) (p : WorkerPool T)
      → w < p.num_workers
      → pending (enter_phase w phase p) + held (p.phases w) ≡ pending p + held phase
  pending-phase w phase p h = ground (
    arith,
    total-change p.num_workers w (at_worker p) (at_worker (enter_phase w phase p)) h
        (λ k e. ground (arith, e)),
  )

  pending-push :
      (i : ℕ) (task : T) (p : WorkerPool T)
      → i < p.num_workers
      → pending (push i task p) ≡ pending p + one task
  pending-push i task p h =
      omega (
        arith,
        pending-queue i (p.queues i ++ task ∷ []) p h,
        count-append (p.queues i) (task ∷ []),
      )

  -- A task that is accepted is in the pool, or it has run.
  pub submit-kept :
      (task : T) (p u : WorkerPool T)
      → 0 < p.num_workers
      → submit task p ≡ accepted u
      → pending u + count u.done ≡ pending p + count p.done + one task
  unfolding submit place
  submit-kept task p u n e =
      let q = record p { tasks_submitted = p.tasks_submitted + 1 } in
      let i = q.tasks_submitted % q.num_workers in
      let j = (i + 1) % q.num_workers in
      let hi : i < q.num_workers = omega (arith, n) in
      let hj : j < q.num_workers = omega (arith, n) in
      elim (Bool-cases p.closed) [
        | inl shut ↦ absurd (ground (arith, shut, e))
        | inr c ↦ elim (Bool-cases (ltb (length (p.queues i)) queue_size)) [
          | inl r ↦
              let v : push i task q ≡ u = ground (arith, c, r, e) in
              rw (← v) (omega (arith, pending-push i task q hi))
          | inr f ↦ elim (Bool-cases (ltb (length (p.queues j)) queue_size)) [
            | inl r ↦
                let v : push j task q ≡ u = ground (arith, c, f, r, e) in
                rw (← v) (omega (arith, pending-push j task q hj))
            | inr g ↦
                let v : completed task q ≡ u = ground (arith, c, f, g, e) in
                rw (← v) (omega (arith, count-append p.done (task ∷ [])))
          ]
        ]
      ]

  -- The effect of a step on the tasks that are in the pool and on those that have run.
  abbrev pub SameTasks : WorkerPool T → WorkerPool T → Type 0
  SameTasks p u = pending u + count u.done ≡ pending p + count p.done

  take_task-kept :
      (w i : ℕ) (p u : WorkerPool T)
      → w < p.num_workers
      → i < p.num_workers
      → held (p.phases w) ≡ 0
      → take_task w i p ≡ some u
      → SameTasks p u
  unfolding take_task
  take_task-kept w i p u hw hi z e = go (p.queues i) refl
    where
      go : (qs : List T) → p.queues i ≡ qs → SameTasks p u
      go [] q = absurd (ground (arith, q, e))
      go (task ∷ tasks) q =
          let mid = record p { queues = put p.queues i tasks } in
          let v : enter_phase w (working task) mid ≡ u = ground (arith, q, e) in
          rw (← v) (
            omega (
              arith,
              pending-queue i tasks p hi,
              pending-phase w (working task) mid hw,
              ap count q,
              z,
            ))

  pub find_victim-lt :
      (n at v : ℕ) (p : WorkerPool T)
      → 0 < p.num_workers
      → find_victim n at p ≡ some v
      → v < p.num_workers
  unfolding find_victim
  find_victim-lt zero at v p h e = cc
  find_victim-lt (suc n) at v p h e =
      let l : at % p.num_workers < p.num_workers = omega (arith, h) in
      ground (arith, l, e, find_victim-lt n (at + 1) v p h)

  try_steal-kept :
      (w : ℕ) (p u : WorkerPool T)
      → w < p.num_workers
      → held (p.phases w) ≡ 0
      → try_steal w p ≡ some u
      → SameTasks p u
  unfolding try_steal
  try_steal-kept w p u h z e =
      elim (Option-cases (find_victim (p.num_workers - 1) ((w + 1) % p.num_workers) p)) [
        | inl f ↦
            let q = record p { steals_failed = p.steals_failed + 1 } in
            let v : enter_phase w waiting q ≡ u = ground (arith, f, e) in
            rw (← v) (omega (arith, pending-phase w waiting q h, z))
        | inr (i, f) ↦
            let q = record p { steals_success = p.steals_success + 1 } in
            take_task-kept w i q u h
              (find_victim-lt (p.num_workers - 1) ((w + 1) % p.num_workers) i p (omega (arith, h))
                f)
              z (ground (arith, f, e))
      ]

  -- A step of a worker keeps every task.
  pub worker_step-kept :
      (w : ℕ) (p u : WorkerPool T) → w < p.num_workers → worker_step w p ≡ some u → SameTasks p u
  unfolding worker_step
  worker_step-kept w p u h e = go (p.phases w) refl
    where
      leave : held (p.phases w) ≡ 0 → enter_phase w gone p ≡ u → SameTasks p u
      leave z v = rw (← v) (omega (arith, pending-phase w gone p h, z))

      go : (phase : Phase T) → p.phases w ≡ phase → SameTasks p u
      go looking f =
          let z : held (p.phases w) ≡ 0 = ap held f in
          elim (Bool-cases (is_empty (p.queues w))) [
            | inr some_task ↦ take_task-kept w w p u h h z (ground (arith, f, some_task, e))
            | inl no_task ↦ elim (Bool-cases p.closed) [
              | inl shut ↦ leave z (ground (arith, f, no_task, shut, e))
              | inr runs ↦ try_steal-kept w p u h z (ground (arith, f, no_task, runs, e))
            ]
          ]
      go waiting f =
          let z : held (p.phases w) ≡ 0 = ap held f in
          elim (Bool-cases (is_empty (p.queues w))) [
            | inr some_task ↦ take_task-kept w w p u h h z (ground (arith, f, some_task, e))
            | inl no_task ↦ elim (Bool-cases p.closed) [
              | inl shut ↦ leave z (ground (arith, f, no_task, shut, e))
              | inr runs ↦ absurd (ground (arith, f, no_task, runs, e))
            ]
          ]
      go (working task) f =
          let v : enter_phase w looking (completed task p) ≡ u = ground (arith, f, e) in
          rw (← v) (
            omega (
              arith,
              pending-phase w looking (completed task p) h,
              ap held f,
              count-append p.done (task ∷ []),
            ))
      go gone f = absurd (ground (arith, f, e))
