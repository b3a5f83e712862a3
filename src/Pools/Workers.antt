-- ===== src/Pools/Workers.antt =====
-- core/pools/worker_pool.go. A worker is a number below `num_workers`, with its queue and what it is
-- about; a step is what it does between two looks at the channels. Tasks are not nil, and the counters
-- stay below 2^63.
pub mod Kept
pub mod Effort
pub mod Drained
mod Tests
use fast_server.Base.{
  Bool, List, Option, [], false, if◌then◌else◌, length, ltb, none, not, put, some, suc, true, zero,
  ℕ, ◌%◌, ◌++◌, ◌+◌, ◌-◌, ◌==◌, ◌∷◌,
}

-- Where a worker is in `run`: before the first `select`, in a task, or waiting for its own queue; or it
-- has returned.
pub data Phase (T : Type 0) : Type 0 where
  looking waiting gone : Phase T
  working : T → Phase T

-- `done` has the tasks that have run, in the order in which they ended.
pub record WorkerPool (T : Type 0) : Type 0 where
  pub num_workers : ℕ
  pub queues : ℕ → List T
  pub phases : ℕ → Phase T
  pub closed : Bool
  pub tasks_submitted : ℕ
  pub tasks_completed : ℕ
  pub steals_success : ℕ
  pub steals_failed : ℕ
  pub done : List T

-- The capacity of a queue.
abbrev pub queue_size : ℕ
queue_size = 256

-- The end of a submission: what it returns with the pool, or the panic of a send on a closed channel.
pub data Submitted (T : Type 0) : Type 0 where
  accepted : WorkerPool T → Submitted T
  refused panicked : Submitted T

module _ {T : Type 0} where
  -- `NewWorkerPool`; `num_cpu` is what the runtime reports.
  abbrev pub new_worker_pool : ℕ → ℕ → WorkerPool T
  new_worker_pool num_cpu num_workers = record {
    num_workers = if num_workers == 0 then num_cpu else num_workers;
    queues = λ i. [];
    phases = λ i. looking;
    closed = false;
    tasks_submitted = 0;
    tasks_completed = 0;
    steals_success = 0;
    steals_failed = 0;
    done = [];
  }

  abbrev pub push : ℕ → T → WorkerPool T → WorkerPool T
  push i task p = record p { queues = put p.queues i (p.queues i ++ task ∷ []) }

  -- A task has run.
  abbrev pub completed : T → WorkerPool T → WorkerPool T
  completed task p = record p {
    tasks_completed = p.tasks_completed + 1;
    done = p.done ++ task ∷ [];
  }

  -- `Submit` behind its look at `closed`: two queues are tried, then the task runs at once.
  pub place : T → WorkerPool T → Submitted T
  place task p =
      let i = p.tasks_submitted % p.num_workers in
      let j = (i + 1) % p.num_workers in
      if p.closed
      then panicked
      else if ltb (length (p.queues i)) queue_size
      then accepted (push i task p)
      else if ltb (length (p.queues j)) queue_size
      then accepted (push j task p)
      else accepted (completed task p)

  -- `Submit`
  pub submit : T → WorkerPool T → Submitted T
  submit task p =
      if p.closed
      then refused
      else place task (record p { tasks_submitted = p.tasks_submitted + 1 })

  abbrev pub is_empty : List T → Bool
  is_empty [] = true
  is_empty (task ∷ tasks) = false

  -- The loop of `trySteal`: `n` more queues from `at` on; the first that holds a task.
  pub find_victim : ℕ → ℕ → WorkerPool T → Option ℕ
  find_victim zero at p = none
  find_victim (suc n) at p =
      let rest = find_victim n (at + 1) p in
      if is_empty (p.queues (at % p.num_workers)) then rest else some (at % p.num_workers)

  -- Worker `w` takes the first task of queue `i`, if there is one.
  pub take_task : ℕ → ℕ → WorkerPool T → Option (WorkerPool T)
  take_task w i p = elim (p.queues i) [
    | [] ↦ none
    | task ∷ tasks ↦
        some (record p { queues = put p.queues i tasks; phases = put p.phases w (working task) })
  ]

  abbrev pub enter_phase : ℕ → Phase T → WorkerPool T → WorkerPool T
  enter_phase w phase p = record p { phases = put p.phases w phase }

  -- `trySteal`, and the wait behind it if there is nothing to steal.
  pub try_steal : ℕ → WorkerPool T → Option (WorkerPool T)
  try_steal w p = elim (find_victim (p.num_workers - 1) ((w + 1) % p.num_workers) p) [
    | none ↦ some (enter_phase w waiting (record p { steals_failed = p.steals_failed + 1 }))
    | some v ↦ take_task w v (record p { steals_success = p.steals_success + 1 })
  ]

  -- A receive from a closed channel that is empty yields nil, on which the worker returns.
  pub worker_step : ℕ → WorkerPool T → Option (WorkerPool T)
  worker_step w p = elim (p.phases w) [
    | looking ↦
        if not (is_empty (p.queues w))
        then take_task w w p
        else if p.closed
        then some (enter_phase w gone p)
        else try_steal w p
    | waiting ↦
        if not (is_empty (p.queues w))
        then take_task w w p
        else if p.closed
        then some (enter_phase w gone p)
        else none
    | working task ↦ some (enter_phase w looking (completed task p))
    | gone ↦ none
  ]

  -- `Close`
  pub close : WorkerPool T → WorkerPool T
  close p = if p.closed then p else record p { closed = true }
