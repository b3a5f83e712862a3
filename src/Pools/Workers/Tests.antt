-- ===== src/Pools/Workers/Tests.antt =====
-- core/pools/worker_pool.go: runs of a pool of two workers.
use fast_server.Pools.Workers.{
  WorkerPool, accepted, close, completed, enter_phase, looking, new_worker_pool, panicked, place,
  push, submit, take_task, worker_step, working,
}
use fast_server.Pools.Workers.Kept.{count, one, pending, submit-kept}
use fast_server.Pools.Workers.Effort.{IsSound, effort}
use fast_server.Pools.Workers.Drained.{run, run-drains}
use fast_server.Base.{
  put, Bool, List, [], arith, length, none, refl, some, true, ℕ, ◌+◌, ◌<◌, ◌∷◌, ◌≡◌, ◌≤◌,
}

abbrev fresh_pool : WorkerPool ℕ
fresh_pool = new_worker_pool 1 2

abbrev all : ℕ → Bool
all task = true

submitted : submit 7 fresh_pool ≡ accepted (push 1 7 (record fresh_pool { tasks_submitted = 1 }))
unfolding submit place
submitted = refl

submit-kept_example :
    pending all (push 1 7 (record fresh_pool { tasks_submitted = 1 }))
      + count all (push 1 7 (record fresh_pool { tasks_submitted = 1 })).done
    ≡ pending all fresh_pool + count all fresh_pool.done + one all 7
submit-kept_example =
    submit-kept all 7 fresh_pool (push 1 7 (record fresh_pool { tasks_submitted = 1 }))
      (omega arith) submitted

-- A pool with one task, which the worker of its queue takes and runs.
abbrev loaded : WorkerPool ℕ
loaded = push 1 7 fresh_pool

abbrev through : WorkerPool ℕ
through = enter_phase 1 looking (
    completed 7
      (record loaded { queues = put loaded.queues 1 []; phases = put loaded.phases 1 (working 7) }))

loaded-IsSound : IsSound loaded
loaded-IsSound w e = cc

abbrev twice : List ℕ
twice = 1 ∷ 1 ∷ []

loaded_runs : run twice loaded ≡ some through
unfolding run worker_step take_task
loaded_runs = refl

run-drains_example :
    (length twice + effort through ≤ effort loaded)
    × (pending all through + count all through.done ≡ pending all loaded + count all loaded.done)
    × (((w : ℕ) → w < through.num_workers → worker_step w through ≡ none)
        → count all through.done ≡ pending all loaded + count all loaded.done)
run-drains_example = run-drains all twice loaded through loaded-IsSound (omega arith) loaded_runs

-- A submission that has seen the pool open sends to a queue that is closed by then.
late : place 7 (close fresh_pool) ≡ panicked
unfolding place close
late = refl
