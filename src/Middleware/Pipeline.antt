-- ===== src/Middleware/Pipeline.antt =====
-- core/middleware/pipeline.go: `Pipeline` and `AsyncPipeline`. A handler is a function on the
-- context that it changes. The channel of the workers is the list of the tasks that wait in it, a task being its
-- handler; no worker takes one while `Execute` runs.
use fast_server.Base.{
  true, false, length, List, [], get_or, if◌then◌else◌, ltb, not, suc, zero, ℕ, ◌++◌, ◌+◌, ◌==◌,
  ◌∷◌,
}
use fast_server.Http.Context.{Context}

abbrev pub Handler : Type 0
Handler = Context → Context

pub record Pipeline : Type 0 where
  pub handlers : List Handler
  pub length : ℕ

-- `NewPipeline`
abbrev pub new_pipeline : Pipeline
new_pipeline = record { handlers = []; length = 0 }

-- `Use`
unfoldable pub use_handler : Pipeline → Handler → Pipeline
use_handler p h = record {
  handlers = p.handlers ++ (h ∷ []);
  length = length (p.handlers ++ (h ∷ []));
}

-- `p.handlers[i]`
abbrev pub handler_at : List Handler → ℕ → Handler
handler_at hs i = get_or hs i (λ c. c)

-- The loop of `Execute` over `n` handlers from the one at `i` on, and the handler of the route.
unfoldable pub run_handlers : List Handler → Handler → ℕ → ℕ → Context → Context
run_handlers hs final zero i c = if not c.aborted then final c else c
run_handlers hs final (suc n) i c =
    let d = handler_at hs i c in
    let rest = run_handlers hs final n (i + 1) d in if d.aborted then d else rest

-- `Execute`
unfoldable pub execute : Pipeline → Handler → Context → Context
execute p final c = if p.length == 0 then final c else run_handlers p.handlers final p.length 0 c

pub record AsyncPipeline : Type 0 where
  pub sync : Pipeline
  pub async : List Handler
  pub worker_ch : List Handler

-- `make(chan asyncTask, 256)`
abbrev pub capacity : ℕ
capacity = 256

-- `NewAsyncPipeline`, `UseSync` and `UseAsync`
abbrev pub new_async_pipeline : AsyncPipeline
new_async_pipeline = record { sync = new_pipeline; async = []; worker_ch = [] }

pub use_sync : AsyncPipeline → Handler → AsyncPipeline
use_sync p h = record p { sync = use_handler p.sync h }

pub use_async : AsyncPipeline → Handler → AsyncPipeline
use_async p h = record p { async = p.async ++ (h ∷ []) }

-- The loop over the handlers: each goes into the channel, or runs at once where that is full.
unfoldable pub submit : List Handler → List Handler → Context → List Handler × Context
submit [] ch c = (ch, c)
submit (h ∷ hs) ch c = elim (ltb (length ch) capacity) [
  | true ↦ submit hs (ch ++ (h ∷ [])) c
  | false ↦ submit hs ch (h c)
]

-- `AsyncPipeline.Execute`
unfoldable pub execute_async : AsyncPipeline → Handler → Context → AsyncPipeline × Context
execute_async p final c =
    let d = execute p.sync final c in
    let (ch, e) = submit p.async p.worker_ch d in
    if not d.aborted then (record p { worker_ch = ch }, e) else (p, d)
