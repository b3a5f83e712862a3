-- ===== src/Middleware/Async.antt =====
-- core/middleware/pipeline.go: what becomes of the asynchronous handlers.
use fast_server.Base.{
  List, [], append-nil, append_assoc, arith, drop, false, length, length-append, refl, suc, take,
  true, zero, ℕ, ◌++◌, ◌-◌, ◌∷◌, ◌≡◌,
}
use fast_server.Http.Context.{Context}
use fast_server.Middleware.Pipeline.{
  AsyncPipeline, Handler, capacity, execute, execute_async, submit,
}

-- Handlers that run one after another.
abbrev pub run_each : List Handler → Context → Context
run_each [] c = c
run_each (h ∷ hs) c = run_each hs (h c)

-- The places that are free in the channel.
abbrev pub room : AsyncPipeline → ℕ
room p = capacity - length p.worker_ch

submit_room :
    (hs ch : List Handler) (c : Context) (n : ℕ)
    → n ≡ capacity - length ch
    → submit hs ch c ≡ (ch ++ take n hs, run_each (drop n hs) c)
unfolding submit
submit_room [] ch c zero e = rw (append-nil ch) refl
submit_room [] ch c (suc n) e = rw (append-nil ch) refl
submit_room (h ∷ hs) ch c zero e = ground (arith, e, submit_room hs ch (h c) 0 e)
submit_room (h ∷ hs) ch c (suc n) e = ground (
  arith,
  e,
  length-append ch (h ∷ []),
  append_assoc ch (h ∷ []) (take n hs),
  submit_room hs (ch ++ (h ∷ [])) c n (omega (arith, e, length-append ch (h ∷ []))),
)

-- After a request that was not aborted, each asynchronous handler is either in the channel, once and
-- in order, or has run at once, which the handlers do for which the channel has no place left. After
-- one that was aborted, none is.
pub execute_async-room :
    (p : AsyncPipeline) (final : Handler) (c : Context)
    → ((execute p.sync final c).aborted ≡ false
        → execute_async p final c ≡ (
          record p { worker_ch = p.worker_ch ++ take (room p) p.async },
          run_each (drop (room p) p.async) (execute p.sync final c),
        ))
      × ((execute p.sync final c).aborted ≡ true
          → execute_async p final c ≡ (p, execute p.sync final c))
unfolding execute_async
execute_async-room p final c = (
  λ e. ground (arith, e, submit_room p.async p.worker_ch (execute p.sync final c) (room p) refl),
  λ e. ground (arith, e),
)
