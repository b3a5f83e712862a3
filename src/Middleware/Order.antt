-- ===== src/Middleware/Order.antt =====
-- core/middleware/pipeline.go: which handlers run, in which order.
use fast_server.Base.{
  List, [], ap, append-nil, append_assoc, arith, false, length, length-append, refl, suc, true,
  zero, ℕ, ◌++◌, ◌+◌, ◌∙◌, ◌∷◌, ◌≡◌,
}
use fast_server.Http.Context.{Context}
use fast_server.Middleware.Pipeline.{
  Handler, Pipeline, execute, handler_at, new_pipeline, run_handlers, use_handler,
}

-- Handlers that are added one after another.
abbrev pub use_all : Pipeline → List Handler → Pipeline
use_all p [] = p
use_all p (h ∷ hs) = use_all (use_handler p h) hs

use_all_lem :
    (hs gs : List Handler)
    → use_all (record { handlers = gs; length = length gs }) hs
      ≡ record { handlers = gs ++ hs; length = length (gs ++ hs) }
unfolding use_handler
use_all_lem [] gs = rw (append-nil gs) refl
use_all_lem (h ∷ hs) gs = use_all_lem hs (gs ++ (h ∷ [])) ∙ rw (append_assoc gs (h ∷ []) hs) refl

-- Handlers run one after another and none of them aborts.
pub data Passes : List Handler → Context → Context → Type 0 where
  stay : (c : Context) → Passes [] c c
  pass :
      {h : Handler} {hs : List Handler} {c d : Context}
      → (h c).aborted ≡ false
      → Passes hs (h c) d
      → Passes (h ∷ hs) c d

handler_at-append :
    (gs : List Handler) (h : Handler) (hs : List Handler)
    → handler_at (gs ++ (h ∷ hs)) (length gs) ≡ h
handler_at-append [] h hs = refl
handler_at-append (g ∷ gs) h hs = handler_at-append gs h hs

module _ (final : Handler) where
  -- The loop, over the handlers behind those that have run.
  run_handlers-Passes :
      {hs : List Handler} {c d : Context} (gs rest : List Handler) (n : ℕ)
      → Passes hs c d
      → run_handlers (gs ++ (hs ++ rest)) final (length hs + n) (length gs) c
        ≡ run_handlers (gs ++ (hs ++ rest)) final n (length (gs ++ hs)) d
  unfolding run_handlers
  run_handlers-Passes gs rest n (stay c) =
      let e : 0 + n ≡ n = omega arith in rw (e, append-nil gs) refl
  run_handlers-Passes gs rest n (pass {h} {hs} {c} {d} ok p) =
      let e : suc (length hs) + n ≡ suc (length hs + n) = omega arith in
      let one : length (gs ++ (h ∷ [])) ≡ length gs + 1 =
        omega (arith, length-append gs (h ∷ [])) in
      rw e (
        ground (
          arith,
          ok,
          handler_at-append gs h (hs ++ rest),
          one,
          append_assoc gs (h ∷ []) (hs ++ rest),
          append_assoc gs (h ∷ []) hs,
          run_handlers-Passes (gs ++ (h ∷ [])) rest n p,
        ))

  -- Handlers that all let the request pass, after `hs` of them, and the one that aborts it.
  run_aborts :
      {hs : List Handler} {c d : Context} (h : Handler) (rest : List Handler)
      → Passes hs c d
      → (h d).aborted ≡ true
      → run_handlers (hs ++ (h ∷ rest)) final (length (hs ++ (h ∷ rest))) 0 c ≡ h d
  unfolding run_handlers
  run_aborts {hs} {c} {d} h rest p stops =
      let e : length (hs ++ (h ∷ rest)) ≡ length hs + suc (length rest) =
        omega (arith, length-append hs (h ∷ rest)) in
      rw e (
        ground (
          arith,
          stops,
          run_handlers-Passes [] (h ∷ rest) (suc (length rest)) p,
          handler_at-append hs h rest,
        ))

  run_all :
      {hs : List Handler} {c d : Context}
      → Passes hs c d
      → d.aborted ≡ false
      → run_handlers hs final (length hs) 0 c ≡ final d
  unfolding run_handlers
  run_all {hs} {c} {d} p open' =
      let e : length hs + 0 ≡ length hs = omega arith in
      ground (arith, e, open', run_handlers-Passes [] [] 0 p, append-nil hs)

  execute-run_handlers :
      (hs : List Handler) (n : ℕ) (c : Context)
      → c.aborted ≡ false
      → execute (record { handlers = hs; length = n }) final c ≡ run_handlers hs final n 0 c
  unfolding execute run_handlers
  execute-run_handlers hs zero c open' = ground (arith, open')
  execute-run_handlers hs (suc n) c open' = ground arith

Passes-aborted :
    {hs : List Handler} {c d : Context} → c.aborted ≡ false → Passes hs c d → d.aborted ≡ false
Passes-aborted open' (stay c) = open'
Passes-aborted open' (pass ok p) = Passes-aborted ok p

execute-added :
    (hs : List Handler) (final : Handler) (c : Context)
    → c.aborted ≡ false
    → execute (use_all new_pipeline hs) final c ≡ run_handlers hs final (length hs) 0 c
execute-added hs final c open' =
    ap (λ p. execute p final c) (use_all_lem hs [])
    ∙ execute-run_handlers final hs (length hs) c open'

-- On a context that is not aborted, the handlers of a pipeline run in the order in which they were
-- added, each on the context that the one before left. If none aborts, the handler of the route
-- runs last; if one does, neither the handlers behind it nor that of the route run.
pub execute-use_all :
    (hs : List Handler) (final : Handler) (c d : Context)
    → c.aborted ≡ false
    → Passes hs c d
    → (execute (use_all new_pipeline hs) final c ≡ final d)
      × ((h : Handler) (rest : List Handler)
          → (h d).aborted ≡ true
          → execute (use_all new_pipeline (hs ++ (h ∷ rest))) final c ≡ h d)
execute-use_all hs final c d open' p = (
  execute-added hs final c open' ∙ run_all final p (Passes-aborted open' p),
  λ h rest stops. execute-added (hs ++ (h ∷ rest)) final c open' ∙ run_aborts final h rest p stops,
)
