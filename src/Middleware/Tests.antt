-- ===== src/Middleware/Tests.antt =====
-- core/middleware/pipeline.go: pipelines on which the theorems are run.
use fast_server.Base.{List, [], codes, refl, true, ◌++◌, ◌∷◌, ◌≡◌}
use fast_server.Http.Request.{new_request}
use fast_server.Http.Context.{Context, abort, new_context, set_response_header, set_status}
use fast_server.Middleware.Pipeline.{
  AsyncPipeline, Handler, execute, new_async_pipeline, new_pipeline, use_async, use_sync,
}
use fast_server.Middleware.Order.{Passes, execute-use_all, pass, stay, use_all}

abbrev context : Context
context = new_context 3 new_request

abbrev mark : Handler
mark c = set_response_header (codes "X") (codes "1") c

context-Passes : Passes (mark ∷ []) context (mark context)
unfolding set_response_header new_context
context-Passes = pass refl (stay (mark context))

execute-use_all_example :
    (execute (use_all new_pipeline (mark ∷ [])) (set_status 201) context
      ≡ set_status 201 (mark context))
    × ((h : Handler) (rest : List Handler)
        → (h (mark context)).aborted ≡ true
        → execute (use_all new_pipeline ((mark ∷ []) ++ (h ∷ rest))) (set_status 201) context
          ≡ h (mark context))
execute-use_all_example =
    execute-use_all (mark ∷ []) (set_status 201) context (mark context) (unfold new_context in refl)
      context-Passes

abbrev async : AsyncPipeline
async = use_async (use_sync new_async_pipeline mark) abort
