-- ===== src/Http/Standard/Tests.antt =====
-- core/http/context.go: a context on which the theorems are run.
use fast_server.Base.{Bytes, List, [], bytes_eq, codes, none, refl, some, ◌∷◌, ◌≡◌}
use fast_server.Http.Request.{new_request}
use fast_server.Http.Context.{new_context}
use fast_server.Http.Context
use fast_server.Http.Standard.{
  StandardContext, acquire_context, acquire_context_for_conn, ext, found, get_content_type, other,
  param, send_string, serve_file, tcp,
}
use fast_server.Http.Standard.Slots.{param-acquired, set_fd_params, set_params}

-- What the pool may give: parameters of an earlier request are still in the slots.
abbrev pooled : StandardContext
pooled = record {
  param_keys = codes "id" ∷ [] ∷ [] ∷ [] ∷ [];
  param_values = codes "7" ∷ [] ∷ [] ∷ [] ∷ [];
  param_count = 0;
  param_overflow = [];
  request = none;
  conn = none;
  response_buf = [];
}

abbrev five : List (Bytes × Bytes)
five =
    (codes "a", codes "1")
    ∷ (codes "b", codes "2")
    ∷ (codes "c", codes "3")
    ∷ (codes "d", codes "4")
    ∷ (codes "e", codes "5")
    ∷ []

param-acquired_example :
    param (codes "e") (set_params five (acquire_context_for_conn [] new_request pooled))
    ≡ Context.param (codes "e") (set_fd_params five (new_context 3 new_request))
param-acquired_example =
    param-acquired [] new_request pooled 3 five (codes "e") (record { keys = refl; values = refl })

abbrev connected : StandardContext
connected = acquire_context_for_conn (codes "x") new_request pooled

type_test : get_content_type (codes "/x.y/a.b.html") ≡ codes "text/html"
unfolding get_content_type ext bytes_eq
type_test = refl

-- On another kind of connection nothing of the content is sent.
headers_only :
    serve_file (found (codes "hi")) other (codes "a.txt") connected
    ≡ serve_file (found (codes "hi")) (tcp (some 0)) (codes "a.txt") connected
unfolding serve_file
headers_only = refl

-- A context that is acquired without a connection panics on a response.
without_conn : send_string 200 (codes "hi") (acquire_context new_request pooled) ≡ none
without_conn = refl
