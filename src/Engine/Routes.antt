-- ===== src/Engine/Routes.antt =====
-- core/engine.go, with core/router/radix.go and core/http/parser.go: from the bytes of a request to the
-- handler of its route.
mod Tests
use fast_server.Engine.{
  Connection, Engine, Handler, Outcome, crashed, check_keep_alive, close_connection, data',
  error_response, handle_bytes, handle_connection_event, handle_route, new_engine, process_request,
  processing, ran, reading, set_params, store, wants_close,
}
use fast_server.Engine.Invariant.{IsResting, IsSound}
use fast_server.Engine.Reads.{
  Waits, handle_event-IsResting, joined, ne-append, read_all, read_all-joined,
}
use fast_server.Base.{
  All, Bool-cases, Bytes, List, Option, [], ap, arith, bytes_eq, codes, delete, insert,
  length-append, Option-cases, if◌then◌else◌, inl, inr, length, lookup, lookup-delete,
  lookup-insert, none, refl, some, sym, true, ℕ, ◌&&◌, ◌++◌, ◌+◌, ◌<◌, ◌∙◌, ◌∷◌, ◌≡◌, ◌≢◌, ◌≤◌,
  nat_eq,
}
use fast_server.Http.Request.{Request, new_request}
use fast_server.Http.Request.Headers.{reset-new_request}
use fast_server.Http.Context.{Context, reset_context}
use fast_server.Http.Parser.{parse_request, parsed}
use fast_server.Http.Parser.RoundTrip.{IsWire, Wire, parse_request-print, print, received}
use fast_server.Router.Radix.{Node, new_router}
use fast_server.Router.Radix.Insert
use fast_server.Router.Radix.Insert.{
  Added, added, bad_index, bad_start, catch_all_conflict, catch_all_inside, many_wildcards, no_fuel,
  unnamed, ◌>>=◌,
}
use fast_server.Router.Radix.Lookup
use fast_server.Router.Radix.Lookup.{Lookup, found, missing}
use fast_server.Router.Radix.Static.Table.{IsPlain, Route, find-register, register, resolve}

-- The routes of an application, in the order of the calls of `GET` and its like.
abbrev pub handle_routes : List (Route Handler) → Engine → Added Engine
handle_routes [] e = added e
handle_routes (r ∷ rs) e = do d ← handle_route r.method r.path r.handler e; handle_routes rs d

-- The handler of a method and a path: the last one of the list.
abbrev pub handler_of : List (Route Handler) → Bytes → Bytes → Option Handler
handler_of [] m q = none
handler_of (r ∷ rs) m q = elim (handler_of rs m q) [
  | some h ↦ some h
  | none ↦ if bytes_eq r.method m && bytes_eq r.path q then some r.handler else none
]

abbrev found_or : Lookup Handler → Option Handler → Lookup Handler
found_or old none = old
found_or old (some h) = found h []

resolve-handler_of :
    (rs : List (Route Handler)) (m q : Bytes) (old : Lookup Handler)
    → resolve rs m q old ≡ found_or old (handler_of rs m q)
resolve-handler_of [] m q old = refl
resolve-handler_of (r ∷ rs) m q old = ground (
  arith,
  resolve-handler_of rs m q
      (if bytes_eq r.method m && bytes_eq r.path q then found r.handler [] else old),
)

-- A registration that went through, and what comes after it.
bind-added :
    (x : Added (Node Handler)) (rs : List (Route Handler)) (u : Node Handler)
    → (x >>= register rs) ≡ added u
    → (t : Node Handler) × (x ≡ added t) × (register rs t ≡ added u)
bind-added (added t) rs u h = (t, refl, h)
bind-added bad_start rs u h = absurd (ground (arith, h))
bind-added many_wildcards rs u h = absurd (ground (arith, h))
bind-added unnamed rs u h = absurd (ground (arith, h))
bind-added catch_all_inside rs u h = absurd (ground (arith, h))
bind-added catch_all_conflict rs u h = absurd (ground (arith, h))
bind-added bad_index rs u h = absurd (ground (arith, h))
bind-added no_fuel rs u h = absurd (ground (arith, h))

handle_route-added :
    (r : Route Handler) (e : Engine) (t : Node Handler)
    → Insert.add r.method r.handler e.router r.path ≡ added t
    → handle_route r.method r.path r.handler e ≡ added (record e { router = t })
unfolding handle_route
handle_route-added r e t h = rw h refl

-- The engine registers as its router does.
handle_routes-register :
    (rs : List (Route Handler)) (e : Engine) (u : Node Handler)
    → register rs e.router ≡ added u
    → handle_routes rs e ≡ added (record e { router = u })
handle_routes-register [] e u h = ground (arith, h)
handle_routes-register (r ∷ rs) e u h =
    let (t, q, k) = bind-added (Insert.add r.method r.handler e.router r.path) rs u h in
    rw (handle_route-added r e t q) (handle_routes-register rs (record e { router = t }) u k)

-- What is written for a request: the response of its handler, or a 404; `none` where the handler panics.
abbrev pub answer_of : List (Route Handler) → ℕ → Context → Request → Option Bytes
answer_of rs fd pooled req = elim (handler_of rs req.method req.path) [
  | none ↦ some (error_response 404 (codes "Not Found"))
  | some h ↦ h (reset_context fd req pooled)
]

-- An engine that answers, or the end of the program.
abbrev pub answering : ℕ → Engine → Option Bytes → Outcome
answering fd e none = crashed
answering fd e (some out) = ran e ((fd, out) ∷ [])

-- The connection after a response.
abbrev pub waits_again : ℕ → Connection → Connection
waits_again now c = record c { state = reading; received = []; request = none; last_active = now }

check_keep_alive-lookup :
    (now : ℕ) (c : Connection) (req : Request) (e : Engine)
    → lookup c.fd (check_keep_alive now c req e).connections
      ≡ (if wants_close req then none else some (waits_again now c))
unfolding check_keep_alive close_connection
check_keep_alive-lookup now c req e = ground (
  arith,
  lookup-insert c.fd c.fd c e.connections,
  lookup-insert c.fd c.fd (waits_again now c) e.connections,
  lookup-delete c.fd c.fd (insert c.fd c e.connections),
)

process_request-answer :
    (rs : List (Route Handler)) (now : ℕ) (pooled : Context) (c : Connection) (req : Request)
    (e : Engine)
    → Lookup.find req.method e.router req.path
      ≡ found_or missing (handler_of rs req.method req.path)
    → process_request now pooled c req e
      ≡ answering c.fd (check_keep_alive now c req e) (answer_of rs c.fd pooled req)
unfolding process_request
process_request-answer rs now pooled c req e h =
    elim (Option-cases (handler_of rs req.method req.path)) [
      | inl n ↦ ground (arith, h, n)
      | inr (k, s) ↦ ground (arith, h, s)
    ]

parse_request-received :
    (m : Wire) → IsWire m → parse_request new_request (print m) ≡ parsed (received m)
parse_request-received m w =
    ap (λ r. parse_request r (print m)) (sym (reset-new_request new_request))
    ∙ parse_request-print m new_request w

handle_bytes-received :
    (now : ℕ) (pooled : Context) (c : Connection) (m : Wire) (e : Engine)
    → c.received ≡ []
    → IsWire m
    → handle_bytes now pooled c (print m) e
      ≡ process_request now pooled
          (record c { received = []; request = some (received m); state = processing })
          (received m)
          e
unfolding handle_bytes
handle_bytes-received now pooled c m e n w = ground (arith, n, parse_request-received m w)

routed-find :
    (rs : List (Route Handler)) (routed : Engine)
    → All IsPlain rs
    → handle_routes rs new_engine ≡ added routed
    → (m q : Bytes) → Lookup.find m routed.router q ≡ found_or missing (handler_of rs m q)
routed-find rs routed w h m q =
    let (u, registered, v) = find-register rs w in
    let same : routed.router ≡ u =
      ground (arith, h, handle_routes-register rs new_engine u registered) in
    ap (λ t. Lookup.find m t q) same ∙ v m q ∙ resolve-handler_of rs m q missing

-- On an engine whose routes have no wildcard and were registered in this order, a well-formed message
-- that comes to a waiting connection with an empty buffer, in parts of which only the last makes it whole
-- and which fit into the buffer, is answered once: by the handler that was registered last for its method
-- and path, for a context with the parsed request, or with 404; where that handler panics the program ends. Then the
-- connection waits again, or is gone if the request asks for that. Header names and values have no space
-- at an end, Unicode spaces included.
pub read_all-answer :
    (rs : List (Route Handler)) (routed e : Engine) (parts : List (ℕ × Bytes)) (now fd : ℕ)
    (s : Bytes) (pooled : Context) (c : Connection) (m : Wire)
    → All IsPlain rs
    → handle_routes rs new_engine ≡ added routed
    → e.router ≡ routed.router
    → IsSound e
    → lookup fd e.connections ≡ some c
    → c.received ≡ []
    → IsWire m
    → joined parts ++ s ≡ print m
    → s ≢ []
    → Waits [] parts
    → length (print m) ≤ c.buf_len
    → (u : Engine) × (read_all pooled fd (parts ++ (now, s) ∷ []) e
        ≡ answering fd u (answer_of rs fd pooled (received m)))
      × (lookup fd u.connections
          ≡ (if wants_close (received m) then none else some (waits_again now c)))
read_all-answer rs routed e parts now fd s pooled c m plain registered router sound here empty w
      whole k waits fits =
    let r = sound.resting fd c here in
    let x = joined parts ++ s in
    let size : length (print m) ≡ length (joined parts) + length s =
      ap length (sym whole) ∙ length-append (joined parts) s in
    let busy = record c {
      last_active = now;
      received = [];
      request = some (received m);
      state = processing;
    } in
    let lookup_table : Lookup.find (received m).method e.router (received m).path
        ≡ found_or missing (handler_of rs (received m).method (received m).path) =
      ap (λ t. Lookup.find (received m).method t (received m).path) router
      ∙ routed-find rs routed plain registered (received m).method (received m).path in
    (
      check_keep_alive now busy (received m) e,
      read_all-joined pooled now s parts fd c e here r k (rw empty waits)
            (omega (arith, ap length empty, size, fits))
          ∙ ap (λ y. handle_connection_event now pooled fd (data' y) e) whole
          ∙ handle_event-IsResting pooled now s fd now (print m) c e here r.at_rest
              (rw whole at (ne-append (joined parts) s k)) (omega (arith, ap length empty, fits))
          ∙ handle_bytes-received now pooled (record c { last_active = now }) m e empty w
          ∙ process_request-answer rs now pooled busy (received m) e lookup_table
          ∙ ap
              (λ f.
                answering f (check_keep_alive now busy (received m) e)
                  (answer_of rs f pooled (received m)))
              r.own,
      ap (λ f. lookup f (check_keep_alive now busy (received m) e).connections) (sym r.own)
          ∙ check_keep_alive-lookup now busy (received m) e,
    )
