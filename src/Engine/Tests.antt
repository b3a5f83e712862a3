-- ===== src/Engine/Tests.antt =====
-- core/engine.go: runs of the engine with one connection.
use fast_server.Engine.{
  Accepted, Engine, accept_connections, accepts, crashed, data', handle_connection_event,
  handle_event, new_connection, new_engine, ready,
}
use fast_server.Engine.Invariant.{IsSound, new_engine-IsSound}
use fast_server.Engine.Events.{Leaves, handle_event-IsSound}
use fast_server.Engine.Reads.{Waits, joined, read_all, read_all-joined}
use fast_server.Engine.Crash.{IsFatal, handle_event-crashed, taken}
use fast_server.Base.{
  Bytes, [], arith, codes, index_byte, insert, lookup, refl, some, true, ◌++◌, ◌↔◌, ◌∷◌, ◌≡◌, ◌≢◌,
  nat_eq,
}
use fast_server.Http.Request.{new_request}
use fast_server.Http.Parser.Rejects.{parse_request-lineless}
use fast_server.Http.Context.{Context, new_context}
use fast_server.Http.Context

abbrev client : Accepted
client = record { fd = 5; nonblocking = true; watched = true }

handle_event-IsSound_example : Leaves IsSound (handle_event 7 (accepts (client ∷ [])) new_engine)
handle_event-IsSound_example =
    handle_event-IsSound 7 (accepts (client ∷ [])) new_engine new_engine-IsSound

-- The engine with that connection.
abbrev one : Engine
one = record new_engine { connections = (5, new_connection 7 5) ∷ []; polled = 5 ∷ [] }

connected : accept_connections 7 (client ∷ []) new_engine ≡ one
unfolding accept_connections insert
connected = refl

one-IsSound : IsSound one
unfolding handle_event
one-IsSound = rw connected at (handle_event-IsSound_example)

here : lookup 5 one.connections ≡ some (new_connection 7 5)
unfolding lookup
here = refl

abbrev pooled : Context.Context
pooled = new_context 0 new_request

abbrev half : Bytes
half = codes "GET /"

abbrev other_half : Bytes
other_half = codes " HTTP/1.1" ++ (13 ∷ 10 ∷ 13 ∷ 10 ∷ [])

half-Waits : Waits [] ((8, half) ∷ [])
unfolding index_byte
half-Waits = (cc, parse_request-lineless new_request half refl, tt)

read_all-joined_example :
    read_all pooled 5 ((8, half) ∷ (9, other_half) ∷ []) one
    ≡ handle_connection_event 9 pooled 5 (data' (joined ((8, half) ∷ []) ++ other_half)) one
read_all-joined_example =
    read_all-joined pooled 9 other_half ((8, half) ∷ []) 5 (new_connection 7 5) one here
      (one-IsSound.resting 5 (new_connection 7 5) here) (cc) half-Waits (omega arith)

handle_event-crashed_example : (handle_event 8 (ready 5 (data' (10 ∷ [])) pooled) one ≡ crashed) ↔ (
    (taken (new_connection 7 5) (10 ∷ []) ≢ [])
    × IsFatal one.router 5 pooled ([] ++ taken (new_connection 7 5) (10 ∷ [])))
handle_event-crashed_example =
    handle_event-crashed 8 5 (10 ∷ []) pooled (new_connection 7 5) one one-IsSound here
