-- ===== src/Engine/Routes/Tests.antt =====
-- core/engine.go: an engine with one route, and a request for it in two parts.
use fast_server.Engine.{
  Accepted, Engine, Handler, accept_connections, accepts, handle_event, new_connection, new_engine,
  handle_route, wants_close,
}
use fast_server.Engine.Invariant.{IsSound, new_engine-IsSound}
use fast_server.Engine.Events.{handle_event-IsSound}
use fast_server.Engine.Reads.{Waits, read_all}
use fast_server.Engine.Routes.{answer_of, answering, handle_routes, read_all-answer, waits_again}
use fast_server.Base.{
  All, Bytes, [], arith, bytes_eq, codes, if◌then◌else◌, index_byte, insert, length, lookup, none,
  refl, some, skip_spaces, true, ◌++◌, ◌∷◌, ◌≡◌, ◌≤◌, nat_eq,
}
use fast_server.Http.Request.{new_request, set_header}
use fast_server.Http.Context.{new_context}
use fast_server.Http.Context
use fast_server.Http.Parser.HeaderLines.{IsHeader}
use fast_server.Http.Parser.Rejects.{parse_request-lineless}
use fast_server.Http.Parser.RoundTrip.{IsWire, Wire, print, received}
use fast_server.Router.Radix.{find_wildcard, no_wild}
use fast_server.Router.Radix.Insert
use fast_server.Router.Radix.Insert.{added}
use fast_server.Router.Radix.Static.Grow.{leaf}
use fast_server.Router.Radix.Static.Table.{IsPlain, Route}

-- The handler writes the body of the request.
abbrev echo : Handler
echo ctx = some ctx.request.body

abbrev echo_route : Route Handler
echo_route = record { method = codes "POST"; path = codes "/u"; handler = echo }

abbrev routed : Engine
routed = record new_engine { router = leaf (codes "POST") echo (codes "/u") }

echo_route-added : handle_routes (echo_route ∷ []) new_engine ≡ added routed
unfolding handle_route Insert.add Insert.add_route Insert.insert_child no_wild insert find_wildcard
echo_route-added = refl

echo_route-IsPlain : All IsPlain (echo_route ∷ [])
unfolding no_wild
echo_route-IsPlain = (record { rest = codes "u"; rooted = refl; plain = refl }, tt)

routed-IsSound : IsSound routed
routed-IsSound = record {
  resting = new_engine-IsSound.resting;
  once = new_engine-IsSound.once;
  watched = new_engine-IsSound.watched;
}

abbrev client : Accepted
client = record { fd = 5; nonblocking = true; watched = true }

abbrev one : Engine
one = record routed { connections = (5, new_connection 7 5) ∷ []; polled = 5 ∷ [] }

one-IsSound : IsSound one
unfolding handle_event accept_connections insert
one-IsSound = handle_event-IsSound 7 (accepts (client ∷ [])) routed routed-IsSound

one_connection : lookup 5 one.connections ≡ some (new_connection 7 5)
unfolding lookup
one_connection = refl

abbrev message : Wire
message = record {
  method = codes "POST";
  path = codes "/u";
  params = [];
  proto = codes "HTTP/1.1";
  first = (codes "Host", codes "h");
  more = [];
  body = codes "hi";
}

host-IsHeader : IsHeader (codes "Host", codes "h")
unfolding skip_spaces
host-IsHeader = record {
  named = cc;
  key = omega arith;
  key_line = omega arith;
  value_line = omega arith;
  key_trimmed = (refl, refl);
  value_trimmed = (refl, refl);
}

message-IsWire : IsWire message
message-IsWire = record {
  method_word = omega arith;
  method_line = omega arith;
  path_part = omega arith;
  pairs = tt;
  target_word = omega arith;
  target_line = omega arith;
  proto_line = omega arith;
  headers = (host-IsHeader, tt);
}

abbrev front : Bytes
front = codes "POST /u"

abbrev behind : Bytes
behind = codes " HTTP/1.1" ++ (13 ∷ 10 ∷ codes "Host: h" ++ (13 ∷ 10 ∷ 13 ∷ 10 ∷ codes "hi"))

front-Waits : Waits [] ((8, front) ∷ [])
unfolding index_byte
front-Waits = (cc, parse_request-lineless new_request front refl, tt)

parts-print : front ++ behind ≡ print message
unfolding print
parts-print = refl

parts_fit : length (print message) ≤ 8192
unfolding print
parts_fit = omega arith

read_all-answer_example :
    (u : Engine) × (read_all (new_context 0 new_request) 5 ((8, front) ∷ (9, behind) ∷ []) one
      ≡ answering 5 u
          (answer_of (echo_route ∷ []) 5 (new_context 0 new_request) (received message)))
    × (lookup 5 u.connections ≡ (
        if wants_close (received message) then none else some (waits_again 9 (new_connection 7 5))))
read_all-answer_example =
    read_all-answer (echo_route ∷ []) routed one ((8, front) ∷ []) 9 5 behind
      (new_context 0 new_request) (new_connection 7 5) message echo_route-IsPlain echo_route-added
      refl one-IsSound one_connection refl message-IsWire parts-print (cc) front-Waits parts_fit

-- What is written is the body.
echoed :
    answer_of (echo_route ∷ []) 5 (new_context 0 new_request) (received message) ≡ some (codes "hi")
unfolding bytes_eq Context.reset_context set_header
echoed = refl
