-- ===== src/Rpc/Server/Connections/Tests.antt =====
-- core/rpc/server/server.go: a client that asks while the server shuts down.
use fast_server.Base.{Option, none, refl, some, total, true, false, ℕ, ◌≡◌, ◌≤◌}
use fast_server.Rpc.Server.{type_request}
use fast_server.Rpc.Server.Connections.{
  Server, Steps, and_then, gone, handler_step, handles, handling, returned_nil, serve_step, serves,
  shutdown_step, shuts, snapshot, start_server, stop,
}
use fast_server.Rpc.Server.Connections.Counts.{Steps-counted}
use fast_server.Rpc.Server.Connections.Invariant.{is_running, requests}
use fast_server.Rpc.Server.Connections.Drained.{Moves, here, none_yet, shutdown_step-drains}

abbrev or_self : Server → Option Server → Server
or_self s none = s
or_self s (some t) = t

abbrev started : Server
started = start_server true

abbrev accepted_one : Server
accepted_one = or_self started (serve_step true started)

abbrev tracked_one : Server
tracked_one = or_self accepted_one (serve_step true accepted_one)

abbrev flagged_one : Server
flagged_one = or_self tracked_one (shutdown_step false tracked_one)

abbrev unlistened_one : Server
unlistened_one = or_self flagged_one (shutdown_step false flagged_one)

abbrev with_one : Server
with_one = or_self unlistened_one (shutdown_step false unlistened_one)

abbrev asked : Server
asked = or_self with_one (handler_step (some type_request) 0 with_one)

abbrev closed_one : Server
closed_one = or_self asked (shutdown_step false asked)

abbrev all_closed : Server
all_closed = or_self closed_one (shutdown_step false closed_one)

abbrev drained : Server
drained = or_self all_closed (shutdown_step false all_closed)

abbrev in_request : Server
in_request = or_self drained (handler_step none 0 drained)

abbrev answered : Server
answered = or_self in_request (handler_step none 0 in_request)

abbrev refused : Server
refused = or_self answered (handler_step none 0 answered)

abbrev hung_up : Server
hung_up = or_self refused (handler_step none 0 refused)

abbrev gone_one : Server
gone_one = or_self hung_up (handler_step none 0 hung_up)

to_unlistened : Steps started unlistened_one
unfolding serve_step shutdown_step
to_unlistened =
    and_then
      (and_then (and_then (and_then stop (serves true refl)) (serves true refl)) (shuts false refl))
      (shuts false refl)

to_drained : Steps with_one drained
unfolding serve_step shutdown_step handler_step snapshot
to_drained =
    and_then
      (and_then (and_then (and_then stop (handles (some type_request) 0 refl)) (shuts false refl))
        (shuts false refl))
      (shuts false refl)

to_gone : Moves 0 drained 5 gone_one
unfolding serve_step shutdown_step handler_step snapshot
to_gone =
    here none (here none (here none (here none (here none none_yet refl) refl) refl) refl) refl

-- The request starts after `Shutdown` has returned.
late_request :
    (drained.caller ≡ returned_nil)
    × (in_request.handlers 0 ≡ handling)
    × (in_request.active_reqs ≡ 1)
unfolding serve_step shutdown_step handler_step snapshot
late_request = (refl, refl, refl)

shutdown_step-drains_example :
    (gone_one.is_open 0 ≡ false)
    × (5 ≤ 5)
    × ((f : Option ℕ)
        → handler_step f 0 gone_one ≡ none
        → (gone_one.handlers 0 ≡ gone) × (gone_one.conns 0 ≡ false))
unfolding serve_step shutdown_step handler_step snapshot
shutdown_step-drains_example =
    shutdown_step-drains true false unlistened_one with_one drained gone_one 0 5 to_unlistened refl
      refl refl to_drained refl to_gone

Steps-counted_example :
    (unlistened_one.active_reqs ≡ total unlistened_one.accepted (requests unlistened_one))
    × (unlistened_one.handlers 0 ≡ handling → 1 ≤ unlistened_one.active_reqs)
    × (unlistened_one.conns 0 ≡ is_running (unlistened_one.handlers 0))
    × (unlistened_one.handlers 0 ≡ gone → unlistened_one.is_open 0 ≡ false)
Steps-counted_example = Steps-counted true unlistened_one 0 to_unlistened
