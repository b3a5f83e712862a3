-- ===== src/WebSocket/Hub/Tests.antt =====
-- core/websocket/hub.go: runs of the hub.
use fast_server.WebSocket.Hub.{
  Heap, Hub, Message, Round, accepted, broadcast_room, channel_size, close, crashed, new_client,
  new_hub, offer, register_client, run_broadcast, run_register, broadcast_message,
  broadcast_clients, run_unregister, stuck, went,
}
use fast_server.WebSocket.Hub.Broadcasts.{full_clients}
use fast_server.WebSocket.Hub.Invariant.{IsSound}
use fast_server.WebSocket.Hub.Rounds.{Delivers, run_broadcast-Delivers}
use fast_server.WebSocket.Hub.Steps.{
  IsFresh, Steps, Steps-safe, and_then, broadcasts, takes_register, registers, stop,
}
use fast_server.Base.{
  Bytes, List, [], bytes_eq, codes, delete, insert, length, lookup, refl, ℕ, ◌+◌, ◌<◌, ◌∷◌, ◌≡◌,
  ◌≢◌, ◌≤◌, bytes_key,
}

-- Two clients under one identifier, of which the second comes when the first has gone.
abbrev heap : Heap
heap a = new_client (codes "x")

abbrev hub : Hub
hub = new_hub 10 heap

abbrev with_first : Hub
with_first = record hub { clients = (codes "x", 0) ∷ [] }

abbrev registered : Round → List (Bytes × ℕ)
registered (went u) = u.clients
registered _ = (codes "no round", 0) ∷ []

abbrev heap_of : Round → Heap
heap_of (went u) = u.heap
heap_of _ = heap

-- The second removal of the first client takes the second client out of the map.
late :
    registered (
      run_unregister
        (record hub { clients = (codes "x", 1) ∷ []; heap = close 0 heap; unregister = 0 ∷ [] }))
    ≡ []
unfolding run_unregister lookup close delete bytes_eq
late = refl

-- A room still has a client that the hub has closed.
abbrev stale_room : Hub
stale_room = record hub {
  heap = close 0 heap;
  rooms = (codes "r", (codes "x", 0) ∷ []) ∷ [];
  broadcast = record { payload = codes "m"; room = codes "r" } ∷ [];
}

closed_in_room : run_broadcast stale_room ≡ crashed
unfolding run_broadcast broadcast_room lookup close offer bytes_eq
closed_in_room = refl

-- The limit does not count the clients that wait to be registered.
over_limit :
    register_client 1 (record (new_hub 1 heap) { register = 0 ∷ [] })
    ≡ accepted (record (new_hub 1 heap) { register = 0 ∷ 1 ∷ [] })
unfolding register_client
over_limit = refl

first-IsFresh : IsFresh hub 0
unfolding lookup
first-IsFresh = record { open_client = refl; unused = refl; alone = tt }

waiting : Hub
waiting = record hub { register = 0 ∷ [] }

first-Steps : Steps hub waiting
unfolding waiting register_client
first-Steps = and_then stop (registers 0 first-IsFresh refl)

Steps-safe_example : IsSound waiting × (run_broadcast waiting ≢ crashed)
Steps-safe_example = Steps-safe 10 heap waiting first-Steps

abbrev note : Message
note = record { payload = codes "m"; room = [] }

-- A client has come, and a message to all.
abbrev noted : Hub
noted = record with_first { broadcast = note ∷ []; total_clients = 1 }

noted-Steps : Steps hub noted
unfolding waiting register_client run_register broadcast_message insert
noted-Steps = and_then (and_then first-Steps (takes_register refl)) (broadcasts (codes "m") refl)

noted-IsSound : IsSound noted
noted-IsSound = (Steps-safe 10 heap noted noted-Steps).0

-- It gets the message.
noted_queue : (heap_of (run_broadcast noted) 0).queue ≡ codes "m" ∷ []
unfolding run_broadcast broadcast_clients offer
noted_queue = refl

run_broadcast-Delivers_example :
    (length noted.unregister + length (full_clients noted.heap noted.clients) ≤ channel_size
      → Delivers noted note)
    × (channel_size < length noted.unregister + length (full_clients noted.heap noted.clients)
        → run_broadcast noted ≡ stuck)
run_broadcast-Delivers_example = run_broadcast-Delivers noted note [] noted-IsSound refl refl
