-- ===== src/Sse/Broker/Tests.antt =====
-- core/sse/broker.go: a broker with two clients, of which one has no room, and one message.
use fast_server.Base.{
  ◌&&◌, ◌++◌, [], bytes_eq, insert, false, if◌then◌else◌, codes, refl, some, ℕ, ◌+◌, ◌∷◌, ◌≡◌, ◌==◌,
}
use fast_server.Sse.Event.{Event}
use fast_server.WebSocket.Hub.Broadcasts.{stands}
use fast_server.Sse.Broker.{
  Broker, Heap, Steps, and_then, new_broker, publish, publishes, register, registers, run_message,
  run_new, send_new, sends_new, stop, takes_new,
}
use fast_server.Sse.Broker.Bounds.{IsBounded, new_broker-IsBounded}
use fast_server.Sse.Broker.Reach.{can_take, refusals, run_message-reaches}

abbrev tick : Event
tick = record { id = codes "7"; event = []; data_text = codes "a"; retry = 0 }

-- Client 0 has room for one event, the others for none.
abbrev heap : Heap
heap a = record {
  client_id = if a == 0 then codes "c" else codes "d";
  channel = [];
  buffer_size = if a == 0 then 1 else 0;
  closed = false;
}

abbrev empty : Broker
empty = new_broker 2 heap

abbrev waiting : Broker
waiting = record empty { new_clients = 0 ∷ 1 ∷ [] }

abbrev joined : Broker
joined = record empty { clients = (codes "c", 0) ∷ (codes "d", 1) ∷ []; total_clients = 2 }

abbrev published : Broker
published = record joined { messages = tick ∷ [] }

published-Steps : Steps empty published
unfolding register send_new publish run_new insert bytes_eq
published-Steps =
    and_then
      (and_then
        (and_then
          (and_then
            (and_then (and_then (and_then stop (registers 0 refl)) (sends_new refl))
              (registers 1 refl))
            (sends_new refl))
          (takes_new refl))
        (takes_new refl))
      (publishes tick refl)

new_broker-IsBounded_example : IsBounded published
new_broker-IsBounded_example = new_broker-IsBounded 2 heap published published-Steps

run_message-reaches_example :
    (u : Broker) × (run_message published ≡ some u)
    × ((a : ℕ)
        → u.heap a ≡ (
            if stands a published.clients && can_take (heap a)
            then record (heap a) { channel = (heap a).channel ++ tick ∷ [] }
            else heap a))
    × (u.dropped_count ≡ 0 + refusals heap published.clients)
    × (u.messages ≡ [])
run_message-reaches_example = run_message-reaches 2 heap published tick [] published-Steps refl

-- The client without room drops the message.
dropped_test : refusals heap published.clients ≡ 1
dropped_test = refl
