-- ===== src/Sse/Broker.antt =====
-- core/sse/broker.go: `Broker`, the cases of its loop, and the calls. Clients are shared by pointers, so
-- they stand in a heap. `Range` meets the entries in the order of the list; the counters do not wrap.
pub mod Bounds
pub mod Entries
pub mod Reach
mod Tests
use fast_server.Base.{
  Bool, Bytes, List, Option, [], codes, delete, drop, false, if◌then◌else◌, insert, leb, length,
  lookup, ltb, none, some, suc, true, ℕ, ◌++◌, ◌+◌, ◌==◌, ◌∷◌, ◌≡◌, bytes_key,
}
use fast_server.Sse.Event.{Client, Event, close, send}

abbrev pub Heap : Type 0
Heap = ℕ → Client

abbrev pub update : Heap → ℕ → Client → Heap
update h a c b = if a == b then c else h b

-- The capacities of the channels.
abbrev pub channel_size : ℕ
channel_size = 100

abbrev pub messages_size : ℕ
messages_size = 1000

-- `clients` are addresses by identifier; `registering` is a client that `Register` has still to send.
pub record Broker : Type 0 where
  pub heap : Heap
  pub clients : List (Bytes × ℕ)
  pub registering : Option ℕ
  pub new_clients : List ℕ
  pub dead_clients : List ℕ
  pub messages : List Event
  pub total_clients : ℕ
  pub messages_count : ℕ
  pub dropped_count : ℕ
  pub max_clients : ℕ

-- `NewBroker`; a limit that is not positive is 0 here.
abbrev pub new_broker : ℕ → Heap → Broker
new_broker max_clients heap = record {
  heap = heap;
  clients = [];
  registering = none;
  new_clients = [];
  dead_clients = [];
  messages = [];
  total_clients = 0;
  messages_count = 0;
  dropped_count = 0;
  max_clients = if max_clients == 0 then 10000 else max_clients;
}

-- The loop of `broadcast`: the heap after it, and how many clients dropped the event.
pub broadcast : Event → List (Bytes × ℕ) → Heap → Heap × ℕ
broadcast e [] h = (h, 0)
broadcast e ((id, a) ∷ clients) h =
    let r = broadcast e clients (update h a (send e (h a)).0) in
    (r.0, if (send e (h a)).1 then r.1 else suc r.1)

abbrev pub broadcast_event : Event → Broker → Broker
broadcast_event e b = record b {
  heap = (broadcast e b.clients b.heap).0;
  dropped_count = b.dropped_count + (broadcast e b.clients b.heap).1;
}

-- The three cases of `run`; `none` if the channel of the case is empty.
pub run_new : Broker → Option Broker
run_new b = elim b.new_clients [
  | [] ↦ none
  | a ∷ rest ↦ some (record b {
    clients = insert (b.heap a).client_id a b.clients;
    new_clients = rest;
    total_clients = b.total_clients + 1;
  })
]

pub run_dead : Broker → Option Broker
run_dead b = elim b.dead_clients [
  | [] ↦ none
  | a ∷ rest ↦ some (record b {
    clients = delete (b.heap a).client_id b.clients;
    heap = update b.heap a (close (b.heap a));
    dead_clients = rest;
  })
]

pub run_message : Broker → Option Broker
run_message b = elim b.messages [
  | [] ↦ none
  | e ∷ rest ↦
      some (broadcast_event e (record b { messages = rest; messages_count = b.messages_count + 1 }))
]

-- The event of `keepalive`, on the seconds as text.
abbrev pub keepalive_event : Bytes → Event
keepalive_event timestamp = record {
  id = [];
  event = codes "keepalive";
  data_text = codes "timestamp:" ++ timestamp;
  retry = 0;
}

-- A tick of `keepalive`
abbrev pub keepalive : Bytes → Broker → Broker
keepalive timestamp b = broadcast_event (keepalive_event timestamp) b

-- What a caller gets: the broker with what was sent, the error, or a wait while the channel is full.
pub data Sent : Type 0 where
  accepted : Broker → Sent
  refused waits : Sent

-- `Register`, the count of the clients. A call begins when the one before it has ended.
pub register : ℕ → Broker → Sent
register a b = elim b.registering [
  | some c ↦ waits
  | none ↦
      if leb b.max_clients (length b.clients)
      then refused
      else accepted (record b { registering = some a })
]

-- `Register`, the send, which blocks while the channel is full.
pub send_new : Broker → Sent
send_new b = elim b.registering [
  | none ↦ refused
  | some a ↦
      if ltb (length b.new_clients) channel_size
      then accepted (record b { registering = none; new_clients = b.new_clients ++ a ∷ [] })
      else waits
]

pub unregister : ℕ → Broker → Sent
unregister a b =
    if ltb (length b.dead_clients) channel_size
    then accepted (record b { dead_clients = b.dead_clients ++ a ∷ [] })
    else waits

pub publish : Event → Broker → Sent
publish e b =
    if ltb (length b.messages) messages_size
    then accepted (record b { messages = b.messages ++ e ∷ [] })
    else waits

-- `PublishToClient`
pub publish_to_client : Bytes → Event → Broker → Broker × Bool
publish_to_client id e b = elim (lookup id b.clients) [
  | none ↦ (b, false)
  | some a ↦ (record b { heap = update b.heap a (send e (b.heap a)).0 }, (send e (b.heap a)).1)
]

-- `ClientCount`
abbrev pub client_count : Broker → ℕ
client_count b = length b.clients

-- A receive from the channel of a client.
abbrev pub receive : ℕ → Broker → Broker
receive a b = record b {
  heap = update b.heap a (record (b.heap a) { channel = drop 1 (b.heap a).channel });
}

-- A part of a call, a case of `run`, a tick, or a receive. Calls of `Register` do not overlap here, and
-- no `Close` runs between the look at `closeCh` and the send of a `Send`, which would panic.
pub data Step (b : Broker) : Broker → Type 0 where
  registers : {u : Broker} (a : ℕ) → register a b ≡ accepted u → Step b u
  sends_new : {u : Broker} → send_new b ≡ accepted u → Step b u
  unregisters : {u : Broker} (a : ℕ) → unregister a b ≡ accepted u → Step b u
  publishes : {u : Broker} (e : Event) → publish e b ≡ accepted u → Step b u
  publishes_to : (id : Bytes) (e : Event) → Step b (publish_to_client id e b).0
  takes_new : {u : Broker} → run_new b ≡ some u → Step b u
  takes_dead : {u : Broker} → run_dead b ≡ some u → Step b u
  takes_message : {u : Broker} → run_message b ≡ some u → Step b u
  ticks : (timestamp : Bytes) → Step b (keepalive timestamp b)
  receives : (a : ℕ) → Step b (receive a b)
  closes : (a : ℕ) → Step b (record b { heap = update b.heap a (close (b.heap a)) })

pub data Steps : Broker → Broker → Type 0 where
  stop : {b : Broker} → Steps b b
  and_then : {b u v : Broker} → Steps b u → Step u v → Steps b v
