-- ===== src/WebSocket/Hub.antt =====
-- core/websocket/hub.go: the hub, its rooms, and the loop of `run`, one message at a time. Clients
-- are shared by pointers, so they stand in a heap. A send to a closed channel panics, and one to a
-- full channel waits. The connection of a client and its two pumps are left out, but for what they
-- put into the channels.
pub mod Broadcasts
pub mod Invariant
pub mod Rounds
pub mod Steps
mod Tests
use fast_server.Base.{
  Bool, Bytes, List, Option, [], delete, false, if◌then◌else◌, insert, leb, length, lookup, ltb,
  none, some, true, ℕ, ◌++◌, ◌+◌, ◌==◌, ◌∷◌, bytes_key,
}

-- `queue` is what waits in `Send`.
pub record Client : Type 0 where
  pub id : Bytes
  pub queue : List Bytes
  pub closed : Bool

abbrev pub Heap : Type 0
Heap = ℕ → Client

abbrev pub update : Heap → ℕ → Client → Heap
update h a c b = if a == b then c else h b

-- The capacities of the channels.
abbrev pub send_size : ℕ
send_size = 256

abbrev pub channel_size : ℕ
channel_size = 100

abbrev pub broadcast_size : ℕ
broadcast_size = 1000

-- `BroadcastMessage`; an empty room is the whole hub.
pub record Message : Type 0 where
  pub payload : Bytes
  pub room : Bytes

-- `clients` and the members of a room are addresses by identifier.
pub record Hub : Type 0 where
  pub heap : Heap
  pub clients : List (Bytes × ℕ)
  pub rooms : List (Bytes × List (Bytes × ℕ))
  pub broadcast : List Message
  pub register : List ℕ
  pub unregister : List ℕ
  pub total_clients : ℕ
  pub message_count : ℕ
  pub max_clients : ℕ

-- `NewClient`
abbrev pub new_client : Bytes → Client
new_client id = record { id = id; queue = []; closed = false }

-- `NewHub`, on a limit that is not negative.
abbrev pub new_hub : ℕ → Heap → Hub
new_hub max_clients heap = record {
  heap = heap;
  clients = [];
  rooms = [];
  broadcast = [];
  register = [];
  unregister = [];
  total_clients = 0;
  message_count = 0;
  max_clients = if max_clients == 0 then 10000 else max_clients;
}

-- `Close`
pub close : ℕ → Heap → Heap
close a h = update h a (record (h a) { closed = true })

-- `select { case client.Send <- payload: default: }`
pub data Offer : Type 0 where
  sent : Heap → Offer
  full closed_channel : Offer

pub offer : Bytes → ℕ → Heap → Offer
offer payload a h =
    if (h a).closed
    then closed_channel
    else if ltb (length (h a).queue) send_size
    then sent (update h a (record (h a) { queue = (h a).queue ++ payload ∷ [] }))
    else full

-- What a broadcast comes to: the heap and the channel of clients to remove; or a panic; or a send to
-- that channel which waits for the very goroutine that would empty it.
pub data Delivery : Type 0 where
  delivered : Heap → List ℕ → Delivery
  panicked blocked : Delivery

-- The loop of `run` over all clients.
pub broadcast_clients : Bytes → List (Bytes × ℕ) → Heap → List ℕ → Delivery
broadcast_clients payload [] h unregister = delivered h unregister
broadcast_clients payload ((id, a) ∷ clients) h unregister = elim (offer payload a h) [
  | closed_channel ↦ panicked
  | sent h' ↦ broadcast_clients payload clients h' unregister
  | full ↦ elim (ltb (length unregister) channel_size) [
    | true ↦ broadcast_clients payload clients h (unregister ++ a ∷ [])
    | false ↦ blocked
  ]
]

-- `Room.Broadcast`
pub broadcast_room : Bytes → List (Bytes × ℕ) → Heap → List ℕ → Delivery
broadcast_room payload [] h unregister = delivered h unregister
broadcast_room payload ((id, a) ∷ clients) h unregister = elim (offer payload a h) [
  | closed_channel ↦ panicked
  | sent h' ↦ broadcast_room payload clients h' unregister
  | full ↦ broadcast_room payload clients h unregister
]

-- The members of a room that is there.
abbrev pub members : Bytes → List (Bytes × List (Bytes × ℕ)) → List (Bytes × ℕ)
members name rooms = elim (lookup name rooms) [ none ↦ [] | some ms ↦ ms ]

abbrev pub deliver : Message → Hub → Delivery
deliver m hub = elim m.room [
  | [] ↦ broadcast_clients m.payload hub.clients hub.heap hub.unregister
  | c ∷ name ↦ broadcast_room m.payload (members (c ∷ name) hub.rooms) hub.heap hub.unregister
]

-- A round of `run`: the hub that it leaves, a panic, a wait without end, or no message to take.
pub data Round : Type 0 where
  went : Hub → Round
  crashed stuck idle : Round

abbrev pub after : Hub → Delivery → Round
after hub (delivered h unregister) = went (record hub { heap = h; unregister = unregister })
after hub panicked = crashed
after hub blocked = stuck

-- The three cases of the `select`, each taken when its channel holds something.
pub run_register : Hub → Round
run_register hub = elim hub.register [
  | [] ↦ idle
  | a ∷ rest ↦ went (record hub {
    clients = insert (hub.heap a).id a hub.clients;
    register = rest;
    total_clients = hub.total_clients + 1;
  })
]

pub run_unregister : Hub → Round
run_unregister hub = elim hub.unregister [
  | [] ↦ idle
  | a ∷ rest ↦ elim (lookup (hub.heap a).id hub.clients) [
    | none ↦ went (record hub { unregister = rest })
    | some b ↦ went (record hub {
      clients = delete (hub.heap a).id hub.clients;
      heap = close a hub.heap;
      unregister = rest;
    })
  ]
]

pub run_broadcast : Hub → Round
run_broadcast hub = elim hub.broadcast [
  | [] ↦ idle
  | m ∷ rest ↦
      after (record hub { broadcast = rest; message_count = hub.message_count + 1 }) (deliver m hub)
]

-- What a caller gets: the hub with what was sent, an error, or a wait while a channel is full.
pub data Sent : Type 0 where
  accepted : Hub → Sent
  refused waits : Sent

-- `Register`, up to the start of the pumps.
pub register_client : ℕ → Hub → Sent
register_client a hub =
    if leb hub.max_clients (length hub.clients)
    then refused
    else if ltb (length hub.register) channel_size
    then accepted (record hub { register = hub.register ++ a ∷ [] })
    else waits

-- `Unregister`
pub unregister_client : ℕ → Hub → Sent
unregister_client a hub =
    if ltb (length hub.unregister) channel_size
    then accepted (record hub { unregister = hub.unregister ++ a ∷ [] })
    else waits

-- `Broadcast`; the operation code of the message is never read.
pub broadcast_message : Bytes → Bytes → Hub → Sent
broadcast_message payload room hub =
    if ltb (length hub.broadcast) broadcast_size
    then accepted
        (record hub { broadcast = hub.broadcast ++ record { payload = payload; room = room } ∷ [] })
    else waits

-- `SendTo`; `none` is the error of a client that is not there.
pub send_to : Bytes → Bytes → Hub → Option Offer
send_to id payload hub = elim (lookup id hub.clients) [
  | none ↦ none
  | some a ↦ some (offer payload a hub.heap)
]

-- `CreateRoom` and `DeleteRoom`.
pub create_room : Bytes → Hub → Hub
create_room name hub = record hub { rooms = insert name [] hub.rooms }

pub delete_room : Bytes → Hub → Hub
delete_room name hub = record hub { rooms = delete name hub.rooms }

-- A change of the room that the hub has under a name; one that it no longer has is out of reach.
abbrev pub change_room : Bytes → (List (Bytes × ℕ) → List (Bytes × ℕ)) → Hub → Hub
change_room name f hub = elim (lookup name hub.rooms) [
  | none ↦ hub
  | some ms ↦ record hub { rooms = insert name (f ms) hub.rooms }
]

-- `Join`; `none` is the error of a client that is not there.
pub join : Bytes → Bytes → Hub → Option Hub
join name id hub = elim (lookup id hub.clients) [
  | none ↦ none
  | some a ↦ some (change_room name (insert id a) hub)
]

-- `Leave`
pub leave : Bytes → Bytes → Hub → Hub
leave name id hub = change_room name (delete id) hub
