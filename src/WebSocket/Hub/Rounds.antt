-- ===== src/WebSocket/Hub/Rounds.antt =====
-- core/websocket/hub.go: what a round of `run` keeps, and what it delivers.
use fast_server.WebSocket.Hub.{
  Hub, Message, Round, channel_size, close, crashed, idle, run_broadcast, run_register,
  run_unregister, stuck, went,
}
use fast_server.WebSocket.Hub.Broadcasts.{
  broadcast_clients_lem, full_clients, given, given_lem, is_full, stands,
}
use fast_server.Base.{
  Bool-cases, List, Option-cases, [], arith, delete, delete-All, delete-Once, if◌then◌else◌, inl,
  inr, insert, insert-All, insert-Once, leb, length, length-append, lookup, none, not, refl, some,
  ℕ, ◌&&◌, ◌++◌, ◌+◌, ◌<◌, ◌∷◌, ◌≡◌, ◌≤◌, bytes_key,
}
use fast_server.WebSocket.Hub.Invariant.{
  IsMember, IsSound, Pending, Pending-Alike, Pending-close, Pending-insert, entries-Alike,
  entries-AllOpen, entries-Apart, entries-close, given-Alike,
}

-- What a round may come to.
abbrev pub Keeps : Round → Type 0
Keeps (went hub) = IsSound hub
Keeps crashed = ⊥
Keeps stuck = Unit
Keeps idle = Unit

pub run_register-Keeps : (hub : Hub) → IsSound hub → Keeps (run_register hub)
unfolding run_register
run_register-Keeps hub w = go hub.register w.pending
  where
    go :
        (register : List ℕ)
        → Pending hub.heap hub.clients register
        → Keeps (elim register as (λ x. Round) [
          | [] ↦ idle
          | a ∷ rest ↦ went (record hub {
            clients = insert (hub.heap a).id a hub.clients;
            register = rest;
            total_clients = hub.total_clients + 1;
          })
        ])
    go [] p = tt
    go (a ∷ rest) p = record {
      entries =
          insert-All (IsMember hub.heap) (hub.heap a).id a hub.clients (refl, p.0.0) w.entries;
      once = insert-Once (hub.heap a).id a hub.clients w.once;
      pending = Pending-insert hub.heap hub.clients a rest p.0.2 p.1;
      room = w.room;
      whole = w.whole;
    }

Keeps-eq : {r : Round} (u : Round) → r ≡ u → Keeps u → Keeps r
Keeps-eq u q w = rw q w

pub run_unregister-Keeps : (hub : Hub) → IsSound hub → Keeps (run_unregister hub)
unfolding run_unregister
run_unregister-Keeps hub w = go hub.unregister w.room
  where
    next : ℕ → List ℕ → Round
    next a rest = elim (lookup (hub.heap a).id hub.clients) [
      | none ↦ went (record hub { unregister = rest })
      | some b ↦ went (record hub {
        clients = delete (hub.heap a).id hub.clients;
        heap = close a hub.heap;
        unregister = rest;
      })
    ]

    at : (a : ℕ) (rest : List ℕ) → length rest ≤ channel_size → Keeps (next a rest)
    at a rest l = elim (Option-cases (lookup (hub.heap a).id hub.clients)) [
      | inl f ↦ Keeps-eq (went (record hub { unregister = rest })) (ground (arith, f)) (record {
        entries = w.entries;
        once = w.once;
        pending = w.pending;
        room = l;
        whole = w.whole;
      })
      | inr (b, f) ↦
          Keeps-eq
            (went (record hub {
              clients = delete (hub.heap a).id hub.clients;
              heap = close a hub.heap;
              unregister = rest;
            }))
            (ground (arith, f))
            (record {
              entries =
                  entries-close hub.heap a (delete (hub.heap a).id hub.clients)
                    (delete-All (IsMember hub.heap) (hub.heap a).id hub.clients w.entries);
              once = delete-Once (hub.heap a).id hub.clients w.once;
              pending = Pending-close hub.heap hub.clients a b hub.register f w.pending;
              room = l;
              whole = w.whole;
            })
    ]

    go :
        (unregister : List ℕ)
        → length unregister ≤ channel_size
        → Keeps (elim unregister as (λ x. Round) [ [] ↦ idle | a ∷ rest ↦ next a rest ])
    go [] l = tt
    go (a ∷ rest) l = at a rest (omega (arith, l))

-- The hub behind a broadcast to all that had room.
abbrev pub broadcast_done : Hub → Message → List Message → Hub
broadcast_done hub m rest = record hub {
  heap = given m.payload hub.clients hub.heap;
  unregister = hub.unregister ++ full_clients hub.heap hub.clients;
  broadcast = rest;
  message_count = hub.message_count + 1;
}

run_broadcast-whole :
    (hub : Hub) (m : Message) (rest : List Message)
    → IsSound hub
    → hub.broadcast ≡ m ∷ rest
    → m.room ≡ []
    → run_broadcast hub ≡ (
        if leb (length hub.unregister + length (full_clients hub.heap hub.clients)) channel_size
        then went (broadcast_done hub m rest)
        else stuck)
unfolding run_broadcast
run_broadcast-whole hub m rest w b r = ground (
  arith,
  b,
  r,
  broadcast_clients_lem m.payload hub.clients hub.heap hub.unregister
      (entries-AllOpen hub.heap hub.clients w.entries)
      (entries-Apart hub.heap hub.clients w.entries w.once) w.room,
)

pub run_broadcast-Keeps : (hub : Hub) → IsSound hub → Keeps (run_broadcast hub)
run_broadcast-Keeps hub w = go hub.broadcast refl
  where
    go : (ms : List Message) → hub.broadcast ≡ ms → Keeps (run_broadcast hub)
    go [] e = Keeps-eq idle (unfold run_broadcast in ground (arith, e)) tt
    go (m ∷ rest) e =
        let v = rw e at (w.whole) in
        let r = run_broadcast-whole hub m rest w e v.0 in
        elim (Bool-cases
          (leb (length hub.unregister + length (full_clients hub.heap hub.clients)) channel_size)) [
            | inl fits ↦ Keeps-eq (went (broadcast_done hub m rest)) (ground (arith, r, fits)) (
                let k =
                  given-Alike m.payload hub.clients hub.heap
                    (entries-Apart hub.heap hub.clients w.entries w.once) in
                record {
                  entries =
                      entries-Alike hub.heap (given m.payload hub.clients hub.heap) hub.clients k
                        w.entries;
                  once = w.once;
                  pending =
                      Pending-Alike hub.heap (given m.payload hub.clients hub.heap) hub.clients
                        hub.register k w.pending;
                  room = ground (
                    arith,
                    fits,
                    length-append hub.unregister (full_clients hub.heap hub.clients),
                  );
                  whole = v.1;
                })
            | inr over ↦ Keeps-eq stuck (ground (arith, r, over)) tt
          ]

-- What a message to all comes to if the channel for removals has room.
abbrev pub Delivers : Hub → Message → Type 0
Delivers hub m =
    (u : Hub) × (run_broadcast hub ≡ went u)
    × (u.unregister ≡ hub.unregister ++ full_clients hub.heap hub.clients)
    × ((b : ℕ)
        → u.heap b ≡ (
            if stands b hub.clients && not (is_full hub.heap b)
            then record (hub.heap b) { queue = (hub.heap b).queue ++ m.payload ∷ [] }
            else hub.heap b))

-- A round of a sound hub that takes a message to all, and during which nobody else sends or closes, puts the
-- payload behind the queue of every registered client with room and asks for the removal of the registered
-- clients without room, if the channel for removals has room for all of these; if it has not, the loop
-- waits for itself for ever.
pub run_broadcast-Delivers :
    (hub : Hub) (m : Message) (rest : List Message)
    → IsSound hub
    → hub.broadcast ≡ m ∷ rest
    → m.room ≡ []
    → (length hub.unregister + length (full_clients hub.heap hub.clients) ≤ channel_size
        → Delivers hub m)
      × (channel_size < length hub.unregister + length (full_clients hub.heap hub.clients)
          → run_broadcast hub ≡ stuck)
run_broadcast-Delivers hub m rest w b r =
    let e = run_broadcast-whole hub m rest w b r in
    let p = entries-Apart hub.heap hub.clients w.entries w.once in
    (
      λ fits. (
        broadcast_done hub m rest,
        ground (arith, e, fits),
        refl,
        λ c. given_lem m.payload hub.clients hub.heap c p,
      ),
      λ over. ground (arith, e, over),
    )
