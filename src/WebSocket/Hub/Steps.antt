-- ===== src/WebSocket/Hub/Steps.antt =====
-- core/websocket/hub.go: the hub as a step relation, of the calls and of the rounds of `run`.
use fast_server.WebSocket.Hub.{
  Heap, Hub, Round, accepted, broadcast_message, crashed, new_hub, register_client, run_broadcast,
  run_register, run_unregister, unregister_client, went,
}
use fast_server.WebSocket.Hub.Broadcasts.{IsOpen}
use fast_server.WebSocket.Hub.Invariant.{IsSound, Pending, new_hub-IsSound}
use fast_server.WebSocket.Hub.Rounds.{
  Keeps, run_broadcast-Keeps, run_register-Keeps, run_unregister-Keeps,
}
use fast_server.Base.{
  All, All-append, Bytes, List, [], arith, bytes_eq, false, length-append, lookup, none, refl, ℕ,
  ◌++◌, ◌∷◌, ◌≡◌, ◌≢◌, bytes_key,
}

-- An open client under an identifier that no registered or waiting client has.
pub record IsFresh (hub : Hub) (a : ℕ) : Type 0 where
  pub open_client : IsOpen hub.heap a
  pub unused : lookup (hub.heap a).id hub.clients ≡ none
  pub alone : All (λ b. bytes_eq (hub.heap b).id (hub.heap a).id ≡ false) hub.register

-- A call that a caller makes, or a round of `run`; broadcasts go to the whole hub.
pub data Step (hub : Hub) : Hub → Type 0 where
  registers : {u : Hub} (a : ℕ) → IsFresh hub a → register_client a hub ≡ accepted u → Step hub u
  unregisters : {u : Hub} (a : ℕ) → unregister_client a hub ≡ accepted u → Step hub u
  broadcasts :
      {u : Hub} (payload : Bytes) → broadcast_message payload [] hub ≡ accepted u → Step hub u
  takes_register : {u : Hub} → run_register hub ≡ went u → Step hub u
  takes_unregister : {u : Hub} → run_unregister hub ≡ went u → Step hub u
  takes_broadcast : {u : Hub} → run_broadcast hub ≡ went u → Step hub u

pub data Steps : Hub → Hub → Type 0 where
  stop : {hub : Hub} → Steps hub hub
  and_then : {hub u v : Hub} → Steps hub u → Step u v → Steps hub v

Pending-append :
    (h : Heap) (clients : List (Bytes × ℕ)) (register : List ℕ) (a : ℕ)
    → Pending h clients register
    → IsOpen h a
    → lookup (h a).id clients ≡ none
    → All (λ b. bytes_eq (h b).id (h a).id ≡ false) register
    → Pending h clients (register ++ a ∷ [])
Pending-append h clients [] a p o u n = ((o, u, tt), tt)
Pending-append h clients (b ∷ register) a p o u n = (
  (
    p.0.0,
    p.0.1,
    All-append (λ c. bytes_eq (h b).id (h c).id ≡ false) register (a ∷ []) p.0.2 (n.0, tt),
  ),
  Pending-append h clients register a p.1 o u n.1,
)

IsSound-eq : {u : Hub} (v : Hub) → v ≡ u → IsSound v → IsSound u
IsSound-eq v e w = rw (← e) w

register_client-IsSound :
    (a : ℕ) (hub u : Hub)
    → IsSound hub
    → IsFresh hub a
    → register_client a hub ≡ accepted u
    → IsSound u
unfolding register_client
register_client-IsSound a hub u w f e =
    IsSound-eq (record hub { register = hub.register ++ a ∷ [] }) (ground (arith, e))
      (record {
        entries = w.entries;
        once = w.once;
        pending =
            Pending-append hub.heap hub.clients hub.register a w.pending f.open_client f.unused
              f.alone;
        room = w.room;
        whole = w.whole;
      })

unregister_client-IsSound :
    (a : ℕ) (hub u : Hub) → IsSound hub → unregister_client a hub ≡ accepted u → IsSound u
unfolding unregister_client
unregister_client-IsSound a hub u w e =
    IsSound-eq (record hub { unregister = hub.unregister ++ a ∷ [] }) (ground (arith, e))
      (record {
        entries = w.entries;
        once = w.once;
        pending = w.pending;
        room = ground (arith, e, length-append hub.unregister (a ∷ []));
        whole = w.whole;
      })

broadcast_message-IsSound :
    (payload : Bytes) (hub u : Hub)
    → IsSound hub
    → broadcast_message payload [] hub ≡ accepted u
    → IsSound u
unfolding broadcast_message
broadcast_message-IsSound payload hub u w e =
    IsSound-eq
      (record hub { broadcast = hub.broadcast ++ record { payload = payload; room = [] } ∷ [] })
      (ground (arith, e))
      (record {
        entries = w.entries;
        once = w.once;
        pending = w.pending;
        room = w.room;
        whole =
            All-append (λ m. m.room ≡ []) hub.broadcast
              (record { payload = payload; room = [] } ∷ []) w.whole (refl, tt);
      })

went-IsSound : (r : Round) (u : Hub) → r ≡ went u → Keeps r → IsSound u
went-IsSound r u e k = rw e at k

Step-IsSound : (hub u : Hub) → Step hub u → IsSound hub → IsSound u
Step-IsSound hub u (registers a f e) w = register_client-IsSound a hub u w f e
Step-IsSound hub u (unregisters a e) w = unregister_client-IsSound a hub u w e
Step-IsSound hub u (broadcasts payload e) w = broadcast_message-IsSound payload hub u w e
Step-IsSound hub u (takes_register e) w =
    went-IsSound (run_register hub) u e (run_register-Keeps hub w)
Step-IsSound hub u (takes_unregister e) w =
    went-IsSound (run_unregister hub) u e (run_unregister-Keeps hub w)
Step-IsSound hub u (takes_broadcast e) w =
    went-IsSound (run_broadcast hub) u e (run_broadcast-Keeps hub w)

Steps-IsSound : (hub u : Hub) → Steps hub u → IsSound hub → IsSound u
Steps-IsSound hub u stop w = w
Steps-IsSound hub u (and_then {u = v} s t) w = Step-IsSound v u t (Steps-IsSound hub v s w)

crashed-Keeps : (r : Round) → Keeps r → r ≢ crashed
crashed-Keeps r k e = rw e at k

-- Of a new hub that is driven by such steps no entry is ever closed, the map has an identifier once,
-- and the next round of `run` does not panic on a broadcast.
pub Steps-safe :
    (n : ℕ) (h : Heap) (hub : Hub)
    → Steps (new_hub n h) hub
    → IsSound hub × (run_broadcast hub ≢ crashed)
Steps-safe n h hub s =
    let w = Steps-IsSound (new_hub n h) hub s (new_hub-IsSound n h) in
    (w, crashed-Keeps (run_broadcast hub) (run_broadcast-Keeps hub w))
