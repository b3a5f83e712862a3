-- ===== src/Sse/Broker/Bounds.antt =====
-- core/sse/broker.go: how many clients and messages the broker holds.
use fast_server.Sse.Broker.{
  Broker, Step, Steps, accepted, and_then, channel_size, client_count, closes, messages_size,
  new_broker, publish, publish_to_client, publishes, publishes_to, receives, register, registers,
  run_dead, run_message, run_new, send_new, sends_new, stop, takes_dead, takes_message, takes_new,
  ticks, unregister, unregisters, Heap,
}
use fast_server.Sse.Event.{Event}
use fast_server.Base.{
  Bytes, List, Option, [], none, arith, length, length-append, length-delete-le, length-insert-le,
  refl, some, ℕ, ◌++◌, ◌+◌, ◌<◌, ◌∷◌, ◌≡◌, ◌≤◌, bytes_key,
}

abbrev pub waiting_to_send : Option ℕ → ℕ
waiting_to_send none = 0
waiting_to_send (some a) = 1

-- The clients of the map, and those on the way to it.
abbrev pub comers : Broker → ℕ
comers b = client_count b + length b.new_clients + waiting_to_send b.registering

pub record IsBounded (b : Broker) : Type 0 where
  pub some_client : 0 < b.max_clients
  pub few_clients : comers b ≤ b.max_clients + channel_size
  pub few_new : length b.new_clients ≤ channel_size
  pub few_dead : length b.dead_clients ≤ channel_size
  pub few_messages : length b.messages ≤ messages_size

IsBounded-eq : {u : Broker} (v : Broker) → v ≡ u → IsBounded v → IsBounded u
IsBounded-eq v e w = rw (← e) w

-- Only the sizes and the limit count.
IsBounded-sizes :
    (b u : Broker)
    → u.max_clients ≡ b.max_clients
    → comers u ≤ comers b
    → length u.new_clients ≤ length b.new_clients
    → length u.dead_clients ≤ length b.dead_clients
    → length u.messages ≤ length b.messages
    → IsBounded b
    → IsBounded u
IsBounded-sizes b u l c n d m w = record {
  some_client = ground (arith, l, w.some_client);
  few_clients = ground (arith, l, c, w.few_clients);
  few_new = ground (arith, n, w.few_new);
  few_dead = ground (arith, d, w.few_dead);
  few_messages = ground (arith, m, w.few_messages);
}

register-IsBounded : (a : ℕ) (b u : Broker) → IsBounded b → register a b ≡ accepted u → IsBounded u
unfolding register
register-IsBounded a b u w e =
    IsBounded-eq (record b { registering = some a }) (ground (arith, e))
      (record {
        some_client = w.some_client;
        few_clients = ground (arith, e, w.few_new);
        few_new = w.few_new;
        few_dead = w.few_dead;
        few_messages = w.few_messages;
      })

send_new-IsBounded : (b u : Broker) → IsBounded b → send_new b ≡ accepted u → IsBounded u
unfolding send_new
send_new-IsBounded b u w e = go b.registering refl
  where
    go : (r : Option ℕ) → b.registering ≡ r → IsBounded u
    go none q = absurd (ground (arith, e, q))
    go (some a) q =
        let more = length-append b.new_clients (a ∷ []) in
        IsBounded-eq (record b { registering = none; new_clients = b.new_clients ++ a ∷ [] })
          (ground (arith, e, q))
          (record {
            some_client = w.some_client;
            few_clients = ground (arith, q, more, w.few_clients);
            few_new = ground (arith, e, q, more);
            few_dead = w.few_dead;
            few_messages = w.few_messages;
          })

unregister-IsBounded :
    (a : ℕ) (b u : Broker) → IsBounded b → unregister a b ≡ accepted u → IsBounded u
unfolding unregister
unregister-IsBounded a b u w e =
    IsBounded-eq (record b { dead_clients = b.dead_clients ++ a ∷ [] }) (ground (arith, e))
      (record {
        some_client = w.some_client;
        few_clients = w.few_clients;
        few_new = w.few_new;
        few_dead = ground (arith, e, length-append b.dead_clients (a ∷ []));
        few_messages = w.few_messages;
      })

publish-IsBounded :
    (m : Event) (b u : Broker) → IsBounded b → publish m b ≡ accepted u → IsBounded u
unfolding publish
publish-IsBounded m b u w e =
    IsBounded-eq (record b { messages = b.messages ++ m ∷ [] }) (ground (arith, e))
      (record {
        some_client = w.some_client;
        few_clients = w.few_clients;
        few_new = w.few_new;
        few_dead = w.few_dead;
        few_messages = ground (arith, e, length-append b.messages (m ∷ []));
      })

run_new-IsBounded : (b u : Broker) → IsBounded b → run_new b ≡ some u → IsBounded u
unfolding run_new
run_new-IsBounded b u w e = go b.new_clients refl
  where
    go : (xs : List ℕ) → b.new_clients ≡ xs → IsBounded u
    go [] q = absurd (ground (arith, e, q))
    go (a ∷ rest) q =
        IsBounded-sizes b u (ground (arith, e, q))
          (ground (arith, e, q, length-insert-le (b.heap a).client_id a b.clients))
          (ground (arith, e, q)) (ground (arith, e, q)) (ground (arith, e, q)) w

run_dead-IsBounded : (b u : Broker) → IsBounded b → run_dead b ≡ some u → IsBounded u
unfolding run_dead
run_dead-IsBounded b u w e = go b.dead_clients refl
  where
    go : (xs : List ℕ) → b.dead_clients ≡ xs → IsBounded u
    go [] q = absurd (ground (arith, e, q))
    go (a ∷ rest) q =
        IsBounded-sizes b u (ground (arith, e, q))
          (ground (arith, e, q, length-delete-le (b.heap a).client_id b.clients))
          (ground (arith, e, q)) (ground (arith, e, q)) (ground (arith, e, q)) w

run_message-IsBounded : (b u : Broker) → IsBounded b → run_message b ≡ some u → IsBounded u
unfolding run_message
run_message-IsBounded b u w e = go b.messages refl
  where
    go : (xs : List Event) → b.messages ≡ xs → IsBounded u
    go [] q = absurd (ground (arith, e, q))
    go (m ∷ rest) q =
        IsBounded-sizes b u (ground (arith, e, q)) (ground (arith, e, q)) (ground (arith, e, q))
          (ground (arith, e, q)) (ground (arith, e, q)) w

publish_to_client-IsBounded :
    (id : Bytes) (m : Event) (b : Broker) → IsBounded b → IsBounded (publish_to_client id m b).0
unfolding publish_to_client
publish_to_client-IsBounded id m b w =
    IsBounded-sizes b (publish_to_client id m b).0 (ground arith) (ground arith) (ground arith)
      (ground arith) (ground arith) w

Step-IsBounded : (b u : Broker) → Step b u → IsBounded b → IsBounded u
Step-IsBounded b u (registers a e) w = register-IsBounded a b u w e
Step-IsBounded b u (sends_new e) w = send_new-IsBounded b u w e
Step-IsBounded b u (unregisters a e) w = unregister-IsBounded a b u w e
Step-IsBounded b u (publishes m e) w = publish-IsBounded m b u w e
Step-IsBounded b u (publishes_to id m) w = publish_to_client-IsBounded id m b w
Step-IsBounded b u (takes_new e) w = run_new-IsBounded b u w e
Step-IsBounded b u (takes_dead e) w = run_dead-IsBounded b u w e
Step-IsBounded b u (takes_message e) w = run_message-IsBounded b u w e
Step-IsBounded b u (ticks timestamp) w =
    IsBounded-sizes b u refl (omega arith) (omega arith) (omega arith) (omega arith) w
Step-IsBounded b u (receives a) w =
    IsBounded-sizes b u refl (omega arith) (omega arith) (omega arith) (omega arith) w
Step-IsBounded b u (closes a) w =
    IsBounded-sizes b u refl (omega arith) (omega arith) (omega arith) (omega arith) w

Steps-IsBounded : (b u : Broker) → Steps b u → IsBounded b → IsBounded u
Steps-IsBounded b u stop w = w
Steps-IsBounded b u (and_then {u = v} s t) w = Step-IsBounded v u t (Steps-IsBounded b v s w)

-- While calls of Register do not overlap, the broker has at most 100 clients above its limit, with those
-- that wait in its channel or to enter it, and its channels keep to their sizes.
pub new_broker-IsBounded : (n : ℕ) (h : Heap) (b : Broker) → Steps (new_broker n h) b → IsBounded b
new_broker-IsBounded n h b s = Steps-IsBounded (new_broker n h) b s (record {
  some_client = ground arith;
  few_clients = ground arith;
  few_new = omega arith;
  few_dead = omega arith;
  few_messages = omega arith;
})
