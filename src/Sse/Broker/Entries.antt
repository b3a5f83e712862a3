-- ===== src/Sse/Broker/Entries.antt =====
-- core/sse/broker.go: an entry of the map is a client under its own identifier.
use fast_server.Sse.Broker.{
  Broker, Heap, Step, Steps, and_then, broadcast, broadcast_event, closes, keepalive_event, publish,
  publish_to_client, publishes, publishes_to, receives, register, registers, run_dead, run_message,
  run_new, send_new, sends_new, stop, takes_dead, takes_message, takes_new, ticks, unregister,
  unregisters, update,
}
use fast_server.Sse.Event.{Client, Event, close, send}
use fast_server.Base.{
  All, Bool-cases, Bytes, List, Once, Option-cases, [], ap, arith, bytes_eq, delete, delete-All,
  delete-Once, drop, false, inl, inr, insert, insert-All, insert-Once, lookup, refl, some, ℕ, ◌+◌,
  ◌==◌, ◌∙◌, ◌∷◌, ◌≡◌, bytes_key,
}

-- Clients keep their identifiers.
abbrev Alike : Heap → Heap → Type 0
Alike h g = (a : ℕ) → (g a).client_id ≡ (h a).client_id

send-id : (e : Event) (c : Client) → (send e c).0.client_id ≡ c.client_id
unfolding send
send-id e c = ground arith

update-Alike :
    (h : Heap) (a : ℕ) (c : Client) → c.client_id ≡ (h a).client_id → Alike h (update h a c)
update-Alike h a c e b = elim (Bool-cases (a == b)) [
  | inl same ↦
      let s : a ≡ b = ground (arith, same) in ground (arith, same, e, ap (λ i. (h i).client_id) s)
  | inr other ↦ ground (arith, other)
]

broadcast-Alike : (e : Event) (cs : List (Bytes × ℕ)) (h : Heap) → Alike h (broadcast e cs h).0
unfolding broadcast
broadcast-Alike e [] h b = refl
broadcast-Alike e ((id, a) ∷ cs) h b =
    broadcast-Alike e cs (update h a (send e (h a)).0) b
    ∙ update-Alike h a (send e (h a)).0 (send-id e (h a)) b

-- An entry has the identifier of its client.
abbrev pub IsMember : Heap → Bytes × ℕ → Type 0
IsMember h (id, a) = (h a).client_id ≡ id

pub record IsSound (b : Broker) : Type 0 where
  pub entries : All (IsMember b.heap) b.clients
  pub once : Once b.clients

entries-Alike :
    (h g : Heap) (cs : List (Bytes × ℕ)) → Alike h g → All (IsMember h) cs → All (IsMember g) cs
entries-Alike h g [] k w = tt
entries-Alike h g ((id, a) ∷ cs) k w = (k a ∙ w.0, entries-Alike h g cs k w.1)

entries_left :
    (h : Heap) (id : Bytes) (cs : List (Bytes × ℕ))
    → All (λ x. IsMember h x × (bytes_eq x.0 id ≡ false)) cs
    → All (IsMember h) cs
entries_left h id [] w = tt
entries_left h id (c ∷ cs) w = (w.0.0, entries_left h id cs w.1)

IsSound-eq : {u : Broker} (v : Broker) → v ≡ u → IsSound v → IsSound u
IsSound-eq v e w = rw (← e) w

-- Where the map stays, only the identifiers count.
IsSound-Alike :
    (b : Broker) (g : Heap) → Alike b.heap g → IsSound b → IsSound (record b { heap = g })
IsSound-Alike b g k w = record {
  entries = entries-Alike b.heap g b.clients k w.entries;
  once = w.once;
}

same_map : (b u : Broker) → u.heap ≡ b.heap → u.clients ≡ b.clients → IsSound b → IsSound u
same_map b u h c w = record { entries = rw (h, c) w.entries; once = rw c w.once }

run_new-IsSound : (b u : Broker) → IsSound b → run_new b ≡ some u → IsSound u
unfolding run_new
run_new-IsSound b u w e = go b.new_clients refl
  where
    go : (xs : List ℕ) → b.new_clients ≡ xs → IsSound u
    go [] q = absurd (ground (arith, e, q))
    go (a ∷ rest) q =
        IsSound-eq
          (record b {
            clients = insert (b.heap a).client_id a b.clients;
            new_clients = rest;
            total_clients = b.total_clients + 1;
          })
          (ground (arith, e, q))
          (record {
            entries = insert-All (IsMember b.heap) (b.heap a).client_id a b.clients refl w.entries;
            once = insert-Once (b.heap a).client_id a b.clients w.once;
          })

run_dead-IsSound : (b u : Broker) → IsSound b → run_dead b ≡ some u → IsSound u
unfolding run_dead close
run_dead-IsSound b u w e = go b.dead_clients refl
  where
    go : (xs : List ℕ) → b.dead_clients ≡ xs → IsSound u
    go [] q = absurd (ground (arith, e, q))
    go (a ∷ rest) q =
        let id = (b.heap a).client_id in
        let g = update b.heap a (close (b.heap a)) in
        IsSound-eq (record b { clients = delete id b.clients; heap = g; dead_clients = rest })
          (ground (arith, e, q))
          (record {
            entries =
                entries-Alike b.heap g (delete id b.clients)
                  (update-Alike b.heap a (close (b.heap a)) refl)
                  (entries_left b.heap id (delete id b.clients)
                    (delete-All (IsMember b.heap) id b.clients w.entries));
            once = delete-Once id b.clients w.once;
          })

broadcast_event-IsSound : (e : Event) (b : Broker) → IsSound b → IsSound (broadcast_event e b)
broadcast_event-IsSound e b w = record {
  entries =
      entries-Alike b.heap (broadcast e b.clients b.heap).0 b.clients
        (broadcast-Alike e b.clients b.heap) w.entries;
  once = w.once;
}

run_message-IsSound : (b u : Broker) → IsSound b → run_message b ≡ some u → IsSound u
unfolding run_message
run_message-IsSound b u w e = go b.messages refl
  where
    go : (xs : List Event) → b.messages ≡ xs → IsSound u
    go [] q = absurd (ground (arith, e, q))
    go (m ∷ rest) q =
        let v = record b { messages = rest; messages_count = b.messages_count + 1 } in
        IsSound-eq (broadcast_event m v) (ground (arith, e, q))
          (broadcast_event-IsSound m v (same_map b v refl refl w))

publish_to_client-IsSound :
    (id : Bytes) (m : Event) (b : Broker) → IsSound b → IsSound (publish_to_client id m b).0
unfolding publish_to_client
publish_to_client-IsSound id m b w = elim (Option-cases (lookup id b.clients)) [
  | inl q ↦ same_map b (publish_to_client id m b).0 (ground (arith, q)) (ground (arith, q)) w
  | inr (a, q) ↦
      IsSound-eq (record b { heap = update b.heap a (send m (b.heap a)).0 }) (ground (arith, q))
        (IsSound-Alike b (update b.heap a (send m (b.heap a)).0)
          (update-Alike b.heap a (send m (b.heap a)).0 (send-id m (b.heap a))) w)
]

Step-IsSound : (b u : Broker) → Step b u → IsSound b → IsSound u
unfolding register send_new unregister publish close
Step-IsSound b u (registers a e) w = same_map b u (ground (arith, e)) (ground (arith, e)) w
Step-IsSound b u (sends_new e) w = same_map b u (ground (arith, e)) (ground (arith, e)) w
Step-IsSound b u (unregisters a e) w = same_map b u (ground (arith, e)) (ground (arith, e)) w
Step-IsSound b u (publishes m e) w = same_map b u (ground (arith, e)) (ground (arith, e)) w
Step-IsSound b u (publishes_to id m) w = publish_to_client-IsSound id m b w
Step-IsSound b u (takes_new e) w = run_new-IsSound b u w e
Step-IsSound b u (takes_dead e) w = run_dead-IsSound b u w e
Step-IsSound b u (takes_message e) w = run_message-IsSound b u w e
Step-IsSound b u (ticks timestamp) w = broadcast_event-IsSound (keepalive_event timestamp) b w
Step-IsSound b u (receives a) w =
    let c = record (b.heap a) { channel = drop 1 (b.heap a).channel } in
    IsSound-Alike b (update b.heap a c) (update-Alike b.heap a c refl) w
Step-IsSound b u (closes a) w =
    IsSound-Alike b (update b.heap a (close (b.heap a)))
      (update-Alike b.heap a (close (b.heap a)) refl) w

pub Steps-IsSound : (b u : Broker) → Steps b u → IsSound b → IsSound u
Steps-IsSound b u stop w = w
Steps-IsSound b u (and_then {u = v} s t) w = Step-IsSound v u t (Steps-IsSound b v s w)
