-- ===== src/Sse/Broker/Reach.antt =====
-- core/sse/broker.go: whom a message reaches.
use fast_server.Sse.Broker.{
  Broker, Heap, Steps, broadcast, broadcast_event, new_broker, run_message, update,
}
use fast_server.Sse.Event.{Client, Event, send}
use fast_server.WebSocket.Hub.Broadcasts.{Apart, stands, stands-Apart}
use fast_server.Base.{
  Bool, length, ltb, not, true, ◌&&◌, ◌++◌, All, Bool-cases, Bytes, List, Once, [], ap, arith,
  bytes_eq_iff, false, if◌then◌else◌, inl, inr, lookup, none, refl, some, sym, ℕ, ◌+◌, ◌==◌, ◌∙◌,
  ◌∷◌, ◌≡◌, bytes_key,
}
use fast_server.Sse.Broker.Entries.{IsMember, Steps-IsSound}

-- A client is in no entry under another identifier.
others_apart :
    (h : Heap) (a : ℕ) (id : Bytes) (cs : List (Bytes × ℕ))
    → (h a).client_id ≡ id
    → All (IsMember h) cs
    → lookup id cs ≡ none
    → All (λ (j, b). (a == b) ≡ false) cs
unfolding lookup
others_apart h a id [] e v n = tt
others_apart h a id ((j, b) ∷ cs) e v n = (
  elim (Bool-cases (a == b)) [
    | inl same ↦
        let s : a ≡ b = ground (arith, same) in
        absurd
          (ground (arith, n, bytes_eq_iff j id, sym v.0 ∙ ap (λ i. (h i).client_id) (sym s) ∙ e))
    | inr other ↦ other
  ],
  others_apart h a id cs e v.1 (ground (arith, n)),
)

entries-Apart : (h : Heap) (cs : List (Bytes × ℕ)) → All (IsMember h) cs → Once cs → Apart cs
entries-Apart h [] w o = tt
entries-Apart h ((id, a) ∷ cs) w o =
    (others_apart h a id cs w.0 w.1 o.0, entries-Apart h cs w.1 o.1)

-- A client that is open and has room in its channel.
abbrev pub can_take : Client → Bool
can_take c = not c.closed && ltb (length c.channel) c.buffer_size

-- How many clients cannot take an event.
abbrev pub refusals : Heap → List (Bytes × ℕ) → ℕ
refusals h [] = 0
refusals h ((id, a) ∷ cs) = if can_take (h a) then refusals h cs else 1 + refusals h cs

send-can_take :
    (e : Event) (c : Client)
    → send e c
      ≡ (if can_take c then (record c { channel = c.channel ++ e ∷ [] }, true) else (c, false))
unfolding send
send-can_take e c = ground arith

refusals-update :
    (h : Heap) (a : ℕ) (c : Client) (cs : List (Bytes × ℕ))
    → All (λ (j, b). (a == b) ≡ false) cs
    → refusals (update h a c) cs ≡ refusals h cs
refusals-update h a c [] w = refl
refusals-update h a c ((id, b) ∷ cs) w =
    let same_client : update h a c b ≡ h b = ground (arith, w.0) in
    let same_send = ap can_take same_client in
    ground (arith, w.0, same_send, refusals-update h a c cs w.1)

broadcast-reached :
    (e : Event) (cs : List (Bytes × ℕ)) (h : Heap) (b : ℕ)
    → Apart cs
    → (broadcast e cs h).0 b ≡ (if stands b cs then (send e (h b)).0 else h b)
unfolding broadcast
broadcast-reached e [] h b p = refl
broadcast-reached e ((id, a) ∷ cs) h b p =
    let g = update h a (send e (h a)).0 in
    let behind = broadcast-reached e cs g b p.1 in
    elim (Bool-cases (a == b)) [
      | inl same ↦
          let s : a ≡ b = ground (arith, same) in
          let alone : stands b cs ≡ false = ap (λ i. stands i cs) (sym s) ∙ stands-Apart a cs p.0 in
          let f : (send e (h a)).0 ≡ (send e (h b)).0 = ap (λ i. (send e (h i)).0) s in
          ground (arith, same, behind, alone, f)
      | inr other ↦
          let kept : g b ≡ h b = ground (arith, other) in
          let f : (send e (g b)).0 ≡ (send e (h b)).0 = ap (λ c. (send e c).0) kept in
          ground (arith, other, behind, kept, f)
    ]

broadcast-dropped :
    (e : Event) (cs : List (Bytes × ℕ)) (h : Heap) → Apart cs → (broadcast e cs h).1 ≡ refusals h cs
unfolding broadcast
broadcast-dropped e [] h p = refl
broadcast-dropped e ((id, a) ∷ cs) h p =
    let c = (send e (h a)).0 in
    ground (
      arith,
      send-can_take e (h a),
      broadcast-dropped e cs (update h a c) p.1,
      refusals-update h a c cs p.0,
    )

-- In every broker that its steps can reach, where no `Close` comes inside a `Send`: a message that the loop
-- takes is added, once and at the end, to the channel of each registered client that is open and has room;
-- the other registered clients are counted as dropped; and no other client changes.
pub run_message-reaches :
    (n : ℕ) (h : Heap) (b : Broker) (e : Event) (rest : List Event)
    → Steps (new_broker n h) b
    → b.messages ≡ e ∷ rest
    → (u : Broker) × (run_message b ≡ some u)
      × ((a : ℕ)
          → u.heap a ≡ (
              if stands a b.clients && can_take (b.heap a)
              then record (b.heap a) { channel = (b.heap a).channel ++ e ∷ [] }
              else b.heap a))
      × (u.dropped_count ≡ b.dropped_count + refusals b.heap b.clients)
      × (u.messages ≡ rest)
unfolding run_message
run_message-reaches n h b e rest s m =
    let w = Steps-IsSound (new_broker n h) b s (record { entries = tt; once = tt }) in
    let p = entries-Apart b.heap b.clients w.entries w.once in
    (
      broadcast_event e (record b { messages = rest; messages_count = b.messages_count + 1 }),
      ground (arith, m),
      λ a. ground (arith, broadcast-reached e b.clients b.heap a p, send-can_take e (b.heap a)),
      ap (λ k. b.dropped_count + k) (broadcast-dropped e b.clients b.heap p),
      refl,
    )
