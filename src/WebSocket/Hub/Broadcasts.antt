-- ===== src/WebSocket/Hub/Broadcasts.antt =====
-- core/websocket/hub.go: a broadcast to all clients, and when it stops the hub for good.
use fast_server.WebSocket.Hub.{
  Client, Heap, blocked, broadcast_clients, channel_size, delivered, offer, send_size, update,
}
use fast_server.Base.{
  All, Bool, Bool-cases, Bytes, List, [], ap, append-nil, append_assoc, arith, false, if◌then◌else◌,
  inl, inr, leb, length, length-append, ltb, not, refl, sym, ℕ, ◌&&◌, ◌++◌, ◌+◌, ◌==◌, ◌||◌, ◌∙◌,
  ◌∷◌, ◌≡◌, ◌≤◌, bytes_key,
}

abbrev pub IsOpen : Heap → ℕ → Type 0
IsOpen h a = (h a).closed ≡ false

-- The addresses are different.
abbrev pub Apart : List (Bytes × ℕ) → Type 0
Apart [] = Unit
Apart ((id, a) ∷ clients) = All (λ (j, b). (a == b) ≡ false) clients × Apart clients

abbrev pub AllOpen : Heap → List (Bytes × ℕ) → Type 0
AllOpen h = All (λ (id, a). IsOpen h a)

abbrev pub is_full : Heap → ℕ → Bool
is_full h a = not (ltb (length (h a).queue) send_size)

abbrev pub full_clients : Heap → List (Bytes × ℕ) → List ℕ
full_clients h [] = []
full_clients h ((id, a) ∷ clients) =
    if is_full h a then a ∷ full_clients h clients else full_clients h clients

-- The heap with the payload in every queue that has room for it.
abbrev pub given : Bytes → List (Bytes × ℕ) → Heap → Heap
given payload [] h = h
given payload ((id, a) ∷ clients) h =
    if is_full h a
    then given payload clients h
    else given payload clients (update h a (record (h a) { queue = (h a).queue ++ payload ∷ [] }))

-- What an update of another client does not change.
full_clients-update :
    (h : Heap) (a : ℕ) (c : Client) (clients : List (Bytes × ℕ))
    → All (λ (j, b). (a == b) ≡ false) clients
    → full_clients (update h a c) clients ≡ full_clients h clients
full_clients-update h a c [] w = refl
full_clients-update h a c ((id, b) ∷ clients) w =
    ground (arith, w.0, full_clients-update h a c clients w.1)

AllOpen-update :
    (h : Heap) (a : ℕ) (c : Client) (clients : List (Bytes × ℕ))
    → c.closed ≡ false
    → AllOpen h clients
    → AllOpen (update h a c) clients
AllOpen-update h a c [] o w = tt
AllOpen-update h a c ((id, b) ∷ clients) o w =
    (ground (arith, o, w.0), AllOpen-update h a c clients o w.1)

abbrev pub stands : ℕ → List (Bytes × ℕ) → Bool
stands b [] = false
stands b ((id, a) ∷ clients) = a == b || stands b clients

pub stands-Apart :
    (a : ℕ) (clients : List (Bytes × ℕ))
    → All (λ (j, b). (a == b) ≡ false) clients
    → stands a clients ≡ false
stands-Apart a [] w = refl
stands-Apart a ((id, b) ∷ clients) w = ground (arith, w.0, stands-Apart a clients w.1)

-- A broadcast to different clients puts the payload behind the queue of each that stands in the list
-- and has room, and changes no other client.
pub given_lem :
    (payload : Bytes) (clients : List (Bytes × ℕ)) (h : Heap) (b : ℕ)
    → Apart clients
    → given payload clients h b ≡ (
        if stands b clients && not (is_full h b)
        then record (h b) { queue = (h b).queue ++ payload ∷ [] }
        else h b)
given_lem payload [] h b p = refl
given_lem payload ((id, a) ∷ clients) h b p =
    let c = record (h a) { queue = (h a).queue ++ payload ∷ [] } in
    let behind = given_lem payload clients h b p.1 in
    let changed = given_lem payload clients (update h a c) b p.1 in
    elim (Bool-cases (a == b)) [
      | inl same ↦
          let e : a ≡ b = ground (arith, same) in
          let alone : stands b clients ≡ false =
            ap (λ i. stands i clients) (sym e) ∙ stands-Apart a clients p.0 in
          let f : h a ≡ h b = ap h e in ground (arith, same, behind, changed, alone, f)
      | inr other ↦ ground (arith, other, behind, changed)
    ]

-- A broadcast to open clients, of which none stands twice, puts the payload into every queue with room
-- and asks for the removal of the others, if the channel has room for all of these; otherwise it
-- waits for ever.
pub broadcast_clients_lem :
    (payload : Bytes) (clients : List (Bytes × ℕ)) (h : Heap) (unregister : List ℕ)
    → AllOpen h clients
    → Apart clients
    → length unregister ≤ channel_size
    → broadcast_clients payload clients h unregister ≡ (
        if leb (length unregister + length (full_clients h clients)) channel_size
        then delivered (given payload clients h) (unregister ++ full_clients h clients)
        else blocked)
unfolding broadcast_clients offer
broadcast_clients_lem payload [] h unregister o p l = ground (arith, append-nil unregister)
broadcast_clients_lem payload ((id, a) ∷ clients) h unregister o p l =
    elim (Bool-cases (is_full h a)) [
      | inl f ↦ ground (
        arith,
        f,
        o.0,
        broadcast_clients_lem payload clients h (unregister ++ a ∷ []) o.1 p.1,
        length-append unregister (a ∷ []),
        append_assoc unregister (a ∷ []) (full_clients h clients),
      )
      | inr f ↦
          let c = record (h a) { queue = (h a).queue ++ payload ∷ [] } in
          ground (
            arith,
            f,
            o.0,
            broadcast_clients_lem payload clients (update h a c) unregister
                (AllOpen-update h a c clients o.0 o.1) p.1 l,
            full_clients-update h a c clients p.0,
          )
    ]
