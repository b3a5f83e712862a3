-- ===== src/WebSocket/Hub/Invariant.antt =====
-- core/websocket/hub.go: what `run` keeps, as long as a client is registered once and under an
-- identifier that no other client has or waits for.
use fast_server.WebSocket.Hub.{Heap, Hub, channel_size, close, new_hub}
use fast_server.WebSocket.Hub.Broadcasts.{AllOpen, Apart, IsOpen, given, given_lem}
use fast_server.Base.{
  All, Bool-cases, Bytes, List, Once, [], ap, ap₂, arith, bytes_eq, bytes_eq_iff, delete, false,
  inl, inr, insert, length, lookup, lookup-delete, lookup-insert, none, some, sym, ℕ, ◌==◌, ◌∙◌,
  ◌∷◌, ◌≡◌, ◌≤◌, bytes_key,
}

-- An entry of the map is an open client under its own identifier.
abbrev pub IsMember : Heap → Bytes × ℕ → Type 0
IsMember h (id, a) = ((h a).id ≡ id) × IsOpen h a

-- Clients that wait to be registered: open, under identifiers that nobody else has.
abbrev pub Pending : Heap → List (Bytes × ℕ) → List ℕ → Type 0
Pending h clients [] = Unit
Pending h clients (a ∷ register) =
    (IsOpen h a
      × (lookup (h a).id clients ≡ none)
      × All (λ b. bytes_eq (h a).id (h b).id ≡ false) register)
    × Pending h clients register

pub record IsSound (hub : Hub) : Type 0 where
  pub entries : All (IsMember hub.heap) hub.clients
  pub once : Once hub.clients
  pub pending : Pending hub.heap hub.clients hub.register
  pub room : length hub.unregister ≤ channel_size
  pub whole : All (λ m. m.room ≡ []) hub.broadcast

pub new_hub-IsSound : (n : ℕ) (h : Heap) → IsSound (new_hub n h)
new_hub-IsSound n h = record {
  entries = tt;
  once = tt;
  pending = tt;
  room = omega arith;
  whole = tt;
}

-- Clients keep their identifiers, and are closed or open as before.
abbrev pub Alike : Heap → Heap → Type 0
Alike h g = (b : ℕ) → ((g b).id ≡ (h b).id) × ((g b).closed ≡ (h b).closed)

pub entries-Alike :
    (h g : Heap) (clients : List (Bytes × ℕ))
    → Alike h g
    → All (IsMember h) clients
    → All (IsMember g) clients
entries-Alike h g [] k w = tt
entries-Alike h g ((id, a) ∷ clients) k w =
    (((k a).0 ∙ w.0.0, (k a).1 ∙ w.0.1), entries-Alike h g clients k w.1)

pub Pending-Alike :
    (h g : Heap) (clients : List (Bytes × ℕ)) (register : List ℕ)
    → Alike h g
    → Pending h clients register
    → Pending g clients register
Pending-Alike h g clients [] k w = tt
Pending-Alike h g clients (a ∷ register) k w = (
  ((k a).1 ∙ w.0.0, ap (λ i. lookup i clients) (k a).0 ∙ w.0.1, others register w.0.2),
  Pending-Alike h g clients register k w.1,
)
  where
    others :
        (bs : List ℕ)
        → All (λ b. bytes_eq (h a).id (h b).id ≡ false) bs
        → All (λ b. bytes_eq (g a).id (g b).id ≡ false) bs
    others [] o = tt
    others (b ∷ bs) o = (ap₂ bytes_eq (k a).0 (k b).0 ∙ o.0, others bs o.1)

-- A client is in no entry under another identifier.
others-Apart :
    (h : Heap) (a : ℕ) (id : Bytes) (cs : List (Bytes × ℕ))
    → (h a).id ≡ id
    → All (IsMember h) cs
    → lookup id cs ≡ none
    → All (λ (j, b). (a == b) ≡ false) cs
unfolding lookup
others-Apart h a id [] e v n = tt
others-Apart h a id ((j, b) ∷ cs) e v n = (
  elim (Bool-cases (a == b)) [
    | inl same ↦
        let s : a ≡ b = ground (arith, same) in
        absurd (ground (arith, n, bytes_eq_iff j id, sym v.0.0 ∙ ap (λ i. (h i).id) (sym s) ∙ e))
    | inr other ↦ other
  ],
  others-Apart h a id cs e v.1 (ground (arith, n)),
)

pub entries-Apart :
    (h : Heap) (clients : List (Bytes × ℕ))
    → All (IsMember h) clients
    → Once clients
    → Apart clients
entries-Apart h [] w o = tt
entries-Apart h ((id, a) ∷ clients) w o =
    (others-Apart h a id clients w.0.0 w.1 o.0, entries-Apart h clients w.1 o.1)

pub entries-AllOpen :
    (h : Heap) (clients : List (Bytes × ℕ)) → All (IsMember h) clients → AllOpen h clients
entries-AllOpen h [] w = tt
entries-AllOpen h ((id, a) ∷ clients) w = (w.0.1, entries-AllOpen h clients w.1)

pub given-Alike :
    (payload : Bytes) (clients : List (Bytes × ℕ)) (h : Heap)
    → Apart clients
    → Alike h (given payload clients h)
given-Alike payload clients h p b = (
  ground (arith, given_lem payload clients h b p),
  ground (arith, given_lem payload clients h b p),
)

pub Pending-insert :
    (h : Heap) (clients : List (Bytes × ℕ)) (a : ℕ) (register : List ℕ)
    → All (λ b. bytes_eq (h a).id (h b).id ≡ false) register
    → Pending h clients register
    → Pending h (insert (h a).id a clients) register
Pending-insert h clients a [] d w = tt
Pending-insert h clients a (b ∷ register) d w = (
  (w.0.0, ground (arith, d.0, w.0.1, lookup-insert (h a).id (h b).id a clients), w.0.2),
  Pending-insert h clients a register d.1 w.1,
)

close-id : (h : Heap) (a b : ℕ) → (close a h b).id ≡ (h b).id
unfolding close
close-id h a b = elim (Bool-cases (a == b)) [
  | inl same ↦ let s : a ≡ b = ground (arith, same) in ground (arith, same, ap (λ i. (h i).id) s)
  | inr other ↦ ground (arith, other)
]

-- Closing one client leaves those with other identifiers open.
close-IsOpen :
    (h : Heap) (a b : ℕ) → bytes_eq (h b).id (h a).id ≡ false → IsOpen h b → IsOpen (close a h) b
unfolding close
close-IsOpen h a b d o = elim (Bool-cases (a == b)) [
  | inl same ↦
      let s : a ≡ b = ground (arith, same) in
      absurd (ground (arith, d, bytes_eq_iff (h b).id (h a).id, ap (λ i. (h i).id) (sym s)))
  | inr other ↦ ground (arith, other, o)
]

-- Closing a client leaves the entries under other identifiers open.
pub entries-close :
    (h : Heap) (a : ℕ) (cs : List (Bytes × ℕ))
    → All (λ x. IsMember h x × (bytes_eq x.0 (h a).id ≡ false)) cs
    → All (IsMember (close a h)) cs
entries-close h a [] w = tt
entries-close h a ((j, b) ∷ cs) w = (
  (
    close-id h a b ∙ w.0.0.0,
    close-IsOpen h a b (ap (λ i. bytes_eq i (h a).id) w.0.0.0 ∙ w.0.1) w.0.0.1,
  ),
  entries-close h a cs w.1,
)

others-close :
    (h : Heap) (a c : ℕ) (bs : List ℕ)
    → All (λ b. bytes_eq (h c).id (h b).id ≡ false) bs
    → All (λ b. bytes_eq (close a h c).id (close a h b).id ≡ false) bs
others-close h a c [] o = tt
others-close h a c (b ∷ bs) o =
    (ap₂ bytes_eq (close-id h a c) (close-id h a b) ∙ o.0, others-close h a c bs o.1)

pub Pending-close :
    (h : Heap) (clients : List (Bytes × ℕ)) (a b : ℕ) (register : List ℕ)
    → lookup (h a).id clients ≡ some b
    → Pending h clients register
    → Pending (close a h) (delete (h a).id clients) register
Pending-close h clients a b [] e w = tt
Pending-close h clients a b (c ∷ register) e w = (
  (
    close-IsOpen h a c
        (elim (Bool-cases (bytes_eq (h c).id (h a).id)) [
          | inl same ↦ absurd (
              ground (
                arith,
                e,
                w.0.1,
                ap (λ i. lookup i clients) ((bytes_eq_iff (h c).id (h a).id).0 same),
              ))
          | inr other ↦ other
        ])
        w.0.0,
    ap (λ i. lookup i (delete (h a).id clients)) (close-id h a c)
        ∙ ground (arith, w.0.1, lookup-delete (h a).id (h c).id clients),
    others-close h a c register w.0.2,
  ),
  Pending-close h clients a b register e w.1,
)
