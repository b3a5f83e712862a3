-- ===== src/Engine/Invariant.antt =====
-- core/engine.go: between two events every connection waits for a request.
use fast_server.Engine.{
  Accepted, Connection, Engine, accept_connections, close_all, close_connection, new_connection,
  new_engine, reading, remove, store,
}
use fast_server.Base.{
  Bool, Bool-cases, List, Once, Option, Option-cases, [], arith, delete, delete-Once, false,
  if◌then◌else◌, inl, inr, insert, insert-Once, length, lookup, lookup-delete, lookup-insert, none,
  refl, some, true, ℕ, ◌&&◌, ◌<◌, ◌==◌, ◌||◌, ◌∷◌, ◌≡◌, nat_eq,
}

abbrev pub elem : ℕ → List ℕ → Bool
elem k [] = false
elem k (j ∷ js) = j == k || elem k js

abbrev pub is_some {ℓ} : {A : Type ℓ} → Option A → Bool
is_some none = false
is_some (some a) = true

-- A connection that waits, under its own descriptor, with room in its buffer.
pub record IsResting (fd : ℕ) (c : Connection) : Type 0 where
  pub own : c.fd ≡ fd
  pub at_rest : c.state ≡ reading
  pub no_request : c.request ≡ none
  pub room : length c.received < c.buf_len

-- The poller watches the connections of the table, which are at rest.
pub record IsSound (e : Engine) : Type 0 where
  pub resting : (fd : ℕ) (c : Connection) → lookup fd e.connections ≡ some c → IsResting fd c
  pub once : Once e.connections
  pub watched : (fd : ℕ) → elem fd e.polled ≡ is_some (lookup fd e.connections)

IsSound-eq : {d : Engine} (e : Engine) → d ≡ e → IsSound e → IsSound d
IsSound-eq e q w = rw q w

elem-remove :
    (k fd : ℕ) (ks : List ℕ) → elem k (remove fd ks) ≡ (if fd == k then false else elem k ks)
elem-remove k fd [] = ground arith
elem-remove k fd (j ∷ ks) = ground (arith, elem-remove k fd ks)

pub new_engine-IsSound : IsSound new_engine
unfolding lookup
new_engine-IsSound = record { resting = λ fd c e. cc; once = tt; watched = λ fd. refl }

pub store-IsSound :
    (c : Connection) (e : Engine)
    → IsResting c.fd c
    → is_some (lookup c.fd e.connections) ≡ true
    → IsSound e
    → IsSound (store c e)
store-IsSound c e r k w = record {
  resting = λ fd d q. elim (Bool-cases (c.fd == fd)) [
    | inl same ↦
        let s : c ≡ d = ground (arith, same, q, lookup-insert c.fd fd c e.connections) in
        let t : c.fd ≡ fd = ground (arith, same) in rw (← s, ← t) r
    | inr other ↦ w.resting fd d (ground (arith, other, q, lookup-insert c.fd fd c e.connections))
  ];
  once = insert-Once c.fd c e.connections w.once;
  watched = λ fd. ground (arith, k, w.watched fd, lookup-insert c.fd fd c e.connections);
}

abbrev pub without : ℕ → List (ℕ × Connection) → Engine → Engine
without fd conns e = record e { connections = conns; polled = remove fd e.polled }

-- One connection is gone from the table and from the poller.
without-IsSound :
    (fd : ℕ) (conns : List (ℕ × Connection)) (e : Engine)
    → ((k : ℕ) → lookup k conns ≡ (if fd == k then none else lookup k e.connections))
    → Once conns
    → IsSound e
    → IsSound (without fd conns e)
without-IsSound fd conns e l o w = record {
  once = o;
  resting = λ k c q. w.resting k c (ground (arith, q, l k));
  watched = λ k. ground (arith, w.watched k, l k, elem-remove k fd e.polled);
}

pub close_connection-IsSound : (fd : ℕ) (e : Engine) → IsSound e → IsSound (close_connection fd e)
unfolding close_connection
close_connection-IsSound fd e w = elim (Option-cases (lookup fd e.connections)) [
  | inl absent ↦ IsSound-eq e (ground (arith, absent)) w
  | inr (c, q) ↦ IsSound-eq (without fd (delete fd e.connections) e) (ground (arith, q)) (
      without-IsSound fd (delete fd e.connections) e (λ k. lookup-delete fd k e.connections)
        (delete-Once fd e.connections w.once) w)
]

pub close-store-IsSound :
    (c : Connection) (e : Engine)
    → is_some (lookup c.fd e.connections) ≡ true
    → IsSound e
    → IsSound (close_connection c.fd (store c e))
unfolding close_connection
close-store-IsSound c e k w =
    let here : lookup c.fd (insert c.fd c e.connections) ≡ some c =
      ground (arith, lookup-insert c.fd c.fd c e.connections) in
    IsSound-eq (without c.fd (delete c.fd (insert c.fd c e.connections)) e) (ground (arith, here)) (
      without-IsSound c.fd (delete c.fd (insert c.fd c e.connections)) e
        (λ k. ground (
          arith,
          lookup-delete c.fd k (insert c.fd c e.connections),
          lookup-insert c.fd k c e.connections,
        ))
        (delete-Once c.fd (insert c.fd c e.connections) (insert-Once c.fd c e.connections w.once))
        w)

accept-IsSound :
    (now fd : ℕ) (e : Engine)
    → IsSound e
    → IsSound (record e {
      connections = insert fd (new_connection now fd) e.connections;
      polled = fd ∷ e.polled;
    })
accept-IsSound now fd e w = record {
  resting = λ k c q. elim (Bool-cases (fd == k)) [
    | inl same ↦
        let s : new_connection now fd ≡ c =
          ground (arith, same, q, lookup-insert fd k (new_connection now fd) e.connections) in
        let t : fd ≡ k = ground (arith, same) in
        rw (← s, ← t) (record { own = refl; at_rest = refl; no_request = refl; room = omega arith })
    | inr other ↦
        w.resting k c
          (ground (arith, other, q, lookup-insert fd k (new_connection now fd) e.connections))
  ];
  once = insert-Once fd (new_connection now fd) e.connections w.once;
  watched =
      λ k. ground (arith, w.watched k, lookup-insert fd k (new_connection now fd) e.connections);
}

pub accept_connections-IsSound :
    (now : ℕ) (as' : List Accepted) (e : Engine)
    → IsSound e
    → IsSound (accept_connections now as' e)
unfolding accept_connections
accept_connections-IsSound now [] e w = w
accept_connections-IsSound now (a ∷ rest) e w = elim (Bool-cases (a.nonblocking && a.watched)) [
  | inl t ↦ rw t (accept_connections-IsSound now rest _ (accept-IsSound now a.fd e w))
  | inr f ↦ rw f (accept_connections-IsSound now rest e w)
]

pub close_all-IsSound : (fds : List ℕ) (e : Engine) → IsSound e → IsSound (close_all fds e)
unfolding close_all
close_all-IsSound [] e w = w
close_all-IsSound (fd ∷ fds) e w =
    close_all-IsSound fds (close_connection fd e) (close_connection-IsSound fd e w)
