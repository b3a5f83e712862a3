-- ===== src/Engine/Events.antt =====
-- core/engine.go: every event keeps the invariant.
use fast_server.Engine.{
  Connection, Engine, Event, Outcome, ReadResult, accepts, again, check_keep_alive, cleanup,
  close_connection, crashed, data', error_response, failed, handle_bytes, handle_connection_event,
  handle_event, handle_read, process_request, processing, ran, reading, ready, set_params, store,
  tick, wants_close,
}
use fast_server.Base.{
  Bool-cases, Bytes, Option-cases, [], arith, codes, inl, inr, leb, length, lookup, none, refl,
  some, take, true, ℕ, ◌++◌, ◌-◌, ◌<◌, ◌∷◌, ◌≡◌, ◌⊎◌, nat_eq,
}
use fast_server.Http.Request.{Request, new_request}
use fast_server.Http.Parser.{Parsed, invalid, parse_request, parsed, lf}
use fast_server.Http.Parser
use fast_server.Http.Context.{Context, reset_context}
use fast_server.Router.Radix.Lookup
use fast_server.Router.Radix.Lookup.{Lookup, found, missing, Lookup-cases}
use fast_server.Engine.Invariant.{
  IsResting, IsSound, accept_connections-IsSound, close-store-IsSound, close_all-IsSound, is_some,
  store-IsSound,
}

-- What holds of an engine that an event leaves.
abbrev pub Leaves : (Engine → Type 0) → Outcome → Type 0
Leaves P (ran e out) = P e
Leaves P crashed = Unit

abbrev answered : ℕ → Connection → Request → Engine → Bytes → Outcome
answered now c req e out = ran (check_keep_alive now c req e) ((c.fd, out) ∷ [])

Leaves-eq : {o : Outcome} (u : Outcome) → o ≡ u → Leaves IsSound u → Leaves IsSound o
Leaves-eq u q w = rw q w

check_keep_alive-IsSound :
    (now : ℕ) (c : Connection) (req : Request) (e : Engine)
    → is_some (lookup c.fd e.connections) ≡ true
    → 0 < c.buf_len
    → IsSound e
    → IsSound (check_keep_alive now c req e)
unfolding check_keep_alive
check_keep_alive-IsSound now c req e k r w = elim (Bool-cases (wants_close req)) [
  | inl ends ↦ rw ends (close-store-IsSound c e k w)
  | inr stays ↦ rw stays (
      store-IsSound (record c { state = reading; received = []; request = none; last_active = now })
        e (record { own = refl; at_rest = refl; no_request = refl; room = r }) k w)
]

process_request-IsSound :
    (now : ℕ) (pooled : Context) (c : Connection) (req : Request) (e : Engine)
    → is_some (lookup c.fd e.connections) ≡ true
    → 0 < c.buf_len
    → IsSound e
    → Leaves IsSound (process_request now pooled c req e)
unfolding process_request
process_request-IsSound now pooled c req e k r w =
    elim (Lookup-cases (Lookup.find req.method e.router req.path)) [
      | inl f ↦
          Leaves-eq (answered now c req e (error_response 404 (codes "Not Found")))
            (ground (arith, f)) (check_keep_alive-IsSound now c req e k r w)
      | inr (inl f) ↦ Leaves-eq crashed (ground (arith, f)) tt
      | inr (inr (h, params, f)) ↦
          elim (Option-cases (h (set_params params (reset_context c.fd req pooled)))) [
            | inl p ↦ Leaves-eq crashed (ground (arith, f, p)) tt
            | inr (out, p) ↦
                Leaves-eq (answered now c req e out) (ground (arith, f, p))
                  (check_keep_alive-IsSound now c req e k r w)
          ]
    ]

pub Parsed-cases :
    (a : Parsed) → (a ≡ invalid) ⊎ ((a ≡ Parser.panic) ⊎ ((req : Request) × (a ≡ parsed req)))
Parsed-cases invalid = inl refl
Parsed-cases Parser.panic = inr (inl refl)
Parsed-cases (parsed req) = inr (inr (req, refl))

handle_bytes-IsSound :
    (now : ℕ) (pooled : Context) (c : Connection) (n : Bytes) (e : Engine)
    → is_some (lookup c.fd e.connections) ≡ true
    → IsResting c.fd c
    → IsSound e
    → Leaves IsSound (handle_bytes now pooled c n e)
unfolding handle_bytes
handle_bytes-IsSound now pooled c n e k r w =
    elim (Parsed-cases (parse_request new_request (c.received ++ n))) [
      | inl f ↦ elim (Bool-cases (leb c.buf_len (length (c.received ++ n)))) [
        | inl full ↦
            Leaves-eq
              (ran (close_connection c.fd (store (record c { received = c.received ++ n }) e))
                ((c.fd, error_response 400 (codes "Bad Request")) ∷ []))
              (ground (arith, f, full))
              (close-store-IsSound (record c { received = c.received ++ n }) e k w)
        | inr short ↦
            Leaves-eq (ran (store (record c { received = c.received ++ n }) e) [])
              (ground (arith, f, short))
              (store-IsSound (record c { received = c.received ++ n }) e
                (record {
                  own = refl;
                  at_rest = r.at_rest;
                  no_request = r.no_request;
                  room = ground (arith, short);
                })
                k w)
      ]
      | inr (inl f) ↦ Leaves-eq crashed (ground (arith, f)) tt
      | inr (inr (req, f)) ↦
          Leaves-eq
            (process_request now pooled
              (record c { received = []; request = some req; state = processing }) req e)
            (ground (arith, f))
            (process_request-IsSound now pooled
              (record c { received = []; request = some req; state = processing }) req e k
              (omega (arith, r.room)) w)
    ]

handle_read-IsSound :
    (now : ℕ) (pooled : Context) (c : Connection) (result : ReadResult) (e : Engine)
    → is_some (lookup c.fd e.connections) ≡ true
    → IsResting c.fd c
    → IsSound e
    → Leaves IsSound (handle_read now pooled c result e)
unfolding handle_read
handle_read-IsSound now pooled c again e k r w = store-IsSound c e r k w
handle_read-IsSound now pooled c failed e k r w = close-store-IsSound c e k w
handle_read-IsSound now pooled c (data' s) e k r w = go (take (c.buf_len - length c.received) s)
  where
    go :
        (t : Bytes)
        → Leaves IsSound (elim t [
          | [] ↦ ran (close_connection c.fd (store c e)) []
          | b ∷ n ↦ handle_bytes now pooled c (b ∷ n) e
        ])
    go [] = close-store-IsSound c e k w
    go (b ∷ n) = handle_bytes-IsSound now pooled c (b ∷ n) e k r w

handle_connection_event-IsSound :
    (now : ℕ) (pooled : Context) (fd : ℕ) (result : ReadResult) (e : Engine)
    → IsSound e
    → Leaves IsSound (handle_connection_event now pooled fd result e)
unfolding handle_connection_event
handle_connection_event-IsSound now pooled fd result e w =
    elim (Option-cases (lookup fd e.connections)) [
      | inl absent ↦ Leaves-eq (ran e []) (ground (arith, absent)) w
      | inr (c, q) ↦
          let r = w.resting fd c q in
          let k : is_some (lookup c.fd e.connections) ≡ true = ground (arith, r.own, q) in
          let f = r.at_rest in
          Leaves-eq (handle_read now pooled (record c { last_active = now }) result e)
            (ground (arith, q, f))
            (handle_read-IsSound now pooled (record c { last_active = now }) result e k
              (record { own = refl; at_rest = r.at_rest; no_request = r.no_request; room = r.room })
              w)
    ]

-- Every event that does not crash the program keeps the invariant: the poller watches the connections
-- of the table and no others, and each of them waits for a request, under its own descriptor, with
-- room in its buffer.
pub handle_event-IsSound :
    (now : ℕ) (event : Event) (e : Engine) → IsSound e → Leaves IsSound (handle_event now event e)
unfolding handle_event cleanup
handle_event-IsSound now (accepts as') e w = accept_connections-IsSound now as' e w
handle_event-IsSound now (ready fd result pooled) e w =
    handle_connection_event-IsSound now pooled fd result e w
handle_event-IsSound now tick e w = close_all-IsSound _ e w
