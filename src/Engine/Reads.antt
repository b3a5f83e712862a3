-- ===== src/Engine/Reads.antt =====
-- core/engine.go: `handleRead` puts a request together that arrives in parts.
use fast_server.Engine.{
  Connection, Engine, Outcome, check_keep_alive, crashed, data', handle_bytes,
  handle_connection_event, handle_read, process_request, processing, ran, reading, store,
}
use fast_server.Engine.Invariant.{IsResting}
use fast_server.Engine.Events.{Parsed-cases}
use fast_server.Base.{
  Bytes, List, [], ap, append-nil, append_assoc, arith, inl, inr, insert, insert-insert, length,
  length-append, lookup, lookup-insert, none, refl, some, sym, take_all, ℕ, ◌++◌, ◌+◌, ◌-◌, ◌<◌,
  ◌∙◌, ◌∷◌, ◌≡◌, ◌≢◌, ◌≤◌, nat_eq,
}
use fast_server.Http.Request.{Request, new_request}
use fast_server.Http.Parser.{invalid, parse_request}
use fast_server.Http.Context.{Context}
use fast_server.Router.Radix.Lookup
use fast_server.Router.Radix.Lookup.{Lookup, found, missing, Lookup-cases}

store-store : (c d : Connection) (e : Engine) → c.fd ≡ d.fd → store d (store c e) ≡ store d e
store-store c d e q =
    ap (λ m. record e { connections = m })
      (ap (λ k. insert d.fd d (insert k c e.connections)) q ∙ insert-insert d.fd d c e.connections)

check_keep_alive-store :
    (now : ℕ) (c d : Connection) (req : Request) (e : Engine)
    → c.fd ≡ d.fd
    → check_keep_alive now d req (store c e) ≡ check_keep_alive now d req e
unfolding check_keep_alive
check_keep_alive-store now c d req e q = ground (
  arith,
  store-store c d e q,
  store-store c (record d { state = reading; received = []; request = none; last_active = now }) e
      q,
)

process_request-store :
    (now : ℕ) (pooled : Context) (c d : Connection) (req : Request) (e : Engine)
    → c.fd ≡ d.fd
    → process_request now pooled d req (store c e) ≡ process_request now pooled d req e
unfolding process_request
process_request-store now pooled c d req e q =
    elim (Lookup-cases (Lookup.find req.method e.router req.path)) [
      | inl f ↦ ground (arith, f, check_keep_alive-store now c d req e q)
      | inr (inl f) ↦ ground (arith, f)
      | inr (inr (h, params, f)) ↦ ground (arith, f, check_keep_alive-store now c d req e q)
    ]

-- What has been received and kept counts as if it came with what is read next.
handle_bytes-append :
    (now : ℕ) (pooled : Context) (c d : Connection) (s n : Bytes) (e : Engine)
    → d.fd ≡ c.fd
    → handle_bytes now pooled (record c { received = c.received ++ s }) n (store d e)
      ≡ handle_bytes now pooled c (s ++ n) e
unfolding handle_bytes
handle_bytes-append now pooled c d s n e q =
    let both = record c { received = c.received ++ (s ++ n) } in
    let assoc = append_assoc c.received s n in
    elim (Parsed-cases (parse_request new_request (c.received ++ (s ++ n)))) [
      | inl f ↦ ground (arith, f, assoc, store-store d both e q)
      | inr (inl f) ↦ ground (arith, f, assoc)
      | inr (inr (req, f)) ↦ ground (
        arith,
        f,
        assoc,
        process_request-store now pooled d
            (record both { received = []; request = some req; state = processing }) req e q,
      )
    ]

read-fits :
    (now : ℕ) (pooled : Context) (c : Connection) (s : Bytes) (e : Engine)
    → s ≢ []
    → length c.received + length s ≤ c.buf_len
    → handle_read now pooled c (data' s) e ≡ handle_bytes now pooled c s e
unfolding handle_read
read-fits now pooled c [] e k h = absurd (k refl)
read-fits now pooled c (b ∷ s) e k h =
    ground (arith, take_all (c.buf_len - length c.received) (b ∷ s) (omega arith))

-- Reads of one connection, one after another, each with its time.
pub read_all : Context → ℕ → List (ℕ × Bytes) → Engine → Outcome
read_all pooled fd [] e = ran e []
read_all pooled fd ((now, s) ∷ reads) e = elim (handle_connection_event now pooled fd (data' s) e) [
  | crashed ↦ crashed
  | ran u out ↦ elim (read_all pooled fd reads u) [
    | crashed ↦ crashed
    | ran v more ↦ ran v (out ++ more)
  ]
]

abbrev pub joined : List (ℕ × Bytes) → Bytes
joined [] = []
joined ((now, s) ∷ reads) = s ++ joined reads

-- Parts that are not empty, after each of which the parser finds no whole request.
abbrev pub Waits : Bytes → List (ℕ × Bytes) → Type 0
Waits s [] = Unit
Waits s ((now, a) ∷ reads) =
    (a ≢ []) × (parse_request new_request (s ++ a) ≡ invalid) × Waits (s ++ a) reads

abbrev then_nothing : Outcome → Outcome
then_nothing crashed = crashed
then_nothing (ran u out) = ran u (out ++ [])

just : (o : Outcome) → then_nothing o ≡ o
just crashed = refl
just (ran u out) = ap (ran u) (append-nil out)

pub length-pos : (s : Bytes) → s ≢ [] → 0 < length s
length-pos [] k = absurd (k refl)
length-pos (b ∷ s) k = omega arith

pub ne-append : (s t : Bytes) → t ≢ [] → s ++ t ≢ []
ne-append [] t k = k
ne-append (b ∷ s) t k = cc

module _ (pooled : Context) (now : ℕ) (s : Bytes) where
  pub handle_event-IsResting :
      (fd t : ℕ) (a : Bytes) (c : Connection) (e : Engine)
      → lookup fd e.connections ≡ some c
      → c.state ≡ reading
      → a ≢ []
      → length c.received + length a ≤ c.buf_len
      → handle_connection_event t pooled fd (data' a) e
        ≡ handle_bytes t pooled (record c { last_active = t }) a e
  unfolding handle_connection_event
  handle_event-IsResting fd t a c e q f k r =
      ground (arith, q, f, read-fits t pooled (record c { last_active = t }) a e k r)

  handle_bytes-invalid :
      (t : ℕ) (c : Connection) (a : Bytes) (e : Engine)
      → parse_request new_request (c.received ++ a) ≡ invalid
      → length (c.received ++ a) < c.buf_len
      → handle_bytes t pooled c a e ≡ ran (store (record c { received = c.received ++ a }) e) []
  unfolding handle_bytes
  handle_bytes-invalid t c a e f h = ground (arith, f, h)

  -- A connection at rest whose requests come in parts, of which only the last makes the request whole
  -- and which fit into the buffer, answers and ends as if all of it had come at once.
  pub read_all-joined :
      (parts : List (ℕ × Bytes)) (fd : ℕ) (c : Connection) (e : Engine)
      → lookup fd e.connections ≡ some c
      → IsResting fd c
      → s ≢ []
      → Waits c.received parts
      → length c.received + (length (joined parts) + length s) ≤ c.buf_len
      → read_all pooled fd (parts ++ (now, s) ∷ []) e
        ≡ handle_connection_event now pooled fd (data' (joined parts ++ s)) e
  unfolding read_all
  read_all-joined [] fd c e q r k w l = just (handle_connection_event now pooled fd (data' s) e)
  read_all-joined ((t, a) ∷ parts) fd c e q r k w l =
      let d = record c { last_active = t; received = c.received ++ a } in
      let x = joined parts ++ s in
      let size : length (c.received ++ a) + length x ≤ c.buf_len = omega (
        arith,
        length-append c.received a,
        length-append a (joined parts),
        length-append (joined parts) s,
        l,
      ) in
      let some_s = length-pos s k in
      let first : handle_connection_event t pooled fd (data' a) e ≡ ran (store d e) [] =
        handle_event-IsResting fd t a c e q r.at_rest w.0
          (omega (arith, length-append c.received a, size))
        ∙ handle_bytes-invalid t (record c { last_active = t }) a e w.1
            (omega (arith, length-append (joined parts) s, size, some_s)) in
      let here : lookup fd (store d e).connections ≡ some d =
        ground (arith, r.own, lookup-insert c.fd fd d e.connections) in
      let rest : IsResting fd d = record {
        own = r.own;
        at_rest = r.at_rest;
        no_request = r.no_request;
        room = omega (arith, length-append (joined parts) s, size, some_s);
      } in
      let nx : x ≢ [] = ne-append (joined parts) s k in
      let nax : a ++ x ≢ [] = ne-append a x nx in
      let ih =
        read_all-joined parts fd d (store d e) here rest k w.2
          (omega (arith, length-append (joined parts) s, size)) in
      ground (arith, first, just (read_all pooled fd (parts ++ (now, s) ∷ []) (store d e)))
      ∙ ih
      ∙ handle_event-IsResting fd now x d (store d e) here r.at_rest nx size
      ∙ handle_bytes-append now pooled (record c { last_active = now }) d a x e refl
      ∙ sym (
          handle_event-IsResting fd now (a ++ x) c e q r.at_rest nax
            (omega (arith, length-append a x, length-append c.received a, size)))
      ∙ ap (λ y. handle_connection_event now pooled fd (data' y) e)
          (sym (append_assoc a (joined parts) s))
