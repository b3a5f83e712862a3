-- ===== src/Engine/Crash.antt =====
-- core/engine.go: no recover stands between an event and the end of the program.
use fast_server.Engine.{
  Connection, Engine, Handler, Outcome, close_connection, crashed, data', handle_bytes,
  handle_connection_event, handle_event, handle_read, set_params, process_request, processing, ran,
  ready, store,
}
use fast_server.Engine.Invariant.{IsSound}
use fast_server.Engine.Events.{Parsed-cases}
use fast_server.Base.{
  Bytes, List, Option-cases, [], arith, none, some, inl, inr, length, lookup, refl, take, ℕ, ◌++◌,
  ◌-◌, ◌↔◌, ◌∷◌, ◌≡◌, ◌≢◌, ◌⊎◌, nat_eq,
}
use fast_server.Http.Request.{Request, new_request}
use fast_server.Http.Parser.{parse_request, parsed, lf}
use fast_server.Http.Parser.Rejects.{parse_request-panic_iff}
use fast_server.Http.Context.{Context, reset_context}
use fast_server.Router.Radix.{Node}
use fast_server.Router.Radix.Lookup
use fast_server.Router.Radix.Lookup.{Lookup, found, missing, Lookup-cases}

-- The handler that is found panics on the context that it gets.
abbrev pub HandlerPanics : ℕ → Context → Request → Lookup Handler → Type 0
HandlerPanics fd pooled req l =
    (h : Handler) × (params : List (Bytes × Bytes)) × (l ≡ found h params)
    × (h (set_params params (reset_context fd req pooled)) ≡ none)

-- A request on which the router or its handler panics.
abbrev pub IsFatalRequest : Node Handler → ℕ → Context → Request → Type 0
IsFatalRequest router fd pooled req =
    (Lookup.find req.method router req.path ≡ Lookup.bad_index)
    ⊎ HandlerPanics fd pooled req (Lookup.find req.method router req.path)

-- What was received begins with a line feed, or it is such a request.
abbrev pub IsFatal : Node Handler → ℕ → Context → Bytes → Type 0
IsFatal router fd pooled s =
    ((t : Bytes) × (s ≡ lf ∷ t))
    ⊎ ((req : Request) × (parse_request new_request s ≡ parsed req)
        × IsFatalRequest router fd pooled req)

process_request-crashed :
    (now : ℕ) (pooled : Context) (c : Connection) (req : Request) (e : Engine)
    → (process_request now pooled c req e ≡ crashed) ↔ IsFatalRequest e.router c.fd pooled req
unfolding process_request
process_request-crashed now pooled c req e =
    elim (Lookup-cases (Lookup.find req.method e.router req.path)) [
      | inl f ↦ (
        (λ h. absurd (ground (arith, f, h))),
        (λ k. elim k [
          | inl b ↦ absurd (ground (arith, f, b))
          | inr (h, params, g, p) ↦ absurd (ground (arith, f, g))
        ]),
      )
      | inr (inl f) ↦ ((λ h. inl f), λ k. ground (arith, f))
      | inr (inr (h, params, f)) ↦
          elim (Option-cases (h (set_params params (reset_context c.fd req pooled)))) [
            | inl p ↦ ((λ k. inr (h, params, f, p)), λ k. ground (arith, f, p))
            | inr (out, p) ↦ (
              (λ k. absurd (ground (arith, f, p, k))),
              (λ k. elim k [
                | inl b ↦ absurd (ground (arith, f, b))
                | inr (h', params', g, p') ↦ absurd (cc (f, g, p, p'))
              ]),
            )
          ]
    ]

abbrev busy : Connection → Request → Connection
busy c req = record c { received = []; request = some req; state = processing }

handle_bytes-crashed :
    (now : ℕ) (pooled : Context) (c : Connection) (n : Bytes) (e : Engine)
    → (handle_bytes now pooled c n e ≡ crashed) ↔ IsFatal e.router c.fd pooled (c.received ++ n)
unfolding handle_bytes
handle_bytes-crashed now pooled c n e = (
  λ h. elim (Parsed-cases (parse_request new_request (c.received ++ n))) [
    | inl f ↦ absurd (ground (arith, f, h))
    | inr (inl f) ↦ inl ((parse_request-panic_iff new_request (c.received ++ n)).0 f)
    | inr (inr (req, f)) ↦
        inr
          (req, f, (process_request-crashed now pooled (busy c req) req e).0 (ground (arith, f, h)))
  ],
  λ fatal. elim fatal [
    | inl begins ↦ ground (arith, (parse_request-panic_iff new_request (c.received ++ n)).1 begins)
    | inr (req, f, b) ↦
        ground (arith, f, (process_request-crashed now pooled (busy c req) req e).1 b)
  ],
)

-- What a read takes of what the peer has sent.
abbrev pub taken : Connection → Bytes → Bytes
taken c s = take (c.buf_len - length c.received) s

handle_read-crashed :
    (now : ℕ) (pooled : Context) (c : Connection) (s : Bytes) (e : Engine)
    → (handle_read now pooled c (data' s) e ≡ crashed)
      ↔ ((taken c s ≢ []) × IsFatal e.router c.fd pooled (c.received ++ taken c s))
unfolding handle_read
handle_read-crashed now pooled c s e = go (taken c s)
  where
    go :
        (n : Bytes)
        → ((elim n as (λ x. Outcome) [
          | [] ↦ ran (close_connection c.fd (store c e)) []
          | b ∷ t ↦ handle_bytes now pooled c (b ∷ t) e
        ])
            ≡ crashed)
          ↔ ((n ≢ []) × IsFatal e.router c.fd pooled (c.received ++ n))
    go [] = (λ h. absurd (ground (arith, h)), λ h. absurd (h.0 refl))
    go (b ∷ t) =
        let (to, fro) = handle_bytes-crashed now pooled c (b ∷ t) e in
        (λ h. ((λ k. cc), to h), λ h. fro h.1)

-- A read on a connection crashes the program exactly if it brings something and what was received
-- then begins with a line feed or is a request on which the router or the handler panics.
pub handle_event-crashed :
    (now fd : ℕ) (s : Bytes) (pooled : Context) (c : Connection) (e : Engine)
    → IsSound e
    → lookup fd e.connections ≡ some c
    → (handle_event now (ready fd (data' s) pooled) e ≡ crashed)
      ↔ ((taken c s ≢ []) × IsFatal e.router c.fd pooled (c.received ++ taken c s))
unfolding handle_event handle_connection_event
handle_event-crashed now fd s pooled c e w q =
    let r = (w.resting fd c q).at_rest in
    let (to, fro) = handle_read-crashed now pooled (record c { last_active = now }) s e in
    (λ h. to (ground (arith, q, r, h)), λ h. ground (arith, q, r, fro h))
