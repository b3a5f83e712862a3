-- ===== src/Sse/Handler/Delivery.antt =====
-- core/sse/handler.go: what a reader gets of the events sent.
use fast_server.Base.{
  All, All-append, Bool, Bool-cases, Bytes, Lacks, List, [], append-nil, append_assoc, arith, codes,
  false, refl, some, subst, sym, ap, true, ◌&&◌, ◌++◌, ◌||◌, ◌∷◌, ◌≡◌, ◌≢◌, ◌∙◌, inl, inr,
  bytes_key,
}
use fast_server.Sse.Event.{Event, close, format_event, lf, new_client, send}
use fast_server.Sse.Event.Format.{
  IsPlain, read_events, Lacks-format_event, OneLine, cr, line_feeds-Lacks, read_text,
  read_text-none, read_text-format_event,
}
use fast_server.Sse.Handler.{
  Connection, Run, begins, closes, connect, has_none, connected_event, loop_step, loops, on_event,
  leave_with, returned_nil, running, select, sends, write_failed,
}

-- The text of some events.
abbrev texts : List Event → Bytes
texts [] = []
texts (e ∷ es) = format_event e ++ texts es

texts-append : (es fs : List Event) → texts (es ++ fs) ≡ texts es ++ texts fs
texts-append [] fs = refl
texts-append (e ∷ es) fs =
    ap (λ s. format_event e ++ s) (texts-append es fs)
    ∙ sym (append_assoc (format_event e) (texts es) (texts fs))

read_text-texts : (es : List Event) → All IsPlain es → read_text (texts es) ≡ es
read_text-texts [] w = read_text-none
read_text-texts (e ∷ es) w =
    read_text-format_event e (texts es) w.0 ∙ ap (λ fs. e ∷ fs) (read_text-texts es w.1)

Lacks-texts : (es : List Event) → All IsPlain es → Lacks cr (texts es)
Lacks-texts [] w = tt
Lacks-texts (e ∷ es) w =
    All-append (λ b. b ≢ cr) (format_event e) (texts es) (Lacks-format_event e w.0)
      (Lacks-texts es w.1)

read_events-texts : (es : List Event) → All IsPlain es → read_events (texts es) ≡ es
read_events-texts es w =
    ap read_text (line_feeds-Lacks (texts es) (Lacks-texts es w)) ∙ read_text-texts es w

All-prefix : (P : Event → Type 0) (es fs : List Event) → All P (es ++ fs) → All P es
All-prefix P [] fs w = tt
All-prefix P (e ∷ es) fs w = (w.0, All-prefix P es fs w.1)

-- The events `es` were written behind the first, but for those in the channel.
abbrev Written : Bytes → Bool → List Event → Connection → Type 0
Written id h es c =
    c.result ≢ write_failed
    → (taken : List Event) × (c.written ≡ texts (connected_event id ∷ taken))
      × (es ≡ taken ++ c.client.channel)
      × (c.result ≡ returned_nil
          → (c.unsubscribed ≡ true)
            × (c.client.closed ≡ true)
            × (h ≡ false → c.client.channel ≡ []))

written-event :
    (id : Bytes) (taken : List Event) (e : Event)
    → texts (connected_event id ∷ taken) ++ format_event e
      ≡ texts (connected_event id ∷ (taken ++ e ∷ []))
written-event id taken e =
    ap (λ s. texts (connected_event id ∷ taken) ++ s) (sym (append-nil (format_event e)))
    ∙ sym (texts-append (connected_event id ∷ taken) (e ∷ []))

leave_with-Written :
    (id : Bytes) (h p : Bool) (es : List Event) (c : Connection)
    → c.result ≡ running
    → (c.client.closed && (p || has_none c.client.channel)) ≡ true
    → Written id h es c
    → Written id (h || p) es (leave_with returned_nil c)
leave_with-Written id h p es c r b v f =
    let (taken, t, s, n) = v (ground (arith, r)) in
    (taken, t, s, λ _. (refl, ground (arith, b), ground (arith, b)))

take-Written :
    (id : Bytes) (h p w : Bool) (es rest : List Event) (e : Event) (c : Connection)
    → c.result ≡ running
    → c.client.channel ≡ e ∷ rest
    → Written id h es c
    → Written id
        (h || p)
        es
        (on_event w e (record c { client = record (c.client) { channel = rest } }))
unfolding on_event
take-Written id h p false es rest e c r k v f = absurd (f refl)
take-Written id h p true es rest e c r k v f =
    let (taken, t, s, n) = v (ground (arith, r)) in
    (
      taken ++ e ∷ [],
      ap (λ x. x ++ format_event e) t ∙ written-event id taken e,
      s ∙ ap (λ x. taken ++ x) k ∙ sym (append_assoc taken (e ∷ []) rest),
      (λ q. absurd (ground (arith, q, r))),
    )

select-Written :
    (id : Bytes) (h p w : Bool) (es : List Event) (c d : Connection)
    → c.result ≡ running
    → select p w c ≡ some d
    → Written id h es c
    → Written id (h || p) es d
unfolding select
select-Written id h p w es c d r e v =
    elim (Bool-cases (c.client.closed && (p || has_none c.client.channel))) [
      | inl y ↦
          let q : leave_with returned_nil c ≡ d = ground (arith, e, y) in
          subst (Written id (h || p) es) q (leave_with-Written id h p es c r y v)
      | inr n ↦
          elim c.client.channel as (λ ch. c.client.channel ≡ ch → Written id (h || p) es d) [
            | [] ↦ λ k. absurd (ground (arith, e, n, k))
            | x ∷ rest ↦ λ k.
                let q : on_event w x (record c { client = record (c.client) { channel = rest } })
                    ≡ d =
                  ground (arith, e, n, k) in
                subst (Written id (h || p) es) q (take-Written id h p w es rest x c r k v)
          ]
            refl
    ]

loop_step-Written :
    (id : Bytes) (h p w : Bool) (es : List Event) (c d : Connection)
    → loop_step p w c ≡ some d
    → Written id h es c
    → Written id (h || p) es d
unfolding loop_step
loop_step-Written id h p w es c d e v =
    let r : c.result ≡ running = ground (arith, e) in
    select-Written id h p w es c d r (ground (arith, e, r)) v

send-Written :
    (id : Bytes) (h : Bool) (es : List Event) (e : Event) (c : Connection)
    → (send e c.client).1 ≡ true
    → Written id h es c
    → Written id h (es ++ e ∷ []) (record c { client = (send e c.client).0 })
unfolding send
send-Written id h es e c y v f =
    let (taken, t, s, n) = v f in
    let q : (send e c.client).0 ≡ record (c.client) { channel = c.client.channel ++ e ∷ [] } =
      ground (arith, y) in
    (
      taken,
      t,
      ap (λ x. x ++ e ∷ []) s
          ∙ append_assoc taken c.client.channel (e ∷ [])
          ∙ ap (λ d. taken ++ d.channel) (sym q),
      (λ m. absurd (ground (arith, y, n m))),
    )

close-Written :
    (id : Bytes) (h : Bool) (es : List Event) (c : Connection)
    → Written id h es c
    → Written id h es (record c { client = close c.client })
unfolding close
close-Written id h es c v f =
    let (taken, t, s, n) = v f in (taken, t, s, λ m. ((n m).0, refl, (n m).2))

connect-Written : (id : Bytes) (w : Bool) → Written id false [] (connect w id)
unfolding connect on_event new_client
connect-Written id true f = (
  [],
  sym (append-nil (format_event (connected_event id))),
  refl,
  λ m. absurd (ground (arith, m)),
)
connect-Written id false f = absurd (f refl)

Run-Written :
    (id : Bytes) (w h : Bool) (es : List Event) (c : Connection)
    → Run (connect w id) h es c
    → Written id h es c
Run-Written id w _ _ _ begins = connect-Written id w
Run-Written id w h _ _ (sends {es = es} {d = d} e r y) =
    send-Written id h es e d y (Run-Written id w h es d r)
Run-Written id w h es _ (closes {d = d} r) = close-Written id h es d (Run-Written id w h es d r)
Run-Written id w _ es c (loops {h = h} {d = d} p v r e) =
    loop_step-Written id h p v es d c e (Run-Written id w h es d r)

connected_event-IsPlain : (id : Bytes) → OneLine id → IsPlain (connected_event id)
unfolding connected_event
connected_event-IsPlain id (w, v) = (
  (tt, tt),
  tt,
  (omega arith, omega arith),
  (
    All-append (λ b. b ≢ lf) (codes "client_id:") id (omega arith) w,
    All-append (λ b. b ≢ cr) (codes "client_id:") id (omega arith) v,
  ),
  (cc),
)

-- While no write fails and no `Close` comes inside a `Send`, and where neither the client's identifier nor the
-- events have a line end, each event has data and no identifier of an event a zero byte: a reader of all
-- that was written meets the event of the connection and then the events that `Send` took, each once and
-- in their order, but for those that still wait in the channel, whatever is sent, received and closed in
-- whatever order. When the call returns nil it unsubscribes, the client is closed, and nothing waits
-- unless `select` preferred the closing.
pub read_events-Run :
    (id : Bytes) (writes hasty : Bool) (es : List Event) (c : Connection)
    → OneLine id
    → All IsPlain es
    → Run (connect writes id) hasty es c
    → c.result ≢ write_failed
    → (taken : List Event) × (read_events c.written ≡ connected_event id ∷ taken)
      × (es ≡ taken ++ c.client.channel)
      × (c.result ≡ returned_nil
          → (c.unsubscribed ≡ true)
            × (c.client.closed ≡ true)
            × (hasty ≡ false → c.client.channel ≡ []))
read_events-Run id w h es c l plain r f =
    let (taken, t, s, n) = Run-Written id w h es c r f in
    let p = All-prefix IsPlain taken c.client.channel (subst (All IsPlain) s plain) in
    (
      taken,
      ap read_events t
          ∙ read_events-texts (connected_event id ∷ taken) (connected_event-IsPlain id l, p),
      s,
      n,
    )
