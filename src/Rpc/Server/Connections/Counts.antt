-- ===== src/Rpc/Server/Connections/Counts.antt =====
-- core/rpc/server/server.go: what the table of connections and the count of requests say, after any steps.
use fast_server.Base.{
  Bool, Bool-cases, Option, arith, false, inl, inr, none, refl, some, subst, sym, total, total-le,
  true, ℕ, ◌==◌, ◌≡◌, ◌≤◌,
}
use fast_server.Rpc.Server.{type_request}
use fast_server.Rpc.Server.Connections.{
  Handler, Server, Step, Steps, absent, and_then, go_to, gone, handler_step, handles, handling,
  holding, leaving, read_frame, reading, serves, shutdown_step, shuts, start_server, stop,
  untracking,
}
use fast_server.Rpc.Server.Connections.Invariant.{
  IsSound, has_closed, in_progress, is_running, moves-IsSound, requests, serve_step-IsSound,
  start_server-IsSound,
}

-- A handler that only moves on.
go_to-IsSound :
    (k : ℕ) (h : Handler) (s : Server)
    → IsSound s
    → is_running (s.handlers k) ≡ true
    → is_running h ≡ true
    → has_closed h ≡ false
    → in_progress h ≡ in_progress (s.handlers k)
    → IsSound (go_to h k s)
go_to-IsSound k h s w r r' c p =
    moves-IsSound k h s (go_to h k s) w r refl refl refl (omega (arith, p))
      (λ i. ground (arith, w.tracked i, r, r')) (λ i o. o) (λ x. absurd (ground (arith, x, c)))

read_frame-IsSound :
    (f : Option ℕ) (k : ℕ) (s : Server)
    → IsSound s
    → s.handlers k ≡ reading
    → IsSound (read_frame f k s)
read_frame-IsSound none k s w q =
    go_to-IsSound k leaving s w (ground (arith, q)) refl refl (ground (arith, q))
read_frame-IsSound (some kind) k s w q = elim (Bool-cases (s.is_open k)) [
  | inl y ↦
      subst IsSound {x = go_to (holding kind) k s} (ground (arith, y))
        (go_to-IsSound k (holding kind) s w (ground (arith, q)) refl refl (ground (arith, q)))
  | inr n ↦
      subst IsSound {x = go_to leaving k s} (ground (arith, n))
        (go_to-IsSound k leaving s w (ground (arith, q)) refl refl (ground (arith, q)))
]

handler_step-IsSound :
    (f : Option ℕ) (k : ℕ) (s t : Server) → handler_step f k s ≡ some t → IsSound s → IsSound t
unfolding handler_step
handler_step-IsSound f k s t e w =
    elim (s.handlers k) as (λ v. s.handlers k ≡ v → IsSound t) [
      | absent ↦ λ q. absurd (ground (arith, e, q))
      | gone ↦ λ q. absurd (ground (arith, e, q))
      | reading ↦ λ q. subst IsSound (ground (arith, e, q)) (read_frame-IsSound f k s w q)
      | holding kind ↦ λ q. elim (Bool-cases (kind == type_request)) [
        | inl y ↦
            moves-IsSound k handling s t w (ground (arith, q)) (ground (arith, e, q, y))
              (ground (arith, e, q, y)) (cc (e, q, y)) (ground (arith, e, q, y))
              (λ i. ground (arith, e, q, y, w.tracked i)) (λ i. ground (arith, e, q, y))
              (λ x. absurd (ground (arith, x)))
        | inr n ↦
            subst IsSound (ground (arith, e, q, n))
              (go_to-IsSound k reading s w (ground (arith, q)) refl refl (ground (arith, q)))
      ]
      | handling ↦ λ q.
          moves-IsSound k reading s t w (ground (arith, q)) (ground (arith, e, q))
            (ground (arith, e, q)) (cc (e, q)) (ground (arith, e, q))
            (λ i. ground (arith, e, q, w.tracked i)) (λ i. ground (arith, e, q))
            (λ x. absurd (ground (arith, x)))
      | leaving ↦ λ q.
          moves-IsSound k untracking s t w (ground (arith, q)) (ground (arith, e, q))
            (ground (arith, e, q)) (cc (e, q)) (ground (arith, e, q))
            (λ i. ground (arith, e, q, w.tracked i)) (λ i. ground (arith, e, q))
            (λ x. ground (arith, e, q))
      | untracking ↦ λ q.
          moves-IsSound k gone s t w (ground (arith, q)) (ground (arith, e, q))
            (ground (arith, e, q)) (cc (e, q)) (ground (arith, e, q))
            (λ i. ground (arith, e, q, w.tracked i)) (λ i. ground (arith, e, q))
            (λ x. ground (arith, e, q, w.closed k))
    ]
      refl

-- What changes neither the handlers nor the table, and opens no connection.
kept-IsSound :
    (s t : Server)
    → IsSound s
    → t ≡ record s {
      is_open = t.is_open;
      shutdown = t.shutdown;
      listening = t.listening;
      caller = t.caller;
    }
    → ((i : ℕ) → t.is_open i ≡ true → s.is_open i ≡ true)
    → IsSound t
kept-IsSound s t w e o = subst IsSound (sym e) (record {
  counted = w.counted;
  tracked = w.tracked;
  closed = λ i d. ground (arith, w.closed i d, o i);
  few = w.few;
  waits = w.waits;
})

shutdown_step-IsSound :
    (x : Bool) (s t : Server) → shutdown_step x s ≡ some t → IsSound s → IsSound t
unfolding shutdown_step
shutdown_step-IsSound x s t e w = kept-IsSound s t w (ground (arith, e)) (λ i. ground (arith, e))

pub Step-IsSound : (s t : Server) → Step s t → IsSound s → IsSound t
Step-IsSound s t (serves b e) w = serve_step-IsSound b s t e w
Step-IsSound s t (handles f k e) w = handler_step-IsSound f k s t e w
Step-IsSound s t (shuts x e) w = shutdown_step-IsSound x s t e w

pub Steps-IsSound : (s t : Server) → Steps s t → IsSound s → IsSound t
Steps-IsSound s t stop w = w
Steps-IsSound s t (and_then {t = u} r e) w = Step-IsSound u t e (Steps-IsSound s u r w)

-- After any steps in any order: `activeReqs` is the number of requests in progress, so that it is not 0 where
-- one ends; the table has the connections of which `handleConn` runs, up to its last deferred call; and one
-- that has left the table is closed.
pub Steps-counted :
    (b : Bool) (s : Server) (k : ℕ)
    → Steps (start_server b) s
    → (s.active_reqs ≡ total s.accepted (requests s))
      × (s.handlers k ≡ handling → 1 ≤ s.active_reqs)
      × (s.conns k ≡ is_running (s.handlers k))
      × (s.handlers k ≡ gone → s.is_open k ≡ false)
Steps-counted b s k r =
    let w = Steps-IsSound (start_server b) s r (start_server-IsSound b) in
    (
      w.counted,
      (λ h. ground (arith, h, w.counted, w.few k, total-le s.accepted k (requests s))),
      w.tracked k,
      (λ h. w.closed k (ground (arith, h))),
    )
