-- ===== src/Rpc/Server/Connections/Invariant.antt =====
-- core/rpc/server/server.go: how the table of connections and the count of requests stand to the handlers,
-- and that `Serve` and a move of one handler keep it so.
use fast_server.Base.{
  Bool, Bool-cases, arith, false, inl, inr, put, refl, some, subst, total, total-change, total-le,
  true, ℕ, ◌&&◌, ◌+◌, ◌-◌, ◌<◌, ◌≡◌, ◌≤◌,
}
use fast_server.Rpc.Server.Connections.{
  Handler, Server, absent, accept_conn, accepting, ended, go_to, gone, handling, holding, leaving,
  reading, serve_step, start_server, track_conn, tracking, untracking,
}

-- 1 for a handler with a request in progress.
abbrev pub in_progress : Handler → ℕ
in_progress handling = 1
in_progress absent = 0
in_progress reading = 0
in_progress (holding kind) = 0
in_progress leaving = 0
in_progress untracking = 0
in_progress gone = 0

abbrev pub is_running : Handler → Bool
is_running absent = false
is_running gone = false
is_running reading = true
is_running (holding kind) = true
is_running handling = true
is_running leaving = true
is_running untracking = true

-- Whether it has closed its connection.
abbrev pub has_closed : Handler → Bool
has_closed untracking = true
has_closed gone = true
has_closed absent = false
has_closed reading = false
has_closed (holding kind) = false
has_closed handling = false
has_closed leaving = false

abbrev pub requests : Server → ℕ → ℕ
requests s k = in_progress (s.handlers k)

pub record IsSound (s : Server) : Type 0 where
  pub counted : s.active_reqs ≡ total s.accepted (requests s)
  pub tracked : (k : ℕ) → s.conns k ≡ is_running (s.handlers k)
  pub closed : (k : ℕ) → has_closed (s.handlers k) ≡ true → s.is_open k ≡ false
  pub few : (k : ℕ) → s.accepted ≤ k → s.handlers k ≡ absent
  pub waits : (k : ℕ) → s.serving ≡ tracking k → (k < s.accepted) × (s.handlers k ≡ absent)

pub start_server-IsSound : (b : Bool) → IsSound (start_server b)
start_server-IsSound b = record {
  counted = refl;
  tracked = λ k. refl;
  closed = λ k e. refl;
  few = λ k l. refl;
  waits = λ k e. ground (arith, e);
}

-- The handler of `k` moves on, with the table and the count.
go_to-total :
    (k : ℕ) (h : Handler) (s : Server)
    → k < s.accepted
    → total s.accepted (requests (go_to h k s)) + in_progress (s.handlers k)
      ≡ total s.accepted (requests s) + in_progress h
go_to-total k h s l = ground (
  arith,
  total-change s.accepted k (requests s) (requests (go_to h k s)) l (λ i e. ground (arith, e)),
)

below : (k : ℕ) (s : Server) → IsSound s → is_running (s.handlers k) ≡ true → k < s.accepted
below k s w e = ground (arith, e, w.few k)

accept_conn-IsSound :
    (b : Bool) (s : Server) → IsSound s → s.serving ≡ accepting → IsSound (accept_conn b s)
accept_conn-IsSound b s w e = elim (Bool-cases (b && s.listening)) [
  | inl y ↦ rw y (record {
    counted = ground (arith, w.counted, w.few s.accepted);
    tracked = w.tracked;
    closed = λ k c. ground (arith, c, w.closed k, w.few k);
    few = λ k l. w.few k (omega (arith, l));
    waits = λ k q. ground (arith, q, w.few k);
  })
  | inr n ↦ elim (Bool-cases s.shutdown) [
    | inl y ↦
        subst IsSound {x = record s { serving = ended; listening = false }} (ground (arith, n, y))
          (record {
            counted = w.counted;
            tracked = w.tracked;
            closed = w.closed;
            few = w.few;
            waits = λ k q. ground (arith, q);
          })
    | inr m ↦ subst IsSound {x = s} (ground (arith, n, m)) w
  ]
]

track-IsSound :
    (k : ℕ) (s : Server)
    → IsSound s
    → s.serving ≡ tracking k
    → IsSound (go_to reading k (track_conn k true (record s { serving = accepting })))
track-IsSound k s w e = record {
  counted = ground (arith, e, w.counted, w.waits k e, go_to-total k reading s (w.waits k e).0);
  tracked = λ i. ground (arith, w.tracked i);
  closed = λ i c. ground (arith, c, w.closed i);
  few = λ i l. ground (arith, l, w.few i, w.waits k e);
  waits = λ i q. ground (arith, q);
}

pub serve_step-IsSound : (b : Bool) (s t : Server) → serve_step b s ≡ some t → IsSound s → IsSound t
unfolding serve_step
serve_step-IsSound b s t e w =
    elim s.serving as (λ v. s.serving ≡ v → IsSound t) [
      | accepting ↦ λ q. subst IsSound (ground (arith, e, q)) (accept_conn-IsSound b s w q)
      | tracking k ↦ λ q. subst IsSound (ground (arith, e, q)) (track-IsSound k s w q)
      | ended ↦ λ q. absurd (ground (arith, e, q))
    ]
      refl

-- The handler of `k` moves on to `h`, with the table, the count and the connection.
pub moves-IsSound :
    (k : ℕ) (h : Handler) (s t : Server)
    → IsSound s
    → is_running (s.handlers k) ≡ true
    → t.accepted ≡ s.accepted
    → t.serving ≡ s.serving
    → t.handlers ≡ put s.handlers k h
    → t.active_reqs ≡ s.active_reqs + in_progress h - in_progress (s.handlers k)
    → ((i : ℕ) → t.conns i ≡ put s.conns k (is_running h) i)
    → ((i : ℕ) → t.is_open i ≡ true → s.is_open i ≡ true)
    → (has_closed h ≡ true → t.is_open k ≡ false)
    → IsSound t
moves-IsSound k h s t w r a v m n c o x =
    let l = below k s w r in
    record {
      counted =
          ground
            (arith, w.counted, go_to-total k h s l, total-le s.accepted k (requests s) l, a, m, n);
      tracked = λ i. ground (arith, w.tracked i, c i, m);
      closed = λ i d. ground (arith, d, w.closed i, o i, x, m);
      few = λ i p. ground (arith, p, w.few i, l, a, m);
      waits = λ i q. ground (arith, q, w.waits i, r, a, v, m);
    }
