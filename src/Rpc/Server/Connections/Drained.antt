-- ===== src/Rpc/Server/Connections/Drained.antt =====
-- core/rpc/server/server.go: what a call of `Shutdown` that has returned nil has ended.
use fast_server.Base.{
  Bool, Bool-cases, List, Option, [], arith, false, inl, inr, none, some, suc, true, zero, ℕ, ◌+◌,
  ◌<◌, ◌==◌, ◌∷◌, ◌||◌, ◌≡◌, ◌≢◌, ◌≤◌, subst,
}
use fast_server.Rpc.Server.Connections.{
  Caller, Handler, Server, Step, Steps, absent, and_then, closing, flagged, gone, handler_step,
  handles, handling, holding, leaving, outside, polling, reading, returned_error, returned_nil,
  serve_step, serves, shutdown_step, shuts, snapshot, start_server, stop, unlistened, untracking,
}
use fast_server.Rpc.Server.Connections.Counts.{Step-IsSound, Steps-IsSound}
use fast_server.Rpc.Server.Connections.Invariant.{IsSound, start_server-IsSound}

abbrev is_in : ℕ → List ℕ → Bool
is_in k [] = false
is_in k (i ∷ is) = i == k || is_in k is

is_in-snapshot :
    (n k : ℕ) (conns : ℕ → Bool) → k < n → conns k ≡ true → is_in k (snapshot n conns) ≡ true
unfolding snapshot
is_in-snapshot zero k conns l e = absurd (omega (arith, l))
is_in-snapshot (suc n) k conns l e = elim (Bool-cases (n == k)) [
  | inl y ↦ ground (arith, y, e)
  | inr m ↦ ground (arith, m, is_in-snapshot n k conns (ground (arith, m, l)) e)
]

-- Whether `Shutdown` has still to close `k`.
abbrev is_pending : ℕ → Caller → Bool
is_pending k (closing ks) = is_in k ks
is_pending k outside = false
is_pending k flagged = false
is_pending k unlistened = false
is_pending k polling = false
is_pending k returned_nil = false
is_pending k returned_error = false

-- Connection `k` has a handler, and is closed unless `Shutdown` will do so.
abbrev IsDoomed : ℕ → Server → Type 0
IsDoomed k s =
    (k < s.accepted) × (s.handlers k ≢ absent) × (s.is_open k ≡ true → is_pending k s.caller ≡ true)

Step-IsDoomed : (k : ℕ) (s t : Server) → Step s t → IsSound s → IsDoomed k s → IsDoomed k t
unfolding serve_step handler_step shutdown_step
Step-IsDoomed k s t (serves b e) w d =
    (ground (arith, e, d), ground (arith, e, d), ground (arith, e, d))
Step-IsDoomed k s t (handles f i e) w d =
    (ground (arith, e, d), ground (arith, e, d), ground (arith, e, d))
Step-IsDoomed k s t (shuts x e) w d =
    (ground (arith, e, d), ground (arith, e, d), ground (arith, e, d))

Steps-IsDoomed : (k : ℕ) (s t : Server) → Steps s t → IsSound s → IsDoomed k s → IsDoomed k t
Steps-IsDoomed k s t stop w d = d
Steps-IsDoomed k s t (and_then {t = u} r e) w d =
    Step-IsDoomed k u t e (Steps-IsSound s u r w) (Steps-IsDoomed k s u r w d)

-- The server at the start of the loop of `Shutdown`.
abbrev pub with_snapshot : Server → Server
with_snapshot s = record s { caller = closing (snapshot s.accepted s.conns) }

with_snapshot-IsDoomed :
    (k : ℕ) (s : Server) → IsSound s → s.conns k ≡ true → IsDoomed k (with_snapshot s)
with_snapshot-IsDoomed k s w e =
    let l : k < s.accepted = ground (arith, e, w.tracked k, w.few k) in
    (l, ground (arith, e, w.tracked k), λ o. is_in-snapshot s.accepted k s.conns l e)

-- A run with a number of steps of the handler of `k`, and any steps that leave it where it is.
pub data Moves (k : ℕ) (s : Server) : ℕ → Server → Type 0 where
  none_yet : Moves k s 0 s
  elsewhere :
      {n : ℕ} {t u : Server}
      → Moves k s n t
      → Step t u
      → u.handlers k ≡ t.handlers k
      → Moves k s n u
  here :
      {n : ℕ} {t u : Server} (f : Option ℕ)
      → Moves k s n t
      → handler_step f k t ≡ some u
      → Moves k s (suc n) u

Moves-Steps : (k : ℕ) (s : Server) (n : ℕ) (t : Server) → Moves k s n t → Steps s t
Moves-Steps k s n t none_yet = stop
Moves-Steps k s n t (elsewhere {t = u} m e h) = and_then (Moves-Steps k s n u m) e
Moves-Steps k s _ t (here {n = n} {t = u} f m e) = and_then (Moves-Steps k s n u m) (handles f k e)

-- The steps that a handler has left on a closed connection.
abbrev steps_left : Handler → ℕ
steps_left absent = 0
steps_left reading = 3
steps_left (holding kind) = 5
steps_left handling = 4
steps_left leaving = 2
steps_left untracking = 1
steps_left gone = 0

handler_step-steps_left :
    (f : Option ℕ) (k : ℕ) (s t : Server)
    → handler_step f k s ≡ some t
    → s.is_open k ≡ false
    → steps_left (t.handlers k) < steps_left (s.handlers k)
unfolding handler_step
handler_step-steps_left f k s t e o = ground (arith, e, o)

abbrev IsShut : ℕ → Server → Type 0
IsShut k s = (k < s.accepted) × (s.handlers k ≢ absent) × (s.is_open k ≡ false)

Step-IsShut : (k : ℕ) (s t : Server) → Step s t → IsShut k s → IsShut k t
unfolding serve_step handler_step shutdown_step
Step-IsShut k s t (serves b e) d =
    (ground (arith, e, d), ground (arith, e, d), ground (arith, e, d))
Step-IsShut k s t (handles f i e) d =
    (ground (arith, e, d), ground (arith, e, d), ground (arith, e, d))
Step-IsShut k s t (shuts x e) d = (ground (arith, e, d), ground (arith, e, d), ground (arith, e, d))

Moves-IsShut :
    (k : ℕ) (s : Server) (n : ℕ) (t : Server)
    → Moves k s n t
    → IsShut k s
    → (IsShut k t) × (n + steps_left (t.handlers k) ≤ steps_left (s.handlers k))
Moves-IsShut k s n t none_yet d = (d, omega arith)
Moves-IsShut k s n t (elsewhere {t = u} m e h) d =
    let w = Moves-IsShut k s n u m d in (Step-IsShut k u t e w.0, ground (arith, h, w.1))
Moves-IsShut k s _ t (here {n = n} {t = u} f m e) d =
    let w = Moves-IsShut k s n u m d in
    (
      Step-IsShut k u t (handles f k e) w.0,
      ground (arith, w.1, handler_step-steps_left f k u t e w.0.2),
    )

steps_left-le : (h : Handler) → steps_left h ≤ 5
steps_left-le h = ground arith

handler_step-none :
    (f : Option ℕ) (k : ℕ) (s : Server)
    → handler_step f k s ≡ none
    → s.handlers k ≢ absent
    → s.handlers k ≡ gone
unfolding handler_step
handler_step-none f k s e a = ground (arith, e, a)

snapshot_step :
    (x : Bool) (s t : Server)
    → shutdown_step x s ≡ some t
    → s.caller ≡ unlistened
    → with_snapshot s ≡ t
unfolding shutdown_step
snapshot_step x s t e c = ground (arith, e, c)

-- Once `Shutdown` has returned nil, each connection that was in the table when it took its snapshot is
-- closed for good, whatever runs meanwhile and later; its goroutine takes five steps more at most (one of
-- them may still be the start of a request), and when it can take none it has returned and the connection
-- is out of the table.
pub shutdown_step-drains :
    (b x : Bool) (s t u v : Server) (k n : ℕ)
    → Steps (start_server b) s
    → s.caller ≡ unlistened
    → shutdown_step x s ≡ some t
    → s.conns k ≡ true
    → Steps t u
    → u.caller ≡ returned_nil
    → Moves k u n v
    → (v.is_open k ≡ false)
      × (n ≤ 5)
      × ((f : Option ℕ) → handler_step f k v ≡ none → (v.handlers k ≡ gone) × (v.conns k ≡ false))
shutdown_step-drains b x s t u v k n r c e i q z m =
    let w = Steps-IsSound (start_server b) s r (start_server-IsSound b) in
    let w' = Step-IsSound s t (shuts x e) w in
    let w'' = Steps-IsSound t u q w' in
    let d =
      Steps-IsDoomed k t u q w'
        (subst (IsDoomed k) (snapshot_step x s t e c) (with_snapshot-IsDoomed k s w i)) in
    let g = Moves-IsShut k u n v m (d.0, d.1, ground (arith, d.2, z)) in
    let y = (Steps-IsSound u v (Moves-Steps k u n v m) w'').tracked k in
    (
      g.0.2,
      omega (arith, g.1, steps_left-le (u.handlers k)),
      (λ f h. let a = handler_step-none f k v h g.0.1 in (a, ground (arith, a, y))),
    )
