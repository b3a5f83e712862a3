-- ===== src/Engine/Idle.antt =====
-- core/engine.go: the round of `cleanupIdleConnections`.
use fast_server.Engine.{
  Connection, Engine, cleanup, close_all, close_connection, idle, not_processing,
}
use fast_server.Engine.Invariant.{IsSound, elem}
use fast_server.Base.{
  Bool, Bool-cases, List, Once, Option, Option-cases, [], ap, arith, false, if◌then◌else◌, inl, inr,
  lookup, lookup-delete, ltb, none, refl, some, sym, ℕ, ◌&&◌, ◌-◌, ◌==◌, ◌∙◌, ◌∷◌, ◌≡◌, nat_eq,
}

lookup-close_connection :
    (fd k : ℕ) (e : Engine)
    → lookup k (close_connection fd e).connections
      ≡ (if fd == k then none else lookup k e.connections)
unfolding close_connection
lookup-close_connection fd k e = elim (Option-cases (lookup fd e.connections)) [
  | inl absent ↦ ground (arith, absent)
  | inr (c, q) ↦ ground (arith, q, lookup-delete fd k e.connections)
]

lookup-close_all :
    (fds : List ℕ) (k : ℕ) (e : Engine)
    → lookup k (close_all fds e).connections ≡ (if elem k fds then none else lookup k e.connections)
unfolding close_all
lookup-close_all [] k e = refl
lookup-close_all (fd ∷ fds) k e =
    ground (arith, lookup-close_all fds k (close_connection fd e), lookup-close_connection fd k e)

-- Whether a connection has been idle for too long.
abbrev pub is_idle : ℕ → ℕ → Option Connection → Bool
is_idle timeout now none = false
is_idle timeout now (some c) = not_processing c.state && ltb timeout (now - c.last_active)

elem-idle :
    (timeout now k : ℕ) (m : List (ℕ × Connection))
    → Once m
    → elem k (idle timeout now m) ≡ is_idle timeout now (lookup k m)
unfolding idle lookup
elem-idle timeout now k [] h = refl
elem-idle timeout now k ((fd, c) ∷ m) h = elim (Bool-cases (fd == k)) [
  | inl same ↦
      let e : fd ≡ k = ground (arith, same) in
      let n : lookup k m ≡ none = ap (λ i. lookup i m) (sym e) ∙ h.0 in
      ground (arith, same, n, elem-idle timeout now k m h.1)
  | inr other ↦ ground (arith, other, elem-idle timeout now k m h.1)
]

-- A round of the clean-up closes the connections that have been idle for longer than the timeout,
-- and leaves the others as they are.
pub cleanup-idle :
    (now : ℕ) (e : Engine) (fd : ℕ)
    → IsSound e
    → lookup fd (cleanup now e).connections
      ≡ (elim (lookup fd e.connections) as (λ x. Option Connection) [
        | none ↦ none
        | some c ↦ if ltb e.idle_timeout (now - c.last_active) then none else some c
      ])
unfolding cleanup
cleanup-idle now e fd w = elim (Option-cases (lookup fd e.connections)) [
  | inl absent ↦
      ground (arith, absent, lookup-close_all (idle e.idle_timeout now e.connections) fd e)
  | inr (c, q) ↦ ground (
    arith,
    q,
    (w.resting fd c q).at_rest,
    elem-idle e.idle_timeout now fd e.connections w.once,
    lookup-close_all (idle e.idle_timeout now e.connections) fd e,
  )
]
