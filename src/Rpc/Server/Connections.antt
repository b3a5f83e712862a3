-- ===== src/Rpc/Server/Connections.antt =====
-- core/rpc/server/server.go: the connections of a server, with `Serve`, the goroutines of `handleConn` and a
-- call of `Shutdown`, as steps that interleave. Connections are numbers in the order of their accepts. What a
-- request does is in the parent.
pub mod Invariant
pub mod Counts
pub mod Drained
mod Tests
use fast_server.Base.{
  Bool, List, Option, [], if◌then◌else◌, false, none, put, some, suc, true, zero, ℕ, ◌&&◌, ◌+◌, ◌-◌,
  ◌==◌, ◌∷◌, ◌≡◌,
}
use fast_server.Rpc.Server.{type_request}

-- Where the goroutine of a connection is: none yet, at the next frame, with a frame of a kind, in
-- `handleRequest`, in the deferred calls, or returned.
pub data Handler : Type 0 where
  absent reading handling leaving untracking gone : Handler
  holding : ℕ → Handler

-- Where `Serve` is.
pub data Serving : Type 0 where
  accepting ended : Serving
  tracking : ℕ → Serving

-- Where the caller of `Shutdown` is; `closing` has the connections that the loop has still to close.
pub data Caller : Type 0 where
  outside flagged unlistened polling returned_nil returned_error : Caller
  closing : List ℕ → Caller

-- `accepted` is how many connections there were. `has_listener` is `s.listener != nil`.
pub record Server : Type 0 where
  pub accepted : ℕ
  pub handlers : ℕ → Handler
  pub is_open : ℕ → Bool
  pub conns : ℕ → Bool
  pub active_reqs : ℕ
  pub shutdown : Bool
  pub has_listener : Bool
  pub listening : Bool
  pub serving : Serving
  pub caller : Caller

-- `NewServer`, and the start of `Serve`: called by `ListenAndServe`, or with a listener of the caller's.
abbrev pub start_server : Bool → Server
start_server has_listener = record {
  accepted = 0;
  handlers = λ k. absent;
  is_open = λ k. false;
  conns = λ k. false;
  active_reqs = 0;
  shutdown = false;
  has_listener = has_listener;
  listening = true;
  serving = accepting;
  caller = outside;
}

abbrev pub go_to : Handler → ℕ → Server → Server
go_to h k s = record s { handlers = put s.handlers k h }

-- `trackConn`
abbrev pub track_conn : ℕ → Bool → Server → Server
track_conn k add s = record s { conns = put s.conns k add }

-- A closed connection can be closed again.
abbrev pub close_conn : ℕ → Server → Server
close_conn k s = record s { is_open = put s.is_open k false }

-- `Accept` gives a connection, unless the listener is closed or something fails.
abbrev pub accept_conn : Bool → Server → Server
accept_conn arrives s =
    if arrives && s.listening
    then record s {
      accepted = s.accepted + 1;
      is_open = put s.is_open s.accepted true;
      serving = tracking s.accepted;
    }
    else if s.shutdown
    then record s { serving = ended; listening = false }
    else s

-- `Serve`
pub serve_step : Bool → Server → Option Server
serve_step arrives s = elim s.serving [
  | accepting ↦ some (accept_conn arrives s)
  | tracking k ↦ some (go_to reading k (track_conn k true (record s { serving = accepting })))
  | ended ↦ none
]

-- What the reads for a frame give on an open connection: the kind of a frame, or an error.
abbrev pub read_frame : Option ℕ → ℕ → Server → Server
read_frame none k s = go_to leaving k s
read_frame (some kind) k s = if s.is_open k then go_to (holding kind) k s else go_to leaving k s

-- `handleConn` of connection `k`.
pub handler_step : Option ℕ → ℕ → Server → Option Server
handler_step frame k s = elim (s.handlers k) [
  | absent ↦ none
  | reading ↦ some (read_frame frame k s)
  | holding kind ↦
      if kind == type_request
      then some (go_to handling k (record s { active_reqs = s.active_reqs + 1 }))
      else some (go_to reading k s)
  | handling ↦ some (go_to reading k (record s { active_reqs = s.active_reqs - 1 }))
  | leaving ↦ some (go_to untracking k (close_conn k s))
  | untracking ↦ some (go_to gone k (track_conn k false s))
  | gone ↦ none
]

-- The connections below `n` that are in the table.
pub snapshot : ℕ → (ℕ → Bool) → List ℕ
snapshot zero conns = []
snapshot (suc n) conns = if conns n then n ∷ snapshot n conns else snapshot n conns

-- `Shutdown`; `expired` says that the context is done.
pub shutdown_step : Bool → Server → Option Server
shutdown_step expired s = elim s.caller [
  | outside ↦ some (record s { shutdown = true; caller = flagged })
  | flagged ↦
      some (record s {
        listening = if s.has_listener then false else s.listening;
        caller = unlistened;
      })
  | unlistened ↦ some (record s { caller = closing (snapshot s.accepted s.conns) })
  | closing ks ↦ elim ks [
    | [] ↦ some (record s { caller = polling })
    | k ∷ rest ↦ some (record (close_conn k s) { caller = closing rest })
  ]
  | polling ↦
      if s.active_reqs == 0
      then some (record s { caller = returned_nil })
      else if expired
      then some (record s { caller = returned_error })
      else none
  | returned_nil ↦ none
  | returned_error ↦ none
]

-- A step of any goroutine.
pub data Step (s : Server) : Server → Type 0 where
  serves : {t : Server} (arrives : Bool) → serve_step arrives s ≡ some t → Step s t
  handles : {t : Server} (frame : Option ℕ) (k : ℕ) → handler_step frame k s ≡ some t → Step s t
  shuts : {t : Server} (expired : Bool) → shutdown_step expired s ≡ some t → Step s t

pub data Steps : Server → Server → Type 0 where
  stop : {s : Server} → Steps s s
  and_then : {s t u : Server} → Steps s t → Step t u → Steps s u
