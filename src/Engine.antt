-- ===== src/Engine.antt =====
-- core/engine.go: the connections of the engine and the events that change them. The poller, the
-- kernel's answers and the clock come with an event. Left out are the fields that nothing reads
-- (`keepAlive`, `closeAfter`, `context`) and what the pools hold; a context from the pool comes with
-- the event in which it is used. A handler is what it writes to the socket for its
-- context, or it panics.
pub mod Digits
pub mod Invariant
pub mod Events
pub mod Reads
pub mod Idle
pub mod Crash
pub mod Routes
mod Tests
use fast_server.Base.{
  Bool, Bytes, List, Option, [], bytes_eq, codes, delete, false, if◌then◌else◌, insert, leb, length,
  lookup, ltb, none, some, suc, take, true, zero, ℕ, ◌%◌, ◌&&◌, ◌*◌, ◌++◌, ◌+◌, ◌-◌, ◌/◌, ◌==◌,
  ◌||◌, ◌∷◌, nat_eq,
}
use fast_server.Http.Request.{Request, new_request}
use fast_server.Http.Parser.{invalid, parse_request, parsed}
use fast_server.Http.Parser
use fast_server.Http.Context.{Context, reset_context, set_param}
use fast_server.Router.Radix.{Node, new_router}
use fast_server.Router.Radix.Insert
use fast_server.Router.Radix.Insert.{Added, added, ◌>>=◌}
use fast_server.Router.Radix.Lookup
use fast_server.Router.Radix.Lookup.{Lookup, found, missing}
use mathlib.Core.List.{reverse}

pub data ConnState : Type 0 where
  reading processing writing keepalive : ConnState

-- `received` is `readBuf[:readOffset]`, and `buf_len` is `len(readBuf)`.
pub record Connection : Type 0 where
  pub fd : ℕ
  pub state : ConnState
  pub received : Bytes
  pub buf_len : ℕ
  pub request : Option Request
  pub last_active : ℕ

abbrev pub Handler : Type 0
Handler = Context → Option Bytes

-- `polled` holds the descriptors of connections that the poller watches.
pub record Engine : Type 0 where
  pub router : Node Handler
  pub connections : List (ℕ × Connection)
  pub polled : List ℕ
  pub idle_timeout : ℕ

abbrev second : ℕ
second = 1000000000

-- `NewEngine`, as far as it is modelled. A duration counts nanoseconds.
abbrev pub new_engine : Engine
new_engine = record {
  router = new_router;
  connections = [];
  polled = [];
  idle_timeout = 5 * second;
}

-- `GET`, `POST` and their like; the panics of the router are its own.
pub handle_route : Bytes → Bytes → Handler → Engine → Added Engine
handle_route method path handler e = do
  t ← Insert.add method handler e.router path
  added (record e { router = t })

-- What was written to which descriptor.
abbrev pub Writes : Type 0
Writes = List (ℕ × Bytes)

-- An event leaves an engine, or a run-time panic ends the program.
pub data Outcome : Type 0 where
  ran : Engine → Writes → Outcome
  crashed : Outcome

-- The descriptor of a connection, and whether it is set non-blocking and the poller takes it.
pub record Accepted : Type 0 where
  pub fd : ℕ
  pub nonblocking : Bool
  pub watched : Bool

-- What `syscall.Read` answers; `data'` is what the peer has sent, empty at the end of the stream.
pub data ReadResult : Type 0 where
  again failed : ReadResult
  data' : Bytes → ReadResult

-- `conn` of `acceptConnections`, whose object from the pool is overwritten.
abbrev pub new_connection : ℕ → ℕ → Connection
new_connection now fd = record {
  fd = fd;
  state = reading;
  received = [];
  buf_len = 8192;
  request = none;
  last_active = now;
}

-- The loop of `acceptConnections` over what `syscall.Accept` returns until it has no more.
pub accept_connections : ℕ → List Accepted → Engine → Engine
accept_connections now [] e = e
accept_connections now (a ∷ rest) e = accept_connections now rest (
    if a.nonblocking && a.watched
    then record e {
      connections = insert a.fd (new_connection now a.fd) e.connections;
      polled = a.fd ∷ e.polled;
    }
    else e)

abbrev pub remove : ℕ → List ℕ → List ℕ
remove fd [] = []
remove fd (k ∷ ks) = if k == fd then remove fd ks else k ∷ remove fd ks

-- `closeConnection`
pub close_connection : ℕ → Engine → Engine
close_connection fd e = elim (lookup fd e.connections) [
  | none ↦ e
  | some c ↦ record e { connections = delete fd e.connections; polled = remove fd e.polled }
]

-- The decimal digits of `appendInt`, the last first, on fuel.
pub digits : ℕ → ℕ → Bytes
digits zero i = []
digits (suc fuel) i =
    let rest = digits fuel (i / 10) in if i == 0 then [] else (b'0' + i % 10) ∷ rest

pub append_int : Bytes → ℕ → Bytes
append_int b i = if i == 0 then b ++ (b'0' ∷ []) else b ++ reverse (digits i i)

-- What `sendError` writes.
pub error_response : ℕ → Bytes → Bytes
error_response code message =
    append_int (codes "HTTP/1.1 ") code ++ (b' ' ∷ (message ++ (13 ∷ 10 ∷ 13 ∷ 10 ∷ [])))

-- `checkKeepAlive`: whether the connection ends after the response.
pub wants_close : Request → Bool
wants_close req = bytes_eq req.proto (codes "HTTP/1.0") || bytes_eq req.connection (codes "close")

abbrev pub store : Connection → Engine → Engine
store c e = record e { connections = insert c.fd c e.connections }

-- The connection object is shared with the table, so its changes are stored there first.
pub check_keep_alive : ℕ → Connection → Request → Engine → Engine
check_keep_alive now c req e =
    if wants_close req
    then close_connection c.fd (store c e)
    else store (record c { state = reading; received = []; request = none; last_active = now }) e

abbrev pub set_params : List (Bytes × Bytes) → Context → Context
set_params [] ctx = ctx
set_params ((k, v) ∷ params) ctx = set_params params (set_param k v ctx)

-- `processRequest`; the context comes from the pool.
pub process_request : ℕ → Context → Connection → Request → Engine → Outcome
process_request now pooled c req e = elim (Lookup.find req.method e.router req.path) [
  | missing ↦
      ran (check_keep_alive now c req e) ((c.fd, error_response 404 (codes "Not Found")) ∷ [])
  | Lookup.bad_index ↦ crashed
  | found h params ↦
      let ctx = set_params params (reset_context c.fd req pooled) in
      elim (h ctx) [
        | none ↦ crashed
        | some out ↦ ran (check_keep_alive now c req e) ((c.fd, out) ∷ [])
      ]
]

-- `handleRead` behind the read, which took `n` bytes.
pub handle_bytes : ℕ → Context → Connection → Bytes → Engine → Outcome
handle_bytes now pooled c n e =
    let d = record c { received = c.received ++ n } in
    elim (parse_request new_request d.received) [
      | parsed req ↦
          process_request now pooled
            (record d { received = []; request = some req; state = processing }) req e
      | invalid ↦
          if leb d.buf_len (length d.received)
          then ran (close_connection d.fd (store d e))
              ((d.fd, error_response 400 (codes "Bad Request")) ∷ [])
          else ran (store d e) []
      | Parser.panic ↦ crashed
    ]

-- `handleRead`; the read takes as much as the buffer has room for.
pub handle_read : ℕ → Context → Connection → ReadResult → Engine → Outcome
handle_read now pooled c again e = ran (store c e) []
handle_read now pooled c failed e = ran (close_connection c.fd (store c e)) []
handle_read now pooled c (data' s) e = elim (take (c.buf_len - length c.received) s) [
  | [] ↦ ran (close_connection c.fd (store c e)) []
  | b ∷ n ↦ handle_bytes now pooled c (b ∷ n) e
]

abbrev on_state : ℕ → Context → Connection → ReadResult → Engine → Outcome
on_state now pooled c result e = elim c.state [
  | reading ↦ handle_read now pooled c result e
  | keepalive ↦ handle_read now pooled c result e
  | writing ↦ ran (store (record c { state = keepalive }) e) []
  | processing ↦ ran (store c e) []
]

-- `handleConnectionEvent`
pub handle_connection_event : ℕ → Context → ℕ → ReadResult → Engine → Outcome
handle_connection_event now pooled fd result e = elim (lookup fd e.connections) [
  | none ↦ ran e []
  | some c ↦ on_state now pooled (record c { last_active = now }) result e
]

abbrev pub not_processing : ConnState → Bool
not_processing processing = false
not_processing _ = true

-- A round of `cleanupIdleConnections`: the descriptors that it closes.
pub idle : ℕ → ℕ → List (ℕ × Connection) → List ℕ
idle timeout now [] = []
idle timeout now ((fd, c) ∷ m) =
    let rest = idle timeout now m in
    if not_processing c.state && ltb timeout (now - c.last_active) then fd ∷ rest else rest

pub close_all : List ℕ → Engine → Engine
close_all [] e = e
close_all (fd ∷ fds) e = close_all fds (close_connection fd e)

pub cleanup : ℕ → Engine → Engine
cleanup now e = close_all (idle e.idle_timeout now e.connections) e

-- What the loop of `Run` and the ticker do, one thing at a time.
pub data Event : Type 0 where
  accepts : List Accepted → Event
  ready : ℕ → ReadResult → Context → Event
  tick : Event

pub handle_event : ℕ → Event → Engine → Outcome
handle_event now (accepts as') e = ran (accept_connections now as' e) []
handle_event now (ready fd result pooled) e = handle_connection_event now pooled fd result e
handle_event now tick e = ran (cleanup now e) []
