-- ===== src/Rpc/Server.antt =====
-- core/rpc/server/server.go: what the server writes for the frames of one connection. The codec, the
-- JSON of the metadata, reflection on arguments and the texts of errors are parameters; a write to
-- the network succeeds.
pub mod Answers
pub mod Connections
mod Tests
use fast_server.Base.{
  Bytes, List, Option, [], if◌then◌else◌, inl, inr, none, some, ℕ, ◌==◌, ◌∷◌, ◌⊎◌, bytes_key,
}
use fast_server.Rpc.Protocol.{Frame, new_frame}
use fast_server.Rpc.Protocol.Stream.{concat, handle_conn}
use fast_server.Rpc.Registry.{CallError, LookupError, Method, Registry, Service, call, get_method}

pub data ServerError : Type 0 where
  invalid_metadata decode_arg_failed encode_reply_failed : ServerError
  no_method : LookupError → ServerError
  call_failed : CallError → ServerError

pub record Codec (V : Type 0) : Type 0 where
  -- the service and the method
  pub parse_metadata : Bytes → Option (Bytes × Bytes)
  -- a new value of a type, decoded into
  pub decode_arg : ℕ → Bytes → Option V
  pub encode_reply : V → Option Bytes
  pub elem_type : V → Option ℕ
  pub text : ServerError → Bytes

abbrev pub type_request : ℕ
type_request = 1

abbrev pub type_response : ℕ
type_response = 2

abbrev pub type_error : ℕ
type_error = 6

abbrev pub type_ping : ℕ
type_ping = 7

abbrev pub type_pong : ℕ
type_pong = 8

module _ {V : Type 0} (codec : Codec V) where
  -- `sendError`
  abbrev pub error_frame : ℕ → ServerError → Frame
  error_frame id e = record (new_frame type_error id) { payload = codec.text e }

  abbrev pub response_frame : ℕ → Option Bytes → Frame
  response_frame id none = error_frame id encode_reply_failed
  response_frame id (some data') = record (new_frame type_response id) { payload = data' }

  -- From the call to the response.
  abbrev pub finish : ℕ → CallError ⊎ V → Frame
  finish id (inl e) = error_frame id (call_failed e)
  finish id (inr reply) = response_frame id (codec.encode_reply reply)

  -- From the method that was found on.
  abbrev pub call_method : Registry V → ℕ → Bytes → Service V → Method V → Frame
  call_method r id payload s m = elim (codec.decode_arg m.arg_type payload) [
    | none ↦ error_frame id decode_arg_failed
    | some arg ↦ finish id (call codec.elem_type s.name m.name arg r)
  ]

  -- `handleRequest`: the frame that it writes.
  pub handle_request : Registry V → Frame → Frame
  handle_request r f = elim (codec.parse_metadata f.metadata) [
    | none ↦ error_frame f.request_id invalid_metadata
    | some (service, method) ↦ elim (get_method service method r) [
      | inl e ↦ error_frame f.request_id (no_method e)
      | inr (s, m) ↦ call_method r f.request_id f.payload s m
    ]
  ]

  -- `handlePing`
  pub handle_ping : Frame → Frame
  handle_ping f = new_frame type_pong f.request_id

  -- The switch of `handleConn`.
  pub answer : Registry V → Frame → Option Frame
  answer r f =
      if f.kind == type_request
      then some (handle_request r f)
      else if f.kind == type_ping
      then some (handle_ping f)
      else none

  -- Everything that is written for some frames.
  pub answers : Registry V → List Frame → List Frame
  answers r [] = []
  answers r (f ∷ fs) = elim (answer r f) [ none ↦ answers r fs | some a ↦ a ∷ answers r fs ]

  -- `handleConn`: from what the peer sends until it closes to what is written to it.
  pub serve : Registry V → Bytes → Bytes
  serve r s = concat (answers r (handle_conn s).0)
