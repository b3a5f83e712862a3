-- ===== src/Rpc/Client.antt =====
-- core/rpc/client/client.go: the calls of a client, as they run beside each other. A step is what one
-- goroutine does between two points at which another can come in: `Go` has three, for the check of
-- `closed`, the entry in `pending` and the sending; `handleFrame` has two, for the call that it takes out of
-- `pending` and for the end of that call; `Close` has two, for the flag and for the calls that it fails. A call is known by a number. The codec, the JSON of the
-- metadata and the success of a write to the network are parameters.
pub mod Calls
pub mod Steps
mod Tests
use fast_server.Base.{
  Bool, Bytes, List, Option, [], delete, false, if◌then◌else◌, insert, lookup, none, some, true, ℕ,
  ◌%◌, ◌++◌, ◌+◌, ◌==◌, ◌^◌, ◌∷◌, nat_eq,
}
use fast_server.Rpc.Protocol.{Frame, encode, new_frame}

pub record Call (A : Type 0) : Type 0 where
  pub service : Bytes
  pub method : Bytes
  pub args : A

-- `Call.Error`
pub data CallError : Type 0 where
  client_closed encode_failed write_failed decode_failed : CallError
  remote : Bytes → CallError
  unexpected_type : ℕ → CallError

-- What a call holds when it is done: a reply, an error, or neither.
pub data Outcome (R : Type 0) : Type 0 where
  replied : R → Outcome R
  failed : CallError → Outcome R
  ponged : Outcome R

-- How far `Go` is with a call.
pub data Phase : Type 0 where
  new checked : Phase
  registered waiting : (request_id : ℕ) → Phase
  returned : Phase

-- `in_hand` is the call that `handleFrame` has taken, with the frame; only the read loop calls it.
-- `pending` maps request ids to calls; `done` is what the channel of a call took, its capacity one.
pub record Client (R : Type 0) : Type 0 where
  pub req_id : ℕ
  pub pending : List (ℕ × ℕ)
  pub closed : Bool
  pub drained : Bool
  pub sent : Bytes
  pub phase : ℕ → Phase
  pub done : ℕ → Option (Outcome R)
  pub in_hand : Option (ℕ × Frame)

abbrev pub type_request : ℕ
type_request = 1

abbrev pub type_response : ℕ
type_response = 2

abbrev pub type_error : ℕ
type_error = 6

abbrev pub type_pong : ℕ
type_pong = 8

-- `NewClient`
abbrev pub new_client : {R : Type 0} → Client R
new_client = record {
  req_id = 0;
  pending = [];
  closed = false;
  drained = false;
  sent = [];
  phase = λ k. new;
  done = λ k. none;
  in_hand = none;
}

abbrev pub put : {V : Type 0} → ℕ → V → (ℕ → V) → ℕ → V
put k v f j = if k == j then v else f j

-- The frame of a call.
abbrev pub request : {A : Type 0} → (Bytes → Bytes → Bytes) → Call A → ℕ → Bytes → Frame
request metadata call id payload = record (new_frame type_request id) {
  metadata = metadata call.service call.method;
  payload = payload;
}

module _ {R : Type 0} where
  -- `Call.done`: a channel that is full takes nothing.
  abbrev pub complete : ℕ → Outcome R → (ℕ → Option (Outcome R)) → ℕ → Option (Outcome R)
  complete k o f j = if k == j then (elim (f j) [ none ↦ some o | some p ↦ some p ]) else f j

  abbrev pub enter : ℕ → Phase → Client R → Client R
  enter k p c = record c { phase = put k p c.phase }

  abbrev pub finish : ℕ → Outcome R → Client R → Client R
  finish k o c = record c { done = complete k o c.done }

  -- `Go`, the check of `closed`.
  pub check : ℕ → Client R → Client R
  check k c = elim (c.phase k) [
    | new ↦
        if c.closed then enter k returned (finish k (failed client_closed) c) else enter k checked c
    | _ ↦ c
  ]

  -- `Go`, the request id and the entry in the table.
  unfoldable pub register : ℕ → Client R → Client R
  register k c = elim (c.phase k) [
    | checked ↦
        let id = (c.req_id + 1) % 2 ^ 32 in
        record (enter k (registered id) c) { req_id = id; pending = insert id k c.pending }
    | _ ↦ c
  ]

  -- `Go`, when the call cannot be sent.
  abbrev pub give_up : ℕ → ℕ → CallError → Client R → Client R
  give_up k id e c = record (enter k returned (finish k (failed e) c)) {
    pending = delete id c.pending;
  }

  -- `Close`, the flag.
  unfoldable pub close : Client R → Client R
  close c = record c { closed = true }

  pub fail_all : List (ℕ × ℕ) → (ℕ → Option (Outcome R)) → ℕ → Option (Outcome R)
  fail_all [] f = f
  fail_all ((id, k) ∷ m) f = fail_all m (complete k (failed client_closed) f)

  -- `Close`, the calls that are pending.
  pub drain : Client R → Client R
  unfolding fail_all
  drain c =
      if c.closed
      then record c { drained = true; pending = []; done = fail_all c.pending c.done }
      else c

  module _ {A : Type 0} (calls : ℕ → Call A) (metadata : Bytes → Bytes → Bytes)
      (encode_args : A → Option Bytes) where
    -- `send`
    abbrev pub send : Bool → ℕ → ℕ → Bytes → Client R → Client R
    send writes k id payload c =
        if c.closed
        then give_up k id client_closed c
        else if writes
        then enter k (waiting id)
            (record c { sent = c.sent ++ encode (request metadata (calls k) id payload) })
        else give_up k id write_failed c

    -- `Go`, the encoding and the sending; `writes` tells whether the network takes the bytes.
    pub transmit : Bool → ℕ → Client R → Client R
    transmit writes k c = elim (c.phase k) [
      | registered id ↦ elim (encode_args (calls k).args) [
        | none ↦ give_up k id encode_failed c
        | some payload ↦ send writes k id payload c
      ]
      | _ ↦ c
    ]

  module _ (decode_reply : Bytes → Option R) where
    -- The switch on the type of a frame.
    pub outcome : Frame → Outcome R
    outcome f =
        if f.kind == type_response
        then (elim (decode_reply f.payload) [ some r ↦ replied r | none ↦ failed decode_failed ])
        else if f.kind == type_error
        then failed (remote f.payload)
        else if f.kind == type_pong
        then ponged
        else failed (unexpected_type f.kind)

    -- `handleFrame`, the call that waits for the frame.
    pub take_call : Frame → Client R → Client R
    take_call f c = elim c.in_hand [
      | some taken ↦ c
      | none ↦ elim (lookup f.request_id c.pending) [
        | none ↦ c
        | some k ↦ record c { pending = delete f.request_id c.pending; in_hand = some (k, f) }
      ]
    ]

    -- `handleFrame`, the end of that call.
    pub end_call : Client R → Client R
    unfolding outcome
    end_call c = elim c.in_hand [
      | none ↦ c
      | some (k, f) ↦ finish k (outcome f) (record c { in_hand = none })
    ]

    -- `handleFrame`, where nothing comes between.
    pub handle_frame : Frame → Client R → Client R
    unfolding take_call end_call
    handle_frame f c = end_call (take_call f c)
