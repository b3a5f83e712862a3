-- ===== src/Rpc/Client/Steps.antt =====
-- core/rpc/client/client.go: what holds of a client after any steps, in any order.
use fast_server.Base.{
  Bool, Bytes, Option, arith, inl, inr, none, some, true, ℕ, ◌+◌, ◌<◌, ◌^◌, ◌≡◌, ◌≢◌, ◌⊎◌, nat_eq,
}
use fast_server.Rpc.Protocol.{Frame}
use fast_server.Rpc.Client.{
  Call, Client, Outcome, check, close, drain, take_call, end_call, handle_frame, new_client,
  outcome, register, returned, transmit, waiting,
}
use fast_server.Rpc.Client.Calls.{
  Valid, check-Valid, close-Valid, drain-Valid, fail_all_done, take_call-Valid, end_call-Valid,
  new_client-Valid, register-Valid, transmit-Valid,
}

module _ {A R : Type 0} (calls : ℕ → Call A) (metadata : Bytes → Bytes → Bytes)
    (encode_args : A → Option Bytes) (decode_reply : Bytes → Option R) where
  -- One step of any goroutine. Request ids are not used up: there are less than 2 ^ 32 calls.
  pub data Step (c : Client R) : Client R → Type 0 where
    checks : (k : ℕ) → Step c (check k c)
    registers : (k : ℕ) → c.req_id + 1 < 2 ^ 32 → Step c (register k c)
    transmits : (writes : Bool) (k : ℕ) → Step c (transmit calls metadata encode_args writes k c)
    takes : (f : Frame) → Step c (take_call decode_reply f c)
    ends : Step c (end_call decode_reply c)
    closes : Step c (close c)
    drains : Step c (drain c)

  pub data Reach : Client R → Type 0 where
    start : Reach new_client
    step : {c d : Client R} → Reach c → Step c d → Reach d

  Step-Valid : {c d : Client R} → Step c d → Valid c → Valid d
  Step-Valid {c = c} (checks k) v = check-Valid k c v
  Step-Valid {c = c} (registers k h) v = register-Valid k c h v
  Step-Valid {c = c} (transmits writes k) v = transmit-Valid calls metadata encode_args writes k c v
  Step-Valid {c = c} (takes f) v = take_call-Valid decode_reply f c v
  Step-Valid {c = c} ends v = end_call-Valid decode_reply c v
  Step-Valid {c = c} closes v = close-Valid c v
  Step-Valid {c = c} drains v = drain-Valid c v

  Reach-Valid : {c : Client R} → Reach c → Valid c
  Reach-Valid start = new_client-Valid
  Reach-Valid (step r s) = Step-Valid s (Reach-Valid r)

  -- While a call waits and is not done, and the read loop is between two frames, a frame that bears its request id completes that call with
  -- what the frame says, and no other call, whatever steps came before, as long as they used less
  -- than 2 ^ 32 request ids.
  pub handle_frame-waiting :
      (c : Client R) (k j id : ℕ) (f : Frame)
      → Reach c
      → c.phase k ≡ waiting id
      → c.done k ≡ none
      → f.request_id ≡ id
      → c.in_hand ≡ none
      → j ≢ k
      → ((handle_frame decode_reply f c).done k ≡ some (outcome decode_reply f))
        × ((handle_frame decode_reply f c).done j ≡ c.done j)
  unfolding handle_frame take_call end_call
  handle_frame-waiting c k j id f r waits open' same idle other =
      ground (arith, waits, open', same, idle, other, (Reach-Valid r).held k id)

  -- No call is lost, as long as less than 2 ^ 32 request ids are used: once `Close` has run, and
  -- the read loop has no call in hand, every call that `Go` is through with is done, whether it was sent
  -- before, found the client closed, or was caught between the two.
  pub drained-done :
      (c : Client R) (k : ℕ)
      → Reach c
      → c.drained ≡ true
      → c.in_hand ≡ none
      → (c.phase k ≡ returned) ⊎ ((id : ℕ) × (c.phase k ≡ waiting id))
      → c.done k ≢ none
  drained-done c k r d idle (inl e) = (Reach-Valid r).ended k e
  drained-done c k r d idle (inr (id, e)) =
      ground (arith, idle, (Reach-Valid r).failed_all k id d e)

  -- A call is done once: no step changes what it holds.
  pub Step-done :
      (c d : Client R) (k : ℕ) (o : Outcome R) → Step c d → c.done k ≡ some o → d.done k ≡ some o
  Step-done c _ k o (checks j) e = unfold check in ground (arith, e)
  Step-done c _ k o (registers j h) e = unfold register in ground (arith, e)
  Step-done c _ k o (transmits writes j) e = unfold transmit in ground (arith, e)
  Step-done c _ k o (takes f) e = unfold take_call in ground (arith, e)
  Step-done c _ k o ends e = unfold end_call in ground (arith, e)
  Step-done c _ k o closes e = unfold close in e
  Step-done c _ k o drains e = unfold drain in ground (arith, fail_all_done c.pending c.done k o e)

  -- Two calls that wait for their answers never share a request id, as long as less than 2 ^ 32
  -- request ids are used.
  pub waiting-apart :
      (c : Client R) (j k a b : ℕ)
      → Reach c
      → j ≢ k
      → c.phase j ≡ waiting a
      → c.phase k ≡ waiting b
      → a ≢ b
  waiting-apart c j k a b r other e f = ground (arith, other, e, f, (Reach-Valid r).apart j k a)
