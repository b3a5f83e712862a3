-- ===== src/Rpc/Client/Tests.antt =====
-- core/rpc/client/client.go: a run of two calls.
use fast_server.Base.{
  Bytes, [], arith, codes, inr, none, refl, some, true, ℕ, ◌++◌, ◌∷◌, ◌≡◌, ◌≢◌, nat_eq,
}
use fast_server.Rpc.Protocol.{Frame, new_frame}
use fast_server.Rpc.Client.{
  Call, Client, check, close, drain, handle_frame, new_client, outcome, register, transmit,
  type_response, waiting,
}
use fast_server.Rpc.Client.Steps.{
  Reach, checks, closes, drained-done, drains, handle_frame-waiting, registers, start, step,
  transmits,
}

abbrev calls : ℕ → Call Bytes
calls k = record { service = codes "s"; method = codes "m"; args = k ∷ [] }

abbrev metadata : Bytes → Bytes → Bytes
metadata service method = service ++ (b'.' ∷ method)

-- Call 0 is sent.
abbrev sent_one : Client Bytes
sent_one = transmit calls metadata some true 0 (register 0 (check 0 new_client))

sent_one-Reach : Reach calls metadata some some sent_one
unfolding check
sent_one-Reach = step (step (step start (checks 0)) (registers 0 (omega arith))) (transmits true 0)

sent_one_waits : (sent_one.phase 0 ≡ waiting 1) × (sent_one.done 0 ≡ none)
unfolding transmit register check
sent_one_waits = (refl, refl)

-- The answer to it.
abbrev answer : Frame
answer = record (new_frame type_response 1) { payload = codes "ok" }

handle_frame-waiting_example :
    ((handle_frame some answer sent_one).done 0 ≡ some (outcome some answer))
    × ((handle_frame some answer sent_one).done 5 ≡ sent_one.done 5)
handle_frame-waiting_example =
    handle_frame-waiting calls metadata some some sent_one 0 5 1 answer sent_one-Reach
      sent_one_waits.0 sent_one_waits.1 (unfold new_frame in refl)
      (unfold transmit register check in refl) (omega arith)

drained-done_example : (drain (close sent_one)).done 0 ≢ none
drained-done_example =
    drained-done calls metadata some some (drain (close sent_one)) 0
      (step (step sent_one-Reach closes) drains) (unfold drain close in refl)
      (unfold drain close transmit register check in refl)
      (inr (1, unfold drain close transmit register check in refl))

-- Call 1 follows.
abbrev sent_two : Client Bytes
sent_two = transmit calls metadata some true 1 (register 1 (check 1 sent_one))

sent_two-Reach : Reach calls metadata some some sent_two
unfolding transmit register check
sent_two-Reach =
    step (step (step sent_one-Reach (checks 1)) (registers 1 (omega arith))) (transmits true 1)

sent_two_waits : (sent_two.phase 0 ≡ waiting 1) × (sent_two.phase 1 ≡ waiting 2)
unfolding transmit register check
sent_two_waits = (refl, refl)
