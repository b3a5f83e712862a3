-- ===== src/Rpc/Client/Calls.antt =====
-- core/rpc/client/client.go: every order in which the steps of the calls can come.
use fast_server.Base.{
  Bool, Bytes, List, Option, Option-cases, [], arith, false, if◌then◌else◌, inl, inr, lookup,
  lookup-delete, lookup-insert, none, refl, some, true, ℕ, ◌++◌, ◌+◌, ◌<◌, ◌==◌, ◌^◌, ◌∷◌, ◌≡◌, ◌≢◌,
  ◌≤◌, ◌⊎◌, nat_eq,
}
use fast_server.Rpc.Protocol.{Frame, encode}
use fast_server.Rpc.Client.{
  Call, CallError, Client, Outcome, Phase, check, client_closed, close, complete, drain,
  encode_failed, enter, fail_all, failed, give_up, take_call, end_call, new_client, register,
  registered, request, returned, send, transmit, waiting, write_failed,
}

abbrev pub id_of : Phase → Option ℕ
id_of (registered id) = some id
id_of (waiting id) = some id
id_of _ = none

abbrev registered_id : Phase → Option ℕ
registered_id (registered id) = some id
registered_id _ = none

-- Whether `handleFrame` has call `k` in hand.
abbrev pub is_held : ℕ → Option (ℕ × Frame) → Bool
is_held k none = false
is_held k (some (j, f)) = j == k

module _ {R : Type 0} where
  pub record Valid (c : Client R) : Type 0 where
    pub fresh : (k id : ℕ) → id_of (c.phase k) ≡ some id → id ≤ c.req_id
    pub apart : (j k id : ℕ) → id_of (c.phase j) ≡ some id → id_of (c.phase k) ≡ some id → j ≡ k
    -- a call with an id is in the table under it, or it is done, or in hand
    pub held :
        (k id : ℕ)
        → id_of (c.phase k) ≡ some id
        → (lookup id c.pending ≡ some k) ⊎ ((c.done k ≢ none) ⊎ (is_held k c.in_hand ≡ true))
    pub ended : (k : ℕ) → c.phase k ≡ returned → c.done k ≢ none
    pub closed_first : c.drained ≡ true → c.closed ≡ true
    pub failed_all :
        (k id : ℕ)
        → c.drained ≡ true
        → c.phase k ≡ waiting id
        → (c.done k ≢ none) ⊎ (is_held k c.in_hand ≡ true)

  pub new_client-Valid : Valid (new_client {R = R})
  new_client-Valid = record {
    fresh = λ k id e. ground arith;
    apart = λ j k id e f. ground arith;
    held = λ k id e. ground arith;
    ended = λ k e. ground arith;
    closed_first = λ e. ground arith;
    failed_all = λ k id d e. ground arith;
  }

  pub check-Valid : (k : ℕ) (c : Client R) → Valid c → Valid (check k c)
  unfolding check
  check-Valid k c v = record {
    fresh = λ j id e. ground (arith, v.fresh j id);
    apart = λ i j id e f. ground (arith, v.apart i j id);
    held = λ j id e. ground (arith, v.held j id);
    ended = λ j e. ground (arith, v.ended j);
    closed_first = λ e. ground (arith, v.closed_first);
    failed_all = λ j id d e. ground (arith, v.failed_all j id);
  }

  pub register-Valid :
      (k : ℕ) (c : Client R) → c.req_id + 1 < 2 ^ 32 → Valid c → Valid (register k c)
  unfolding register
  register-Valid k c h v = record {
    fresh = λ j id e. ground (arith, v.fresh j id);
    apart = λ i j id e f. ground (arith, v.apart i j id, v.fresh i id, v.fresh j id);
    held = λ j id e.
        ground (arith, v.held j id, v.fresh j id, lookup-insert (c.req_id + 1) id k c.pending);
    ended = λ j e. ground (arith, v.ended j);
    closed_first = λ e. ground (arith, v.closed_first);
    failed_all = λ j id d e. ground (arith, v.failed_all j id);
  }

  give_up-Valid :
      (k id : ℕ) (e : CallError) (c : Client R)
      → c.phase k ≡ registered id
      → Valid c
      → Valid (give_up k id e c)
  give_up-Valid k id why c p v = record {
    fresh = λ j i e. ground (arith, v.fresh j i);
    apart = λ i j l e f. ground (arith, v.apart i j l);
    held = λ j i e. ground (arith, v.held j i, v.apart j k i, p, lookup-delete id i c.pending);
    ended = λ j e. ground (arith, v.ended j);
    closed_first = λ e. ground (arith, v.closed_first);
    failed_all = λ j i d e. ground (arith, v.failed_all j i);
  }

  -- Calls that were done stay so, and `Close` leaves no call of the table undone.
  pub fail_all_done :
      (m : List (ℕ × ℕ)) (f : ℕ → Option (Outcome R)) (k : ℕ) (o : Outcome R)
      → f k ≡ some o
      → fail_all m f k ≡ some o
  unfolding fail_all
  fail_all_done [] f k o e = e
  fail_all_done ((id, j) ∷ m) f k o e =
      fail_all_done m (complete j (failed client_closed) f) k o (ground (arith, e))

  fail_all_pending :
      (m : List (ℕ × ℕ)) (f : ℕ → Option (Outcome R)) (id k : ℕ)
      → (lookup id m ≡ some k) ⊎ (f k ≢ none)
      → fail_all m f k ≢ none
  unfolding fail_all lookup
  fail_all_pending [] f id k h = ground arith
  fail_all_pending ((i, j) ∷ m) f id k h =
      fail_all_pending m (complete j (failed client_closed) f) id k (ground arith)

  pub drain-Valid : (c : Client R) → Valid c → Valid (drain c)
  unfolding drain lookup
  drain-Valid c v = record {
    fresh = λ j i e. ground (arith, v.fresh j i);
    apart = λ i j l e f. ground (arith, v.apart i j l);
    held = λ j i e. ground (arith, v.held j i, fail_all_pending c.pending c.done i j);
    ended = λ j e. ground (arith, v.ended j, fail_all_pending c.pending c.done 0 j);
    closed_first = λ e. ground (arith, v.closed_first);
    failed_all = λ j i d e.
        ground (arith, v.failed_all j i, v.held j i, fail_all_pending c.pending c.done i j);
  }

  pub close-Valid : (c : Client R) → Valid c → Valid (close c)
  unfolding close
  close-Valid c v = record {
    fresh = v.fresh;
    apart = v.apart;
    held = v.held;
    ended = v.ended;
    closed_first = λ e. refl;
    failed_all = v.failed_all;
  }

  if-Valid :
      (b : Bool) (c d : Client R)
      → (b ≡ true → Valid c)
      → (b ≡ false → Valid d)
      → Valid (if b then c else d)
  if-Valid true c d v w = v refl
  if-Valid false c d v w = w refl

  sent-Valid :
      (k id : ℕ) (s : Bytes) (c : Client R)
      → c.phase k ≡ registered id
      → c.closed ≡ false
      → Valid c
      → Valid (enter k (waiting id) (record c { sent = s }))
  sent-Valid k id s c p open' v = record {
    fresh = λ j i e. ground (arith, v.fresh j i, v.fresh k id);
    apart = λ i j l e f. ground (arith, p, v.apart i j l);
    held = λ j i e. ground (arith, p, v.held j i);
    ended = λ j e. ground (arith, v.ended j);
    closed_first = λ e. ground (arith, v.closed_first);
    failed_all = λ j i d e. ground (arith, open', v.closed_first, v.failed_all j i);
  }

  module _ {A : Type 0} (calls : ℕ → Call A) (metadata : Bytes → Bytes → Bytes)
      (encode_args : A → Option Bytes) where
    send-Valid :
        (writes : Bool) (k id : ℕ) (payload : Bytes) (c : Client R)
        → c.phase k ≡ registered id
        → Valid c
        → Valid (send calls metadata encode_args writes k id payload c)
    send-Valid writes k id payload c p v =
        if-Valid c.closed _ _ (λ shut. give_up-Valid k id client_closed c p v)
          (λ open'.
            if-Valid writes _ _
              (λ w.
                sent-Valid k id (c.sent ++ encode (request metadata (calls k) id payload)) c p open'
                  v)
              (λ w. give_up-Valid k id write_failed c p v))

    transmit-idle :
        (writes : Bool) (k : ℕ) (c : Client R)
        → registered_id (c.phase k) ≡ none
        → transmit calls metadata encode_args writes k c ≡ c
    unfolding transmit
    transmit-idle writes k c h = ground arith

    transmit-registered :
        (writes : Bool) (k id : ℕ) (c : Client R)
        → c.phase k ≡ registered id
        → transmit calls metadata encode_args writes k c ≡ elim (encode_args (calls k).args) [
          | none ↦ give_up k id encode_failed c
          | some payload ↦ send calls metadata encode_args writes k id payload c
        ]
    unfolding transmit
    transmit-registered writes k id c e = ground (arith, e)

    pub transmit-Valid :
        (writes : Bool) (k : ℕ) (c : Client R)
        → Valid c
        → Valid (transmit calls metadata encode_args writes k c)
    transmit-Valid writes k c v = elim (Option-cases (registered_id (c.phase k))) [
      | inr (id, found) ↦
          let e : c.phase k ≡ registered id = ground arith in
          rw (transmit-registered writes k id c e)
            (elim (Option-cases (encode_args (calls k).args)) [
              | inl fails ↦ rw fails (give_up-Valid k id encode_failed c e v)
              | inr (payload, encodes) ↦ rw encodes (send-Valid writes k id payload c e v)
            ])
      | inl h ↦ rw (transmit-idle writes k c h) v
    ]

  pub take_call-Valid :
      (decode_reply : Bytes → Option R) (f : Frame) (c : Client R)
      → Valid c
      → Valid (take_call decode_reply f c)
  unfolding take_call
  take_call-Valid decode_reply f c v = record {
    fresh = λ j i e. ground (arith, v.fresh j i);
    apart = λ i j l e f. ground (arith, v.apart i j l);
    held = λ j i e. ground (arith, v.held j i, lookup-delete f.request_id i c.pending);
    ended = λ j e. ground (arith, v.ended j);
    closed_first = λ e. ground (arith, v.closed_first);
    failed_all = λ j i d e. ground (arith, v.failed_all j i);
  }

  pub end_call-Valid :
      (decode_reply : Bytes → Option R) (c : Client R) → Valid c → Valid (end_call decode_reply c)
  unfolding end_call
  end_call-Valid decode_reply c v = record {
    fresh = λ j i e. ground (arith, v.fresh j i);
    apart = λ i j l e f. ground (arith, v.apart i j l);
    held = λ j i e. ground (arith, v.held j i);
    ended = λ j e. ground (arith, v.ended j);
    closed_first = λ e. ground (arith, v.closed_first);
    failed_all = λ j i d e. ground (arith, v.failed_all j i);
  }
