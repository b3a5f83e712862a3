-- ===== src/Rpc/Protocol/Tests.antt =====
-- core/rpc/protocol/frame.go: frames on which the theorems about the protocol are run.
use fast_server.Base.{
  Bytes, IsBytes, [], arith, codes, false, refl, some, suc, take, true, zero, ℕ, ◌++◌, ◌∷◌, ◌≡◌,
}
use fast_server.Rpc.Protocol.{Frame, decode, encode, has_flag, header, new_frame, ok, set_flag}
use fast_server.Rpc.Protocol.Wire.{Fits}
use fast_server.Rpc.Protocol.RoundTrip.{decode-encode}
use fast_server.Rpc.Protocol.Stream.{concat, handle_conn, handle_conn-concat, receive, short}

-- A request for "a.b" with a payload of three bytes.
abbrev call : Frame
call = record (new_frame 0 7) { metadata = codes "a.b"; payload = 1 ∷ 2 ∷ 3 ∷ [] }

call-Fits : Fits call
unfolding new_frame
call-Fits = record {
  magic = refl;
  version = refl;
  request_id = omega arith;
  metadata = omega arith;
  payload = omega arith;
}

encode_test :
    encode call
    ≡ 0x52 ∷ 0x50 ∷ 0x43 ∷ 0 ∷ 1 ∷ 0 ∷ 0 ∷ 0 ∷ 0 ∷ 0 ∷ 0 ∷ 7 ∷ 0 ∷ 3 ∷ 0 ∷ 3 ∷ 97 ∷ 46 ∷ 98 ∷ 1 ∷ 2
      ∷ 3 ∷ []
unfolding encode new_frame header
encode_test = refl

flag_test : (has_flag (set_flag call 2) 2 ≡ true) × (has_flag (set_flag call 2) 1 ≡ false)
unfolding has_flag set_flag new_frame
flag_test = (refl, refl)

decode-encode_example : decode (encode call ++ (9 ∷ [])) ≡ ok call
decode-encode_example = decode-encode call (9 ∷ []) call-Fits

-- `n` bytes.
abbrev zeros : ℕ → Bytes
zeros zero = []
zeros (suc n) = 0 ∷ zeros n

-- What stands in the buffer of `call`, cut after its header.
abbrev cut_off : Bytes
cut_off = take 16 (encode call)

call-IsBytes : IsBytes (encode call ++ (9 ∷ []))
unfolding encode new_frame header
call-IsBytes = omega arith

handle_conn-concat_example :
    (handle_conn (concat (call ∷ call ∷ []) ++ (9 ∷ []))
      ≡ (call ∷ call ∷ [], some (short (9 ∷ []))))
    × (receive (concat (call ∷ call ∷ []) ++ (9 ∷ [])) ≡ (call ∷ call ∷ [], some (short (9 ∷ []))))
handle_conn-concat_example =
    handle_conn-concat (call ∷ call ∷ []) (9 ∷ []) (call-Fits, (call-Fits, tt)) (omega arith)
