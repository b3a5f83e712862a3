-- ===== src/WebSocket/Frame/RoundTrip.antt =====
-- core/websocket/conn.go: `readFrame` on the frames that a peer writes.
use Prim.Native.Nat.{bit_or, bit_xor}
use fast_server.Base.{
  Bytes, IsBytes, [], append_assoc, ap₂, arith, drop-append, false, get_or, get_or-IsByte,
  if◌then◌else◌, length, length-append, ltb, put_u16, put_u64, refl, some, suc, take-append, true,
  ℕ, ◌%◌, ◌++◌, ◌<◌, ◌^◌, ◌∷◌, ◌≡◌, ◌≤◌,
}
use fast_server.WebSocket.Frame.{
  Frame, first_byte, frame_bytes, got, header_frame, put_length, read_frame, read_length,
  read_masked, read_payload, read_sized, unmask,
}
use fast_server.WebSocket.Frame.Bits.{bit_xor_twice, code_bits, opcode_bits}

-- A frame that can be sent under a size limit.
pub record Fits (limit : ℕ) (f : Frame) : Type 0 where
  pub opcode : f.opcode < 16
  pub payload : IsBytes f.payload
  pub size : length f.payload ≤ limit
  pub int64 : length f.payload < 2 ^ 63

pub record IsKey (key : Bytes) : Type 0 where
  pub bytes : IsBytes key
  pub size : length key ≡ 4

abbrev mask_bit : Bytes → Bytes
mask_bit [] = []
mask_bit (b ∷ s) = bit_or b 0x80 ∷ s

-- The payload under the key, as RFC 6455 has it: the octet at position `i` is combined with the
-- octet of the key at position `i` modulo 4.
pub mask : Bytes → ℕ → Bytes → Bytes
mask key i [] = []
mask key i (b ∷ s) = bit_xor (get_or key (i % 4) 0) b ∷ mask key (suc i) s

-- A frame as RFC 6455 has a client write it: the mask bit, the key, and the payload under the key.
unfoldable pub client_frame : Bytes → Frame → Bytes
client_frame key f =
    first_byte f ∷ mask_bit (put_length (length f.payload)) ++ (key ++ mask key 0 f.payload)

pub length-unmask : (key : Bytes) (i : ℕ) (s : Bytes) → length (unmask key i s) ≡ length s
unfolding unmask
length-unmask key i [] = refl
length-unmask key i (b ∷ s) = omega (arith, length-unmask key (suc i) s)

length-mask : (key : Bytes) (i : ℕ) (s : Bytes) → length (mask key i s) ≡ length s
unfolding mask
length-mask key i [] = refl
length-mask key i (b ∷ s) = omega (arith, length-mask key (suc i) s)

unmask-mask :
    (key : Bytes) (i : ℕ) (s : Bytes) → IsBytes key → IsBytes s → unmask key i (mask key i s) ≡ s
unfolding unmask mask
unmask-mask key i [] k w = refl
unmask-mask key i (b ∷ s) k w =
    ap₂ ◌∷◌ (bit_xor_twice b (get_or key (i % 4) 0) w.0 (get_or-IsByte key (i % 4) k))
      (unmask-mask key (suc i) s k w.1)

-- The two parts of `put_length`: the code in the header byte, and the bytes behind it.
length_code : ℕ → ℕ
length_code n = if ltb n 126 then n else if ltb n 65536 then 126 else 127

length_rest : ℕ → Bytes
length_rest n = if ltb n 126 then [] else if ltb n 65536 then put_u16 n else put_u64 n

module _ (n : ℕ) (h : n < 2 ^ 63) where
  put_length_cons : put_length n ≡ length_code n ∷ length_rest n
  unfolding put_length length_code length_rest
  put_length_cons = ground arith

  length_code-lt : length_code n < 128
  unfolding length_code
  length_code-lt = ground arith

  read_length-code :
      (rest : Bytes) → read_length (length_code n) (length_rest n ++ rest) ≡ some (n, rest)
  unfolding read_length length_code length_rest
  read_length-code rest = ground arith

-- A payload that is there in full.
read_payload-append :
    (f : Frame) (key s rest : Bytes)
    → length s < 2 ^ 63
    → f.payload ≡ []
    → read_payload f (length s) key (s ++ rest)
      ≡ got (record f { payload = if f.masked then unmask key 0 s else s }) rest
unfolding read_payload
read_payload-append f key [] rest h e = unfold unmask in ground (arith, e)
read_payload-append f key (b ∷ s) rest h e = ground (
  arith,
  e,
  length-append (b ∷ s) rest,
  take-append (length (b ∷ s)) (b ∷ s) rest refl,
  drop-append (length (b ∷ s)) (b ∷ s) rest refl,
)

module _ (limit : ℕ) (f : Frame) (fits : Fits limit f) where
  header_frame-plain :
      (c : ℕ) → c < 128 → header_frame (first_byte f) c ≡ record f { masked = false; payload = [] }
  unfolding first_byte
  header_frame-plain c h = ground (arith, opcode_bits f.opcode fits.opcode, code_bits c h)

  header_frame-masked :
      (c : ℕ)
      → c < 128
      → header_frame (first_byte f) (bit_or c 0x80) ≡ record f { masked = true; payload = [] }
  unfolding first_byte
  header_frame-masked c h = ground (arith, opcode_bits f.opcode fits.opcode, code_bits c h)

  -- What `WriteFrame` writes of a frame is read back as the frame, unmasked, whatever follows it, if
  -- its opcode has 4 bits and its payload consists of bytes, keeps the limit and is shorter than
  -- 2 ^ 63.
  pub read_frame-frame_bytes :
      (rest : Bytes)
      → read_frame limit (frame_bytes f ++ rest) ≡ got (record f { masked = false }) rest
  unfolding read_frame frame_bytes read_sized read_masked
  read_frame-frame_bytes rest =
      let n = length f.payload in
      ground (
        arith,
        put_length_cons n fits.int64,
        append_assoc (length_rest n) f.payload rest,
        code_bits (length_code n) (length_code-lt n fits.int64),
        header_frame-plain (length_code n) (length_code-lt n fits.int64),
        read_length-code n fits.int64 (f.payload ++ rest),
        read_payload-append (record f { masked = false; payload = [] }) [] f.payload rest fits.int64
            refl,
      )

  -- A frame that a client sends under a 4-byte key comes out as it was before it was masked, whatever
  -- follows it, if its opcode has 4 bits and its payload consists of bytes, keeps the limit and is
  -- shorter than 2 ^ 63.
  pub read_frame-client_frame :
      (key rest : Bytes)
      → IsKey key
      → read_frame limit (client_frame key f ++ rest) ≡ got (record f { masked = true }) rest
  unfolding read_frame client_frame read_sized read_masked
  read_frame-client_frame key rest k =
      let n = length f.payload in
      ground (
        arith,
        put_length_cons n fits.int64,
        append_assoc (length_rest n) (key ++ mask key 0 f.payload) rest,
        append_assoc key (mask key 0 f.payload) rest,
        code_bits (length_code n) (length_code-lt n fits.int64),
        header_frame-masked (length_code n) (length_code-lt n fits.int64),
        read_length-code n fits.int64 (key ++ (mask key 0 f.payload ++ rest)),
        length-append key (mask key 0 f.payload ++ rest),
        take-append 4 key (mask key 0 f.payload ++ rest) k.size,
        drop-append 4 key (mask key 0 f.payload ++ rest) k.size,
        length-mask key 0 f.payload,
        unmask-mask key 0 f.payload k.bytes fits.payload,
        read_payload-append (record f { masked = true; payload = [] }) key (mask key 0 f.payload)
            rest (omega (arith, length-mask key 0 f.payload)) refl,
      )
