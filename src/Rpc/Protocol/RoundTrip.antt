-- ===== src/Rpc/Protocol/RoundTrip.antt =====
-- core/rpc/protocol/frame.go: `Decode` after `Encode`, with whatever follows in the buffer.
use fast_server.Base.{
  ℕ, ◌+◌, ◌%◌, ◌^◌, ◌<◌, ◌≤◌, ◌≡◌, refl, [], ◌++◌, Bytes, length, length-append, arith,
  append_assoc, take, drop, take-append, drop-append, drop-drop, take-append_le, take-length,
}
use fast_server.Rpc.Protocol.{
  Frame, ok, magic_number, protocol_version, header, encode, header_size, decode, decode_header,
  body,
}
use fast_server.Rpc.Protocol.Wire.{Fits, u16_at-header_meta, u16_at-header_payload}

-- What the header says of the two lengths.
abbrev pub meta_len : Frame → ℕ
meta_len f = length f.metadata % 2 ^ 16

abbrev pub payload_len : Frame → ℕ
payload_len f = length f.payload % 2 ^ 16

module _ (f : Frame) (b : Bytes) where
  length-header_append : length (header f ++ b) ≡ header_size + length b
  unfolding header
  length-header_append = omega arith

  drop-header : drop header_size (header f ++ b) ≡ b
  unfolding header
  drop-header = refl

  pub decode_header-header :
      f.magic ≡ magic_number
      → f.version ≡ protocol_version
      → f.request_id < 2 ^ 32
      → decode_header (header f ++ b) ≡ ok (record f { metadata = []; payload = [] })
  unfolding decode_header header
  decode_header-header hm hv hid = ground arith

  body-header :
      (g : Frame)
      → meta_len f + payload_len f ≤ length b
      → body (header f ++ b) g
        ≡ ok (record g {
          metadata = take (meta_len f) b;
          payload = take (payload_len f) (drop (meta_len f) b);
        })
  body-header g room =
      rw (u16_at-header_meta f b, u16_at-header_payload f b, length-header_append)
        (ground (arith, drop-header, drop-drop header_size (meta_len f) (header f ++ b)))

  -- Decoding a header of this protocol in front of any bytes: the lengths decide what is taken.
  pub decode-header :
      f.magic ≡ magic_number
      → f.version ≡ protocol_version
      → f.request_id < 2 ^ 32
      → meta_len f + payload_len f ≤ length b
      → decode (header f ++ b)
        ≡ ok (record f {
          metadata = take (meta_len f) b;
          payload = take (payload_len f) (drop (meta_len f) b);
        })
  unfolding decode
  decode-header hm hv hid room = ground (
    arith,
    length-header_append,
    decode_header-header hm hv hid,
    body-header (record f { metadata = []; payload = [] }) room,
  )

-- The bytes of a frame, regrouped as its header and what follows it.
pub encode_append :
    (f : Frame) (rest : Bytes) → encode f ++ rest ≡ header f ++ (f.metadata ++ (f.payload ++ rest))
unfolding encode
encode_append f rest = simp append_assoc

-- A payload of any length, in a frame of this protocol with a 32-bit request id and less than 2 ^ 16
-- bytes of metadata: `Encode` writes all of it, and `Decode` returns its first `length % 2 ^ 16`
-- bytes, without an error.
pub decode-encode_cut :
    (f : Frame) (rest : Bytes)
    → f.magic ≡ magic_number
    → f.version ≡ protocol_version
    → f.request_id < 2 ^ 32
    → length f.metadata < 2 ^ 16
    → decode (encode f ++ rest) ≡ ok (record f { payload = take (payload_len f) f.payload })
decode-encode_cut f rest hm hv hid short = ground (
  arith,
  encode_append f rest,
  decode-header f (f.metadata ++ (f.payload ++ rest)) hm hv hid,
  length-append f.metadata (f.payload ++ rest),
  length-append f.payload rest,
  take-append (meta_len f) f.metadata (f.payload ++ rest),
  drop-append (meta_len f) f.metadata (f.payload ++ rest),
  take-append_le (payload_len f) f.payload rest,
)

-- Decoding an encoded frame gives it back, whatever follows it in the buffer, if it has the magic
-- number and version of the protocol, a 32-bit request id, and less than 2 ^ 16 bytes of metadata and
-- of payload.
pub decode-encode : (f : Frame) (rest : Bytes) → Fits f → decode (encode f ++ rest) ≡ ok f
decode-encode f rest fits = ground (
  arith,
  decode-encode_cut f rest fits.magic fits.version fits.request_id fits.metadata,
  take-length f.payload,
)
