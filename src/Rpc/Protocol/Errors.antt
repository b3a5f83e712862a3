-- ===== src/Rpc/Protocol/Errors.antt =====
-- core/rpc/protocol/frame.go: which buffers `Decode` accepts, and what it read.
use fast_server.Base.{
  ℕ, ◌+◌, ◌^◌, ◌<◌, ◌≤◌, ◌≡◌, ◌↔◌, ◌∷◌, ◌++◌, Bytes, IsBytes, length, arith, u16_at, u32_at, get_or,
  take, drop, take-append-drop, length-take, length-drop, drop-drop, get_or-IsByte, sym, put_u16,
  put_u32,
}
use fast_server.Rpc.Protocol.Wire.{length-encode}
use fast_server.Rpc.Protocol.RoundTrip.{encode_append}
use fast_server.Rpc.Protocol.{
  Frame, ok, magic_number, protocol_version, header, encode, header_size, decode, get_frame_size,
  header_fields,
}

-- What `Decode` checks, in its order.
pub record Accepts (buf : Bytes) : Type 0 where
  pub has_header : header_size ≤ length buf
  pub magic : u32_at buf 0 ≡ magic_number
  pub version : get_or buf 4 0 ≡ protocol_version
  pub has_body : header_size + u16_at buf 12 + u16_at buf 14 ≤ length buf

Accepts-decode : (buf : Bytes) (f : Frame) → decode buf ≡ ok f → Accepts buf
unfolding decode
Accepts-decode buf f h = ground arith

decode_Accepts : (buf : Bytes) → Accepts buf → (f : Frame) × (decode buf ≡ ok f)
unfolding decode
decode_Accepts buf a = (
  record (header_fields buf) {
    metadata = take (u16_at buf 12) (drop header_size buf);
    payload = take (u16_at buf 14) (drop (header_size + u16_at buf 12) buf);
  },
  ground arith,
)

-- `Decode` returns a frame exactly for the buffers that hold a header of this protocol and as many
-- bytes as the header announces.
pub decode-ok_iff : (buf : Bytes) → ((f : Frame) × (decode buf ≡ ok f)) ↔ Accepts buf
decode-ok_iff buf = (λ e. Accepts-decode buf e.0 e.1, decode_Accepts buf)

-- A buffer of at least 16 bytes, in the form in which `encode` writes a header.
header_bytes :
    (buf : Bytes)
    → header_size ≤ length buf
    → IsBytes buf
    → buf
      ≡ put_u32 (u32_at buf 0)
        ++ (get_or buf 4 0
              ∷ get_or buf 5 0
              ∷ get_or buf 6 0
              ∷ get_or buf 7 0
              ∷ put_u32 (u32_at buf 8)
            ++ (put_u16 (u16_at buf 12) ++ (put_u16 (u16_at buf 14) ++ drop header_size buf)))
header_bytes (a ∷ b ∷ c ∷ d ∷ e ∷ f ∷ g ∷ h ∷ i ∷ j ∷ k ∷ l ∷ m ∷ n ∷ o ∷ p ∷ rest) q w =
    ground arith
header_bytes _ q w = absurd (omega arith)

u16_at-lt : (buf : Bytes) (i : ℕ) → IsBytes buf → u16_at buf i < 2 ^ 16
u16_at-lt buf i w = omega (arith, get_or-IsByte buf i w, get_or-IsByte buf (i + 1) w)

-- The buffer behind its header, split after `m` and after `p` more bytes.
split_body :
    (m p : ℕ) (buf : Bytes)
    → drop header_size buf
      ≡ take m (drop header_size buf)
        ++ (take p (drop (header_size + m) buf) ++ drop (header_size + m + p) buf)
split_body m p buf =
    rw (← drop-drop (header_size + m) p buf, take-append-drop p, ← drop-drop header_size m buf)
      (sym (take-append-drop m (drop header_size buf)))

encode_of_lengths :
    (f : Frame) (buf : Bytes) (m p : ℕ)
    → m < 2 ^ 16
    → p < 2 ^ 16
    → length f.metadata ≡ m
    → length f.payload ≡ p
    → encode f ++ drop (length (encode f)) buf
      ≡ put_u32 f.magic
        ++ (f.version ∷ f.kind ∷ f.flags ∷ f.reserved ∷ put_u32 f.request_id
            ++ (put_u16 m
                ++ (put_u16 p ++ (f.metadata ++ (f.payload ++ drop (header_size + m + p) buf)))))
encode_of_lengths f buf m p hm hp em ep =
    rw (encode_append, length-encode) (unfold header in ground arith)

module _ (buf : Bytes) (w : IsBytes buf) (a : Accepts buf) where
  abbrev got : Frame
  got = (decode_Accepts buf a).0

  length-metadata : length (take (u16_at buf 12) (drop header_size buf)) ≡ u16_at buf 12
  length-metadata = omega (
    arith,
    a.has_body,
    length-take (u16_at buf 12) (drop header_size buf),
    length-drop header_size buf,
  )

  length-payload :
      length (take (u16_at buf 14) (drop (header_size + u16_at buf 12) buf)) ≡ u16_at buf 14
  length-payload = omega (
    arith,
    a.has_body,
    length-take (u16_at buf 14) (drop (header_size + u16_at buf 12) buf),
    length-drop (header_size + u16_at buf 12) buf,
  )

  encode-got : encode got ++ drop (length (encode got)) buf ≡ buf
  unfolding decode_Accepts
  encode-got = cc (
    encode_of_lengths got buf (u16_at buf 12) (u16_at buf 14) (u16_at-lt buf 12 w)
        (u16_at-lt buf 14 w) length-metadata length-payload,
    split_body (u16_at buf 12) (u16_at buf 14) buf,
    header_bytes buf a.has_header w,
  )

  size-got : get_frame_size buf ≡ ok (length (encode got))
  unfolding get_frame_size decode_Accepts
  size-got = rw length-encode (ground (arith, a.has_header, length-metadata, length-payload))

-- What `Decode` returns for a buffer of bytes is what `Encode` would have written: the frame's bytes are the front of the
-- buffer, and `GetFrameSize` tells how many they are.
pub encode-decode :
    (buf : Bytes) (f : Frame)
    → IsBytes buf
    → decode buf ≡ ok f
    → (encode f ++ drop (length (encode f)) buf ≡ buf)
      × (get_frame_size buf ≡ ok (length (encode f)))
encode-decode buf f w h =
    let a = Accepts-decode buf f h in
    let e : (decode_Accepts buf a).0 ≡ f = cc (h, (decode_Accepts buf a).1) in
    rw (← e) (encode-got buf w a, size-got buf w a)
