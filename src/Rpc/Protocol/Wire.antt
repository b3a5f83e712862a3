-- ===== src/Rpc/Protocol/Wire.antt =====
-- core/rpc/protocol/frame.go: which frames the wire format can carry, and facts about the header.
use fast_server.Base.{
  ◌+◌, ◌%◌, ◌^◌, ◌<◌, ◌≡◌, refl, ◌++◌, Bytes, length, length-append, arith, IsByte, u16_at, u32_at,
}
use fast_server.Rpc.Protocol.{Frame, magic_number, protocol_version, header, encode, header_size}

-- The fields are Go's `byte` and `uint32`.
pub record IsWire (f : Frame) : Type 0 where
  pub version : IsByte f.version
  pub kind : IsByte f.kind
  pub flags : IsByte f.flags
  pub reserved : IsByte f.reserved
  pub magic : f.magic < 2 ^ 32
  pub request_id : f.request_id < 2 ^ 32

-- A frame of this protocol whose metadata and payload fit the 16-bit length fields.
pub record Fits (f : Frame) : Type 0 where
  pub magic : f.magic ≡ magic_number
  pub version : f.version ≡ protocol_version
  pub request_id : f.request_id < 2 ^ 32
  pub metadata : length f.metadata < 2 ^ 16
  pub payload : length f.payload < 2 ^ 16

pub length-header : (f : Frame) → length (header f) ≡ header_size
unfolding header
length-header f = refl

pub length-encode :
    (f : Frame) → length (encode f) ≡ header_size + length f.metadata + length f.payload
unfolding encode
length-encode f = omega (arith, length-append {0} f.metadata f.payload)

module _ (f : Frame) (rest : Bytes) where
  pub u32_at-header_magic : f.magic < 2 ^ 32 → u32_at (header f ++ rest) 0 ≡ f.magic
  unfolding header
  u32_at-header_magic h = omega arith

  pub u32_at-header_id : f.request_id < 2 ^ 32 → u32_at (header f ++ rest) 8 ≡ f.request_id
  unfolding header
  u32_at-header_id h = omega arith

  pub u16_at-header_meta : u16_at (header f ++ rest) 12 ≡ length f.metadata % 2 ^ 16
  unfolding header
  u16_at-header_meta = omega arith

  pub u16_at-header_payload : u16_at (header f ++ rest) 14 ≡ length f.payload % 2 ^ 16
  unfolding header
  u16_at-header_payload = omega arith
