-- ===== src/Http/Parser.antt =====
-- core/http/parser.go. `ParseRequest` works on a request from the pool, `req` here; the pool holds
-- new requests and released ones, which are alike (Http/Request/Headers).
pub mod Lines
pub mod Target
pub mod HeaderLines
pub mod Rejects
pub mod Fuel
pub mod RoundTrip
mod Tests
use fast_server.Base.{
  Bytes, List, [], drop, if◌then◌else◌, index, index_byte, insert, length, none, some, split, suc,
  take, trim_space, zero, ℕ, ◌++◌, ◌+◌, ◌==◌, ◌∷◌, bytes_key,
}
use fast_server.Http.Request.{Request, set_header}

pub data Parsed : Type 0 where
  parsed : Request → Parsed
  -- `ErrInvalidRequest`
  invalid : Parsed
  -- the run-time panic of an index that is out of range
  panic : Parsed

abbrev pub lf : ℕ
lf = 10

abbrev pub cr : ℕ
cr = 13

abbrev pub space : ℕ
space = 32

abbrev pub crlf : Bytes
crlf = cr ∷ lf ∷ []

-- `if line[len(line)-1] == '\r' { line = line[:len(line)-1] }` on a line that is not empty.
unfoldable pub strip_cr : Bytes → Bytes
strip_cr [] = []
strip_cr (b ∷ []) = if b == cr then [] else b ∷ []
strip_cr (b ∷ c ∷ s) = b ∷ strip_cr (c ∷ s)

-- `SplitN(pair, "=", 2)` and the two branches on the number of its parts.
unfoldable pub add_pair : Bytes → List (Bytes × Bytes) → List (Bytes × Bytes)
add_pair pair query = elim (index_byte b'=' pair) [
  | none ↦ insert pair [] query
  | some i ↦ insert (take i pair) (drop (i + 1) pair) query
]

unfoldable pub add_pairs : List Bytes → List (Bytes × Bytes) → List (Bytes × Bytes)
add_pairs [] query = query
add_pairs (pair ∷ pairs) query = add_pairs pairs (add_pair pair query)

unfoldable pub parse_query : Request → Bytes → ℕ → Request
parse_query req path idx = record req {
  path = take idx path;
  query = add_pairs (split b'&' (drop (idx + 1) path)) req.query;
}

unfoldable pub header_line : Bytes → Request → Request
header_line line req = elim (index_byte b':' line) [
  | none ↦ req
  | some zero ↦ req
  | some (suc i) ↦
      set_header (trim_space (take (suc i) line)) (trim_space (drop (suc i + 1) line)) req
]

abbrev pub line_end : Bytes → ℕ
line_end data' = elim (index_byte lf data') [ none ↦ length data' | some i ↦ i ]

-- The loop over the header lines, on fuel: a round takes at least one byte, and the caller gives
-- one round for each byte.
unfoldable pub parse_headers : ℕ → Request → Bytes → Request
parse_headers zero req s = req
parse_headers (suc fuel) req [] = req
parse_headers (suc fuel) req (b ∷ s) =
    let line = strip_cr (take (line_end (b ∷ s)) (b ∷ s)) in
    elim line [
      | [] ↦ req
      | c ∷ cs ↦
          let done = header_line (c ∷ cs) req in
          let more = parse_headers fuel done (drop (line_end (b ∷ s) + 1) (b ∷ s)) in
          if line_end (b ∷ s) == length (b ∷ s) then done else more
    ]

-- The body is whatever follows the blank line.
unfoldable pub take_body : Request → Bytes → Parsed
take_body req [] = parsed req
take_body req (b ∷ s) = parsed (record req { body = b ∷ s })

unfoldable pub parse_rest : Request → Bytes → Parsed
parse_rest req s = elim (index (crlf ++ crlf) s) [
  | some i ↦ take_body (parse_headers (length (take i s)) req (take i s)) (drop (i + 4) s)
  | none ↦ elim (index (lf ∷ lf ∷ []) s) [
    | none ↦ invalid
    | some i ↦ take_body req (drop (i + 2) s)
  ]
]

unfoldable pub parse_target : Request → Request
parse_target req = elim (index_byte b'?' req.path) [
  | none ↦ req
  | some i ↦ parse_query req req.path i
]

-- METHOD, PATH and PROTO of a request line whose line end is off.
unfoldable pub parse_line : Request → Bytes → Bytes → Parsed
parse_line req line rest = elim (index_byte space line) [
  | none ↦ invalid
  | some sp1 ↦ elim (index_byte space (drop (sp1 + 1) line)) [
    | none ↦ invalid
    | some sp2 ↦
        parse_rest
          (parse_target (record req {
            method = take sp1 line;
            path = take sp2 (drop (sp1 + 1) line);
            proto = drop (sp2 + 1) (drop (sp1 + 1) line);
          }))
          rest
  ]
]

-- An empty first line is indexed at -1.
unfoldable pub first_line : Request → Bytes → Bytes → Parsed
first_line req [] rest = panic
first_line req (b ∷ line) rest = parse_line req (strip_cr (b ∷ line)) rest

unfoldable pub parse_request : Request → Bytes → Parsed
parse_request req s = elim (index_byte lf s) [
  | none ↦ invalid
  | some i ↦ first_line req (take i s) (drop (i + 1) s)
]
