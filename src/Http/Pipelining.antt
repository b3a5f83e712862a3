-- ===== src/Http/Pipelining.antt =====
-- core/http/pipelining.go. The connection is what its reads bring, each at most 8192 bytes and not empty,
-- and how they end. `bufio.Reader` is as documented: an empty buffer is filled by one read. Writes
-- succeed, and `config.MaxPipeline` is not 0. Method, path and protocol of a request share the bytes of
-- the buffer (`unsafeString`), so that a later read into it changes them.
pub mod Order
mod Tests
use fast_server.Base.{
  Bool, Bytes, List, Option, [], bytes_eq, codes, drop, false, if◌then◌else◌, length, map, none,
  not, some, suc, take, true, zero, ℕ, ◌&&◌, ◌++◌, ◌+◌, ◌==◌, ◌∷◌, ◌-◌,
}
use fast_server.Http.Request.{Request, new_request, reset}
use fast_server.Http.Parser.{invalid, line_end, parse_request, parsed, strip_cr}
use fast_server.Http.Parser

pub data End : Type 0 where
  eof failed : End

-- `PipelineHandler`: its reader, with the bytes that are buffered, and its limit.
pub record PipelineHandler : Type 0 where
  pub buffered : Bytes
  pub arrivals : List Bytes
  pub ending : End
  pub max_size : ℕ

-- `NewPipelineHandler`
abbrev pub new_pipeline_handler : List Bytes → End → ℕ → PipelineHandler
new_pipeline_handler arrivals ending max_size = record {
  buffered = [];
  arrivals = arrivals;
  ending = ending;
  max_size = if max_size == 0 then 16 else max_size;
}

abbrev pub buf_size : ℕ
buf_size = 4096

pub data ReadResult : Type 0 where
  got : Bytes → PipelineHandler → ReadResult
  ended : End → ReadResult

abbrev taken : Bytes → List Bytes → PipelineHandler → ReadResult
taken s rest ph = got (take buf_size s) (record ph { buffered = drop buf_size s; arrivals = rest })

-- `ph.reader.Read(buf)`
pub read : PipelineHandler → ReadResult
read ph = elim ph.buffered [
  | b ∷ s ↦ taken (b ∷ s) ph.arrivals ph
  | [] ↦ elim ph.arrivals [ [] ↦ ended ph.ending | chunk ∷ rest ↦ taken chunk rest ph ]
]

-- The requests of a batch; the error in which reading ended, `none` for `ErrInvalidRequest`; or the
-- panic of the parser.
pub data Batch : Type 0 where
  batch : List Request → PipelineHandler → Batch
  stopped : List Request → Option End → Batch
  panicked : Batch

-- A string at an offset of the buffer, after a read of `s` into the buffer.
pub reread_field : Bytes → ℕ → Bytes → Bytes
reread_field s offset field =
    take (length field) (drop offset s) ++ drop (length (drop offset s)) field

-- A request, with the offset of its protocol, after a read into the buffer.
pub reread : Bytes → Request × ℕ → Request × ℕ
reread s (req, proto_at) = (
  record req {
    method = reread_field s 0 req.method;
    path = reread_field s (length req.method + 1) req.path;
    proto = reread_field s proto_at req.proto;
  },
  proto_at,
)

-- The offset of the protocol, which ends the first line, in the bytes that a request was parsed from.
abbrev pub proto_offset : Bytes → Request → ℕ
proto_offset s req = length (strip_cr (take (line_end s) s)) - length req.proto

-- The loop of `ReadRequests`: `n` more rounds, behind some requests.
pub read_requests : ℕ → List (Request × ℕ) → PipelineHandler → Batch
read_requests zero requests ph = batch (map (λ r. r.0) requests) ph
read_requests (suc n) requests ph = elim (read ph) [
  | ended e ↦ elim e [
    | failed ↦ stopped (map (λ r. r.0) requests) (some failed)
    | eof ↦ elim requests [
      | [] ↦ stopped [] (some eof)
      | r ∷ rs ↦ batch (map (λ q. q.0) (r ∷ rs)) ph
    ]
  ]
  | got s ph' ↦ elim s [
    | [] ↦ batch (map (λ r. r.0) requests) ph'
    | b ∷ t ↦ elim (parse_request new_request (b ∷ t)) [
      | invalid ↦ stopped (map (λ r. (reread (b ∷ t) r).0) requests) none
      | Parser.panic ↦ panicked
      | parsed req ↦
          let all = map (reread (b ∷ t)) requests ++ (req, proto_offset (b ∷ t) req) ∷ [] in
          elim ph'.buffered [
            | [] ↦ batch (map (λ r. r.0) all) ph'
            | c ∷ u ↦ read_requests n all ph'
          ]
    ]
  ]
]

-- `WriteResponses`: one write of all of them.
pub write_responses : List Bytes → Bytes
write_responses [] = []
write_responses (resp ∷ responses) = resp ++ write_responses responses

-- How `HandlePipelinedConnection` returns: with nil, with an error, or not, since it panics; `waiting` is
-- a loop that goes on.
pub data Return : Type 0 where
  returned crashed waiting : Return
  error : Option End → Return

-- The object of a request behind `ReleaseRequest`: reset, and used again by another connection, or not.
abbrev pub released : Option Request → Request → Request
released none r = reset r
released (some other) r = other

-- `requests[len(requests)-1].Connection == "close"`, of which the request has been released.
abbrev pub last_closes : Option Request → List Request → Bool
last_closes reuse [] = false
last_closes reuse (r ∷ []) = bytes_eq (released reuse r).connection (codes "close")
last_closes reuse (r ∷ s ∷ rs) = last_closes reuse (s ∷ rs)

-- The loop of `HandlePipelinedConnection` on fuel: what it writes, write by write, and how it returns. In the
-- round with `fuel` left, `reuse fuel` has taken the object of the last request.
pub handle_pipelined :
    ℕ → (ℕ → Option Request) → Bool → (Request → Bytes) → PipelineHandler → List Bytes × Return
handle_pipelined zero reuse keep_alive handler ph = ([], waiting)
handle_pipelined (suc fuel) reuse keep_alive handler ph = elim (read_requests ph.max_size [] ph) [
  | panicked ↦ ([], crashed)
  | stopped rs e ↦ elim e [
    | none ↦ ([], error none)
    | some end' ↦ elim end' [ eof ↦ ([], returned) | failed ↦ ([], error (some failed)) ]
  ]
  | batch rs ph' ↦ elim rs [
    | [] ↦ ([], returned)
    | r ∷ more ↦
        let out = write_responses (map handler (r ∷ more)) in
        elim (keep_alive && not (last_closes (reuse fuel) (r ∷ more))) [
          | false ↦ (out ∷ [], returned)
          | true ↦
              let (outs, end') = handle_pipelined fuel reuse keep_alive handler ph' in
              (out ∷ outs, end')
        ]
  ]
]
