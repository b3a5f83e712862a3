-- ===== src/Http/Parser/RoundTrip.antt =====
-- core/http/parser.go: parsing what a client wrote.
use fast_server.Base.{
  All, All-append, Bytes, Lacks, List, [], append_assoc, arith, drop-append, drop-drop, drop_past,
  index_byte-append, length, refl, sym, take-append, ℕ, ◌++◌, ◌∙◌, ◌∷◌, ◌≡◌, ◌≢◌,
}
use fast_server.Http.Request.{Request, new_request, reset, set_header}
use fast_server.Http.Request.Headers.{reset-new_request}
use fast_server.Http.Parser.Target.{IsPair, parse_target-target, set_pairs, target}
use fast_server.Http.Parser.{
  cr, first_line, lf, parse_line, parse_request, parse_rest, parse_target, parsed, space, take_body,
}
use fast_server.Http.Parser.Lines.{blank, strip_cr-append}
use fast_server.Http.Parser.HeaderLines.{
  IsHeader, index-joined, joined, parse_headers-joined, set_headers,
}

-- A request as a client sends it: METHOD SP PATH?QUERY SP PROTO, header lines, a blank line, a body.
pub record Wire : Type 0 where
  pub method : Bytes
  pub path : Bytes
  pub params : List (Bytes × Bytes)
  pub proto : Bytes
  pub first : Bytes × Bytes
  pub more : List (Bytes × Bytes)
  pub body : Bytes

pub record IsWire (m : Wire) : Type 0 where
  pub method_word : Lacks space m.method
  pub method_line : Lacks lf m.method
  pub path_part : Lacks b'?' m.path
  pub pairs : All IsPair m.params
  pub target_word : Lacks space (target m.path m.params)
  pub target_line : Lacks lf (target m.path m.params)
  pub proto_line : Lacks lf m.proto
  pub headers : All IsHeader (m.first ∷ m.more)

abbrev start_line : Wire → Bytes
start_line m = m.method ++ (space ∷ ((target m.path m.params) ++ (space ∷ m.proto)))

unfoldable pub print : Wire → Bytes
print m = start_line m ++ (cr ∷ lf ∷ (joined (m.first ∷ m.more) ++ (blank ++ m.body)))

-- The fields that the request line sets.
abbrev started : Wire → Request → Request
started m req =
    parse_target
      (record req { method = m.method; path = (target m.path m.params); proto = m.proto })

cons_of_append : (s : Bytes) (c : ℕ) → (b : ℕ) × (t : Bytes) × (s ++ c ∷ [] ≡ b ∷ t)
cons_of_append [] c = (c, [], refl)
cons_of_append (b ∷ s) c = (b, s ++ c ∷ [], refl)

module _ (m : Wire) (w : IsWire m) where
  parse_rest-print :
      (req : Request)
      → parse_rest req (joined (m.first ∷ m.more) ++ (blank ++ m.body))
        ≡ take_body (set_headers (m.first ∷ m.more) req) m.body
  unfolding parse_rest
  parse_rest-print req =
      let j = joined (m.first ∷ m.more) in
      let n = length j in
      ground (
        arith,
        index-joined m.first m.more m.body w.headers,
        take-append n j (blank ++ m.body) refl,
        drop-append n j (blank ++ m.body) refl,
        drop-drop n 4 (j ++ (blank ++ m.body)),
        parse_headers-joined n m.first m.more req w.headers,
      )

  parse_line-print :
      (req : Request) (rest : Bytes)
      → parse_line req (start_line m) rest ≡ parse_rest (started m req) rest
  unfolding parse_line
  parse_line-print req rest =
      let tail = (target m.path m.params) ++ (space ∷ m.proto) in
      ground (
        arith,
        index_byte-append space m.method tail w.method_word,
        take-append (length m.method) m.method (space ∷ tail) refl,
        drop_past m.method space tail,
        index_byte-append space (target m.path m.params) m.proto w.target_word,
        take-append (length (target m.path m.params)) (target m.path m.params) (space ∷ m.proto)
            refl,
        drop_past (target m.path m.params) space m.proto,
      )

  Lacks-start_line : Lacks lf (start_line m ++ cr ∷ [])
  Lacks-start_line =
      All-append (λ b. b ≢ lf) (start_line m) (cr ∷ [])
        (All-append (λ b. b ≢ lf) m.method (space ∷ ((target m.path m.params) ++ (space ∷ m.proto)))
          w.method_line
          (
            omega arith,
            All-append (λ b. b ≢ lf) (target m.path m.params) (space ∷ m.proto) w.target_line
                (omega arith, w.proto_line),
          ))
        (omega arith)

  start_line_cons : (b : ℕ) × (s : Bytes) × (start_line m ++ cr ∷ [] ≡ b ∷ s)
  start_line_cons = cons_of_append (start_line m) cr

  first_line-print :
      (req : Request) (rest : Bytes)
      → first_line req (start_line m ++ cr ∷ []) rest ≡ parse_rest (started m req) rest
  unfolding first_line
  first_line-print req rest =
      let (b, s, e) = start_line_cons in
      cc (e, strip_cr-append (start_line m), parse_line-print req rest)

parse_request-started :
    (m : Wire) (req : Request)
    → IsWire m
    → parse_request req (print m)
      ≡ take_body (set_headers (m.first ∷ m.more) (started m req)) m.body
unfolding parse_request print
parse_request-started m req w =
    let l = start_line m ++ cr ∷ [] in
    let rest = joined (m.first ∷ m.more) ++ (blank ++ m.body) in
    let e : start_line m ++ (cr ∷ lf ∷ rest) ≡ l ++ lf ∷ rest =
      sym (append_assoc (start_line m) (cr ∷ []) (lf ∷ rest)) in
    ground (
      arith,
      e,
      index_byte-append lf l rest (Lacks-start_line m w),
      take-append (length l) l (lf ∷ rest) refl,
      drop_past l lf rest,
      first_line-print m w req rest,
      parse_rest-print m w (started m req),
    )

-- What the server should know of a message: the later of two equal keys wins.
abbrev pub received : Wire → Request
received m =
    let r = set_headers (m.first ∷ m.more) (record new_request {
      method = m.method;
      path = m.path;
      proto = m.proto;
      query = set_pairs m.params [];
    }) in
    record r { body = m.body }

body-set_headers :
    (hs : List (Bytes × Bytes)) (req : Request) → (set_headers hs req).body ≡ req.body
body-set_headers [] req = refl
body-set_headers ((k, v) ∷ hs) req =
    body-set_headers hs (set_header k v req) ∙ unfold set_header in ground arith

take_body-parsed :
    (req : Request) (s : Bytes) → req.body ≡ [] → take_body req s ≡ parsed (record req { body = s })
unfolding take_body
take_body-parsed req [] e = ground arith
take_body-parsed req (b ∷ s) e = refl

-- Parsing a well-formed message that has at least one header, on a request that was released to the
-- pool, gives its parts: method, path, query parameters, protocol, every header line in order, and
-- as the body all bytes behind the blank line, those of a pipelined next request included.
pub parse_request-print :
    (m : Wire) (old : Request)
    → IsWire m
    → parse_request (reset old) (print m) ≡ parsed (received m)
parse_request-print m old w = rw (reset-new_request old) (
    parse_request-started m new_request w
    ∙ rw
        (parse_target-target m.path m.params
          (record new_request { method = m.method; path = target m.path m.params; proto = m.proto })
          w.path_part w.pairs refl)
        (take_body-parsed _ m.body (body-set_headers (m.first ∷ m.more) _)))
