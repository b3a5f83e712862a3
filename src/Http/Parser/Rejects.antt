-- ===== src/Http/Parser/Rejects.antt =====
-- core/http/parser.go: when the parser panics, and requests that it turns away.
use fast_server.Base.{
  All-append, Bytes, Lacks, Option-cases, [], append_assoc, arith, drop, drop_past, has_prefix,
  index, index_byte, index_byte-append, inl, inr, length, none, refl, some, suc, sym, take,
  take-append, zero, ℕ, ◌++◌, ◌+◌, ◌↔◌, ◌∷◌, ◌≡◌, ◌≢◌,
}
use fast_server.Http.Request.{Request}
use fast_server.Http.Parser.Lines.{blank}
use fast_server.Http.Parser.{
  cr, crlf, first_line, invalid, lf, panic, parse_line, parse_request, parse_rest, strip_cr,
  take_body,
}

take_body-ne-panic : (req : Request) (s : Bytes) → take_body req s ≢ panic
unfolding take_body
take_body-ne-panic req [] = cc
take_body-ne-panic req (b ∷ s) = cc

parse_rest-ne-panic : (req : Request) (s : Bytes) → parse_rest req s ≢ panic
unfolding parse_rest
parse_rest-ne-panic req s = grind (arith, take_body-ne-panic)

parse_line-ne-panic : (req : Request) (line rest : Bytes) → parse_line req line rest ≢ panic
unfolding parse_line
parse_line-ne-panic req line rest = grind (arith, parse_rest-ne-panic)

first_line_panic :
    (req : Request) (line rest : Bytes) → first_line req line rest ≡ panic → line ≡ []
unfolding first_line
first_line_panic req [] rest e = refl
first_line_panic req (b ∷ line) rest e =
    absurd (parse_line-ne-panic req (strip_cr (b ∷ line)) rest e)

-- Only an empty first line is at position 0 of the line feed.
starts_with_lf :
    (s : Bytes) (i : ℕ) → index_byte lf s ≡ some i → take i s ≡ [] → (t : Bytes) × (s ≡ lf ∷ t)
unfolding index_byte
starts_with_lf [] i e h = cc
starts_with_lf (b ∷ s) zero e h = (s, ground arith)
starts_with_lf (b ∷ s) (suc i) e h = cc

panic_first : (req : Request) (s : Bytes) → parse_request req s ≡ panic → (t : Bytes) × (s ≡ lf ∷ t)
unfolding parse_request
panic_first req s e = elim (Option-cases (index_byte lf s)) [
  | inl missing ↦ cc (rw (missing, parse_request) at e)
  | inr (i, found) ↦
      starts_with_lf s i found (first_line_panic req (take i s) (drop (i + 1) s) (ground arith))
]

-- The parser panics exactly on input that begins with a line feed.
pub parse_request-panic_iff :
    (req : Request) (s : Bytes) → (parse_request req s ≡ panic) ↔ ((t : Bytes) × (s ≡ lf ∷ t))
unfolding parse_request index_byte first_line
parse_request-panic_iff req s = (panic_first req s, λ e. rw (e.1) refl)

append-ne-nil : (s : Bytes) (c : ℕ) → s ++ c ∷ [] ≢ []
append-ne-nil [] c = cc
append-ne-nil (b ∷ s) c = cc

parse_rest_headerless : (req : Request) → parse_rest req crlf ≡ invalid
unfolding parse_rest index has_prefix
parse_rest_headerless req = refl

parse_line_headerless : (req : Request) (line : Bytes) → parse_line req line crlf ≡ invalid
unfolding parse_line
parse_line_headerless req line = grind (arith, parse_rest_headerless)

first_line_headerless :
    (req : Request) (line : Bytes) → line ≢ [] → first_line req line crlf ≡ invalid
unfolding first_line
first_line_headerless req [] h = absurd (h refl)
first_line_headerless req (b ∷ line) h = parse_line_headerless req (strip_cr (b ∷ line))

-- A request line that is followed by the blank line at once, with no header between them, is never
-- accepted: whatever the line says, the answer is `ErrInvalidRequest`.
pub parse_request_headerless :
    (req : Request) (line : Bytes) → Lacks lf line → parse_request req (line ++ blank) ≡ invalid
unfolding parse_request
parse_request_headerless req line h =
    let l = line ++ cr ∷ [] in
    let e : line ++ blank ≡ l ++ lf ∷ crlf = sym (append_assoc line (cr ∷ []) (lf ∷ crlf)) in
    ground (
      arith,
      e,
      index_byte-append lf l crlf (All-append (λ b. b ≢ lf) line (cr ∷ []) h (omega arith)),
      take-append (length l) l (lf ∷ crlf) refl,
      drop_past l lf crlf,
      first_line_headerless req l (append-ne-nil line cr),
    )

-- Without a line feed there is no request yet.
pub parse_request-lineless :
    (req : Request) (s : Bytes) → index_byte lf s ≡ none → parse_request req s ≡ invalid
unfolding parse_request
parse_request-lineless req s e = ground (arith, e)
