-- ===== src/Http/Parser/Fuel.antt =====
-- core/http/parser.go: the loop of `parseHeaders` ends by itself.
use fast_server.Base.{
  Bool, Bytes, [], ap, arith, drop, if◌then◌else◌, length, length-drop, refl, suc, take, zero, ℕ,
  ◌+◌, ◌==◌, ◌∷◌, ◌≡◌, ◌≤◌,
}
use fast_server.Http.Request.{Request}
use fast_server.Http.Parser.{header_line, line_end, parse_headers, strip_cr}

-- One round, when the rest of the loop does the same.
round_same :
    (line : Bytes) (req : Request) (last : Bool) (f g : Request → Request)
    → ((r : Request) → f r ≡ g r)
    → elim line [
      | [] ↦ req
      | c ∷ cs ↦ if last then header_line (c ∷ cs) req else f (header_line (c ∷ cs) req)
    ]
      ≡ elim line [
        | [] ↦ req
        | c ∷ cs ↦ if last then header_line (c ∷ cs) req else g (header_line (c ∷ cs) req)
      ]
round_same [] req last f g same = refl
round_same (c ∷ cs) req last f g same =
    ap (λ x. if last then header_line (c ∷ cs) req else x) (same (header_line (c ∷ cs) req))

-- The header section takes no more rounds than it has bytes: with that many, as `ParseRequest` is
-- modelled, or with any greater number the result is the same.
pub parse_headers-enough :
    (n m : ℕ) (req : Request) (s : Bytes)
    → length s ≤ n
    → length s ≤ m
    → parse_headers n req s ≡ parse_headers m req s
unfolding parse_headers
parse_headers-enough zero zero req s h k = refl
parse_headers-enough zero (suc m) req [] h k = refl
parse_headers-enough zero (suc m) req (b ∷ s) h k = absurd (omega arith)
parse_headers-enough (suc n) zero req [] h k = refl
parse_headers-enough (suc n) zero req (b ∷ s) h k = absurd (omega arith)
parse_headers-enough (suc n) (suc m) req [] h k = refl
parse_headers-enough (suc n) (suc m) req (b ∷ s) h k =
    let rest = drop (line_end (b ∷ s) + 1) (b ∷ s) in
    let short = length-drop (line_end (b ∷ s) + 1) (b ∷ s) in
    round_same (strip_cr (take (line_end (b ∷ s)) (b ∷ s))) req (line_end (b ∷ s) == length (b ∷ s))
      (λ r. parse_headers n r rest) (λ r. parse_headers m r rest)
      (λ r. parse_headers-enough n m r rest (omega (arith, short, h)) (omega (arith, short, k)))
