-- ===== src/Http/Parser/HeaderLines.antt =====
-- core/http/parser.go: `parseHeaders` on well-formed header lines.
use fast_server.Base.{
  ==_refl, All, All-append, Bytes, Lacks, List, [], ap, append_assoc, arith, drop_past, index,
  index_byte-Lacks, index_byte-append, length, length-append, refl, some, suc, take-append,
  take-length, skip_spaces, trim_back, wide_space, wide_space_back, zero, ℕ, ◌-◌, ◌++◌, ◌∙◌, ◌∷◌,
  ◌≡◌, ◌≢◌, ◌≤◌,
}
use fast_server.Http.Request.{Request, set_header}
use fast_server.Http.Parser.{cr, header_line, lf, parse_headers, space, strip_cr}
use fast_server.Http.Parser.Lines.{
  IsTrimmed, blank, index-blank_here, index-blank_later, strip_cr-append, trim_space-IsTrimmed,
  trim_space_cons,
}
use mathlib.Core.List.{reverse, reverse-reverse, reverse-cons}

-- "Key: value"
abbrev pub line : Bytes × Bytes → Bytes
line (k, v) = k ++ (b':' ∷ space ∷ v)

-- Lines with a line end between two of them.
abbrev pub joined : List (Bytes × Bytes) → Bytes
joined [] = []
joined (h ∷ []) = line h
joined (h ∷ g ∷ hs) = line h ++ (cr ∷ lf ∷ joined (g ∷ hs))

pub record IsHeader (h : Bytes × Bytes) : Type 0 where
  pub named : h.0 ≢ []
  pub key : Lacks b':' h.0
  pub key_line : Lacks lf h.0
  pub value_line : Lacks lf h.1
  pub key_trimmed : IsTrimmed h.0
  pub value_trimmed : IsTrimmed h.1

abbrev pub set_headers : List (Bytes × Bytes) → Request → Request
set_headers [] req = req
set_headers ((k, v) ∷ hs) req = set_headers hs (set_header k v req)

length-skip_spaces-le :
    (wide : ℕ → Bytes → ℕ) (k : ℕ) (s : Bytes) → length (skip_spaces wide k s) ≤ length s
unfolding skip_spaces
length-skip_spaces-le wide k [] = ground arith
length-skip_spaces-le wide (suc k) (b ∷ s) = omega (arith, length-skip_spaces-le wide k s)
length-skip_spaces-le wide zero (b ∷ s) =
    let rest : (k : ℕ) → length (skip_spaces wide k s) ≤ length s =
      λ k. length-skip_spaces-le wide k s in
    ground (arith, rest 0, rest (suc (wide b s - 1)))

-- A trimmed text has no carriage return at its ends.
pub trimmed-ne-cr :
    (wide : ℕ → Bytes → ℕ) (b : ℕ) (s : Bytes) → skip_spaces wide 0 (b ∷ s) ≡ b ∷ s → b ≢ cr
unfolding skip_spaces
trimmed-ne-cr wide b s h e =
    ground (arith, e, ap (λ (t : Bytes). length t) h, length-skip_spaces-le wide 0 s)

strip_cr_other : (s : Bytes) (b : ℕ) → b ≢ cr → strip_cr (s ++ b ∷ []) ≡ s ++ b ∷ []
unfolding strip_cr
strip_cr_other [] b h = ground arith
strip_cr_other (a ∷ []) b h = ground arith
strip_cr_other (a ∷ c ∷ s) b h = rw (strip_cr_other (c ∷ s) b h)

strip_cr_reversed :
    (pre r : Bytes)
    → trim_back r ≡ r
    → strip_cr (pre ++ (b':' ∷ space ∷ reverse r)) ≡ pre ++ (b':' ∷ space ∷ reverse r)
strip_cr_reversed pre [] h =
    let e : pre ++ (b':' ∷ space ∷ []) ≡ (pre ++ b':' ∷ []) ++ space ∷ [] = rw append_assoc in
    rw e (strip_cr_other (pre ++ b':' ∷ []) space (omega arith))
strip_cr_reversed pre (b ∷ r) h =
    let e : pre ++ (b':' ∷ space ∷ (reverse r ++ b ∷ []))
        ≡ (pre ++ (b':' ∷ space ∷ reverse r)) ++ b ∷ [] =
      rw append_assoc in
    rw (reverse-cons b r, e)
      (strip_cr_other (pre ++ (b':' ∷ space ∷ reverse r)) b (trimmed-ne-cr wide_space_back b r h))

header_line_named :
    (k v : Bytes) (req : Request)
    → k ≢ []
    → Lacks b':' k
    → IsTrimmed k
    → IsTrimmed v
    → header_line (line (k, v)) req ≡ set_header k v req
unfolding header_line
header_line_named [] v req named lacks tk tv = absurd (named refl)
header_line_named (c ∷ k) v req named lacks tk tv = ground (
  arith,
  index_byte-append b':' (c ∷ k) (space ∷ v) lacks,
  take-append (suc (length k)) (c ∷ k) (b':' ∷ space ∷ v) refl,
  drop_past (c ∷ k) b':' (space ∷ v),
  trim_space-IsTrimmed (c ∷ k) tk,
  trim_space_cons v tv,
)

module _ (h : Bytes × Bytes) (w : IsHeader h) where
  strip_cr-line : strip_cr (line h) ≡ line h
  strip_cr-line =
      rw (reverse-reverse h.1) at (strip_cr_reversed h.0 (reverse h.1) w.value_trimmed.1)

  Lacks-line : Lacks lf (line h)
  Lacks-line =
      All-append (λ b. b ≢ lf) h.0 (b':' ∷ space ∷ h.1) w.key_line
        (omega arith, (omega arith, w.value_line))

-- One round of the loop on text that holds no line feed, and on a line that one ends.
parse_headers_last :
    (fuel b : ℕ) (s : Bytes) (req : Request)
    → Lacks lf (b ∷ s)
    → strip_cr (b ∷ s) ≡ b ∷ s
    → parse_headers (suc fuel) req (b ∷ s) ≡ header_line (b ∷ s) req
unfolding parse_headers
parse_headers_last fuel b s req lacks strip =
    ground (
      arith,
      index_byte-Lacks lf (b ∷ s) lacks,
      take-length (b ∷ s),
      strip,
      ==_refl (length (b ∷ s)),
    )

parse_headers_more :
    (fuel b : ℕ) (s rest : Bytes) (req : Request)
    → Lacks lf (b ∷ s)
    → parse_headers (suc fuel) req ((b ∷ s) ++ (cr ∷ lf ∷ rest))
      ≡ parse_headers fuel (header_line (b ∷ s) req) rest
unfolding parse_headers
parse_headers_more fuel b s rest req lacks =
    let l = (b ∷ s) ++ cr ∷ [] in
    let e : (b ∷ s) ++ (cr ∷ lf ∷ rest) ≡ l ++ lf ∷ rest = rw append_assoc in
    ground (
      arith,
      e,
      index_byte-append lf l rest (All-append (λ x. x ≢ lf) (b ∷ s) (cr ∷ []) lacks (omega arith)),
      take-append (length l) l (lf ∷ rest) refl,
      drop_past l lf rest,
      strip_cr-append (b ∷ s),
      length-append l (lf ∷ rest),
    )

-- A well-formed line is not empty: its first byte and the rest.
line_cons : (h : Bytes × Bytes) → IsHeader h → (b : ℕ) × (s : Bytes) × (line h ≡ b ∷ s) × (b ≢ cr)
line_cons ([], v) w = absurd (w.named refl)
line_cons (c ∷ k, v) w =
    (c, k ++ (b':' ∷ space ∷ v), refl, trimmed-ne-cr wide_space c k w.key_trimmed.0)

round_last :
    (fuel : ℕ) (h : Bytes × Bytes) (req : Request)
    → IsHeader h
    → parse_headers (suc fuel) req (line h) ≡ set_header h.0 h.1 req
round_last fuel h req w =
    let (b, s, e, other) = line_cons h w in
    cc (
      e,
      parse_headers_last fuel b s req (rw e at (Lacks-line h w)) (rw e at (strip_cr-line h w)),
      header_line_named h.0 h.1 req w.named w.key w.key_trimmed w.value_trimmed,
    )

round_more :
    (fuel : ℕ) (h : Bytes × Bytes) (rest : Bytes) (req : Request)
    → IsHeader h
    → parse_headers (suc fuel) req (line h ++ (cr ∷ lf ∷ rest))
      ≡ parse_headers fuel (set_header h.0 h.1 req) rest
round_more fuel h rest req w =
    let (b, s, e, other) = line_cons h w in
    cc (
      e,
      parse_headers_more fuel b s rest req (rw e at (Lacks-line h w)),
      header_line_named h.0 h.1 req w.named w.key w.key_trimmed w.value_trimmed,
    )

joined_cons :
    (h : Bytes × Bytes) (hs : List (Bytes × Bytes))
    → All IsHeader (h ∷ hs)
    → (b : ℕ) × (s : Bytes) × (joined (h ∷ hs) ≡ b ∷ s) × (b ≢ cr)
joined_cons h [] w = line_cons h w.0
joined_cons h (g ∷ hs) w =
    let (b, s, e, other) = line_cons h w.0 in
    (b, s ++ (cr ∷ lf ∷ joined (g ∷ hs)), rw e refl, other)

-- Well-formed header lines are all stored, in their order.
pub parse_headers-joined :
    (fuel : ℕ) (h : Bytes × Bytes) (hs : List (Bytes × Bytes)) (req : Request)
    → All IsHeader (h ∷ hs)
    → length (joined (h ∷ hs)) ≤ fuel
    → parse_headers fuel req (joined (h ∷ hs)) ≡ set_headers (h ∷ hs) req
parse_headers-joined zero h hs req w big =
    let (b, s, e, other) = joined_cons h hs w in
    absurd (omega (arith, ap (λ (t : Bytes). length t) e))
parse_headers-joined (suc fuel) h [] req w big = round_last fuel h req w.0
parse_headers-joined (suc fuel) h (g ∷ hs) req w big =
    round_more fuel h (joined (g ∷ hs)) req w.0
    ∙ parse_headers-joined fuel g hs (set_header h.0 h.1 req) w.1
        (omega (arith, length-append (line h) (cr ∷ lf ∷ joined (g ∷ hs))))

-- The header section ends where its last line does.
pub index-joined :
    (h : Bytes × Bytes) (hs : List (Bytes × Bytes)) (t : Bytes)
    → All IsHeader (h ∷ hs)
    → index blank (joined (h ∷ hs) ++ (blank ++ t)) ≡ some (length (joined (h ∷ hs)))
index-joined h [] t w = index-blank_here (line h) t (Lacks-line h w.0)
index-joined h (g ∷ hs) t w =
    let (b, s, e, other) = joined_cons g hs w.1 in
    let ih : index blank (b ∷ (s ++ (blank ++ t))) ≡ some (suc (length s)) =
      rw e at (index-joined g hs t w.1) in
    rw
      (
        e,
        append_assoc,
        index-blank_later (line h) b (s ++ (blank ++ t)) (Lacks-line h w.0) other ih,
      )
      (ap some (omega (arith, length-append (line h) (cr ∷ lf ∷ b ∷ s))))
