-- ===== src/Http/Parser/Lines.antt =====
-- core/http/parser.go: the end of the header section, and one header line.
use fast_server.Base.{
  Bytes, Lacks, [], ap, arith, false, has_prefix, index, length, refl, some, suc, skip_spaces,
  trim_back, trim_left, trim_space, ℕ, ◌++◌, ◌+◌, ◌∷◌, ◌≡◌, ◌≢◌,
}
use fast_server.Http.Parser.{cr, crlf, lf, space, strip_cr}
use mathlib.Core.Option
use mathlib.Core.List.{reverse, reverse-reverse}

abbrev pub blank : Bytes
blank = crlf ++ crlf

-- No blank line starts at a byte that no line feed follows.
not_blank : (a b : ℕ) (s : Bytes) → b ≢ lf → has_prefix blank (a ∷ b ∷ s) ≡ false
unfolding has_prefix
not_blank a b s h = ground arith

-- The first blank line after a line is where the line ends.
pub index-blank_here :
    (l t : Bytes) → Lacks lf l → index blank (l ++ (blank ++ t)) ≡ some (length l)
unfolding index
index-blank_here [] t h = refl
index-blank_here (a ∷ []) t h = rw (not_blank a cr (lf ∷ cr ∷ lf ∷ t) (omega arith)) refl
index-blank_here (a ∷ b ∷ l) t h =
    rw (not_blank a b (l ++ (blank ++ t)) h.1.0, index-blank_here (b ∷ l) t h.1) refl

not_blank_sep : (x : ℕ) (t : Bytes) → x ≢ cr → has_prefix blank (cr ∷ lf ∷ x ∷ t) ≡ false
unfolding has_prefix
not_blank_sep x t h = ground arith

index_miss :
    (pat s : Bytes) (b : ℕ)
    → has_prefix pat (b ∷ s) ≡ false
    → index pat (b ∷ s) ≡ Option.map suc (index pat s)
unfolding index
index_miss pat s b h = rw h

-- A line end that a line follows is no blank line.
pub index-blank_later :
    (l : Bytes) (x : ℕ) (t : Bytes) {i : ℕ}
    → Lacks lf l
    → x ≢ cr
    → index blank (x ∷ t) ≡ some i
    → index blank (l ++ (cr ∷ lf ∷ x ∷ t)) ≡ some (length l + 2 + i)
index-blank_later [] x t h hx e =
    rw
      (
        index_miss blank (lf ∷ x ∷ t) cr (not_blank_sep x t hx),
        index_miss blank (x ∷ t) lf (unfold has_prefix in refl),
        e,
      )
      (ap some (omega arith))
index-blank_later (a ∷ []) x t h hx e =
    rw
      (
        index_miss blank (cr ∷ lf ∷ x ∷ t) a (not_blank a cr (lf ∷ x ∷ t) (omega arith)),
        index-blank_later [] x t tt hx e,
      )
      (ap some (omega arith))
index-blank_later (a ∷ b ∷ l) x t h hx e =
    rw
      (
        index_miss blank (b ∷ (l ++ (cr ∷ lf ∷ x ∷ t))) a
            (not_blank a b (l ++ (cr ∷ lf ∷ x ∷ t)) h.1.0),
        index-blank_later (b ∷ l) x t h.1 hx e,
      )
      (ap some (omega arith))

-- A text with no space at either end, Unicode spaces included.
abbrev pub IsTrimmed : Bytes → Type 0
IsTrimmed s = (trim_left s ≡ s) × (trim_back (reverse s) ≡ reverse s)

pub trim_space-IsTrimmed : (s : Bytes) → IsTrimmed s → trim_space s ≡ s
unfolding trim_space
trim_space-IsTrimmed s h = rw (h.0, h.1) (reverse-reverse s)

pub trim_space_cons : (s : Bytes) → IsTrimmed s → trim_space (space ∷ s) ≡ s
unfolding trim_space skip_spaces
trim_space_cons s h = rw (h.0, h.1) (reverse-reverse s)

pub strip_cr-append : (s : Bytes) → strip_cr (s ++ cr ∷ []) ≡ s
unfolding strip_cr
strip_cr-append [] = refl
strip_cr-append (a ∷ []) = refl
strip_cr-append (a ∷ b ∷ s) = rw (strip_cr-append (b ∷ s))
