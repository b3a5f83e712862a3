-- ===== src/Base/Scan.antt =====
-- What the program uses of Go's `bytes` and `strings` packages, over byte lists. `TrimSpace`
-- trims what Unicode has as spaces.
use Prim.Native.Nat.{ℕ, zero, suc, ◌<◌}
use mathlib.Core.Path.{◌≡◌, refl}
use mathlib.Core.Logic.{◌≢◌, inl, inr}
use mathlib.Core.Bool.{Bool, true, false, ◌&&◌, ◌||◌}
use mathlib.Core.Option
use mathlib.Core.Option.{Option, none, some}
use mathlib.Core.List.{List, [], ◌∷◌, ◌++◌, reverse}
use native.Mathlib.Omega.{arith}
use fast_server.Base.Tests.{◌==◌, leb, if◌then◌else◌, ==_refl, Bool-cases}
use fast_server.Base.Lists.{length, All}
use fast_server.Base.Binary.{Bytes}

-- IndexByte; `none` is the -1 of the original.
unfoldable pub index_byte : ℕ → Bytes → Option ℕ
index_byte c [] = none
index_byte c (b ∷ s) = if b == c then some 0 else Option.map suc (index_byte c s)

unfoldable pub has_prefix : Bytes → Bytes → Bool
has_prefix [] s = true
has_prefix (p ∷ pre) [] = false
has_prefix (p ∷ pre) (b ∷ s) = p == b && has_prefix pre s

-- Index: the first place where the pattern stands.
unfoldable pub index : Bytes → Bytes → Option ℕ
unfolding has_prefix
index pat [] = if has_prefix pat [] then some 0 else none
index pat (b ∷ s) = if has_prefix pat (b ∷ s) then some 0 else Option.map suc (index pat s)

-- What `unicode.IsSpace` accepts, in UTF-8.
abbrev is_space : ℕ → Bool
is_space b = b == 32 || (leb 9 b && leb b 13)

abbrev is_space_2 : ℕ → ℕ → Bool
is_space_2 a b = a == 194 && (b == 133 || b == 160)

abbrev is_space_3 : ℕ → ℕ → ℕ → Bool
is_space_3 a b c =
    (a == 226 && b == 128 && ((leb 128 c && leb c 138) || (c == 168 || (c == 169 || c == 175))))
    || ((a == 225 && b == 154 && c == 128)
        || ((a == 226 && b == 129 && c == 159) || (a == 227 && b == 128 && c == 128)))

-- How many bytes of a space come behind its first byte `a`, if a space of several bytes stands there.
abbrev pub wide_space : ℕ → Bytes → ℕ
wide_space a [] = 0
wide_space a (b ∷ []) = if is_space_2 a b then 1 else 0
wide_space a (b ∷ c ∷ s) = if is_space_2 a b then 1 else if is_space_3 a b c then 2 else 0

-- The same on a text that is read from its end.
abbrev pub wide_space_back : ℕ → Bytes → ℕ
wide_space_back a [] = 0
wide_space_back a (b ∷ []) = if is_space_2 b a then 1 else 0
wide_space_back a (b ∷ c ∷ s) = if is_space_2 b a then 1 else if is_space_3 c b a then 2 else 0

-- Without the spaces at the start, of which `k` bytes are left to pass.
unfoldable pub skip_spaces : (ℕ → Bytes → ℕ) → ℕ → Bytes → Bytes
skip_spaces wide k [] = []
skip_spaces wide (suc k) (b ∷ s) = skip_spaces wide k s
skip_spaces wide zero (b ∷ s) = elim (is_space b) [
  | true ↦ skip_spaces wide 0 s
  | false ↦ elim (wide b s) [ zero ↦ b ∷ s | suc k ↦ skip_spaces wide (suc k) s ]
]

abbrev pub trim_left : Bytes → Bytes
trim_left s = skip_spaces wide_space 0 s

-- The end of a text, with the last byte first.
abbrev pub trim_back : Bytes → Bytes
trim_back s = skip_spaces wide_space_back 0 s

-- TrimSpace
unfoldable pub trim_space : Bytes → Bytes
unfolding skip_spaces
trim_space s = reverse (trim_back (reverse (trim_left s)))

abbrev add_to_first : ℕ → List Bytes → List Bytes
add_to_first b [] = (b ∷ []) ∷ []
add_to_first b (p ∷ ps) = (b ∷ p) ∷ ps

-- Split on one byte: the parts between its occurrences, one more than there are.
unfoldable pub split : ℕ → Bytes → List Bytes
split c [] = [] ∷ []
split c (b ∷ s) = let rest = split c s in if b == c then [] ∷ rest else add_to_first b rest

abbrev pub Lacks : ℕ → Bytes → Type 0
Lacks c = All (λ b. b ≢ c)

pub index_byte-append :
    (c : ℕ) (s t : Bytes) → Lacks c s → index_byte c (s ++ c ∷ t) ≡ some (length s)
unfolding index_byte
index_byte-append c [] t h = rw (==_refl c)
index_byte-append c (b ∷ s) t h = ground (arith, index_byte-append c s t h.1)

pub index_byte-Lacks : (c : ℕ) (s : Bytes) → Lacks c s → index_byte c s ≡ none
unfolding index_byte
index_byte-Lacks c [] h = refl
index_byte-Lacks c (b ∷ s) h = ground (arith, index_byte-Lacks c s h.1)

pub index_byte-lt : (c : ℕ) (s : Bytes) (i : ℕ) → index_byte c s ≡ some i → i < length s
unfolding index_byte
index_byte-lt c [] i e = cc
index_byte-lt c (b ∷ s) zero e = omega arith
index_byte-lt c (b ∷ s) (suc i) e = ground (arith, index_byte-lt c s i)

pub split-Lacks : (c : ℕ) (s : Bytes) → Lacks c s → split c s ≡ s ∷ []
unfolding split
split-Lacks c [] h = refl
split-Lacks c (b ∷ s) h = ground (arith, split-Lacks c s h.1)

pub split-append : (c : ℕ) (s t : Bytes) → Lacks c s → split c (s ++ c ∷ t) ≡ s ∷ split c t
unfolding split
split-append c [] t h = rw (==_refl c)
split-append c (b ∷ s) t h = ground (arith, split-append c s t h.1)

-- The parts have what all bytes have.
pub split-All {κ} : (P : ℕ → Type κ) (c : ℕ) (s : Bytes) → All P s → All (All P) (split c s)
unfolding split
split-All P c [] h = (tt, tt)
split-All P c (b ∷ s) h = elim (Bool-cases (b == c)) [
  | inl e ↦ rw e (tt, split-All P c s h.1)
  | inr e ↦ rw e (first (split c s) (split-All P c s h.1))
]
  where
    first : (ps : List Bytes) → All (All P) ps → All (All P) (add_to_first b ps)
    first [] k = ((h.0, tt), tt)
    first (p ∷ ps) k = ((h.0, k.0), k.1)

-- The first part begins with the first byte, if that is no separator.
pub split-cons :
    (c b : ℕ) (s : Bytes)
    → (b == c) ≡ false
    → (p : Bytes) × (ps : List Bytes) × (split c (b ∷ s) ≡ (b ∷ p) ∷ ps)
unfolding split
split-cons c b s e = rw e (first (split c s))
  where
    first : (ps : List Bytes) → (p : Bytes) × (qs : List Bytes) × (add_to_first b ps ≡ (b ∷ p) ∷ qs)
    first [] = ([], [], refl)
    first (p ∷ ps) = (p, ps, refl)
