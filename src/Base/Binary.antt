-- ===== src/Base/Binary.antt =====
-- Byte strings as lists of numbers, the comparison of two of them, and big-endian integers
-- (`encoding/binary`).
use Prim.Native.Char.{code}
use Prim.Native.Nat.{ℕ, zero, suc, ◌+◌, ◌*◌, ◌/◌, ◌%◌, ◌^◌, ◌<◌}
use Prim.Native.String.{String}
use mathlib.Core.Path.{◌≡◌, refl, ap₂}
use mathlib.Core.Logic.{◌↔◌}
use mathlib.Core.Bool.{Bool, true, false, ◌&&◌}
use mathlib.Core.List.{List, [], ◌∷◌, ◌++◌}
use native.Mathlib.Omega.{arith}
use fast_server.Base.Tests.{◌==◌, ==_refl}
use fast_server.Base.Lists.{All, get_or}

abbrev pub Bytes : Type 0
Bytes = List ℕ

abbrev pub IsByte : ℕ → Type 0
IsByte b = b < 256

abbrev pub IsBytes : Bytes → Type 0
IsBytes = All IsByte

-- The bytes of an ASCII literal.
abbrev pub codes : String → Bytes
codes String.[] = []
codes (String.◌∷◌ c s) = code c ∷ codes s

-- Go's `==` on two strings or byte slices.
unfoldable pub bytes_eq : Bytes → Bytes → Bool
bytes_eq [] [] = true
bytes_eq (a ∷ s) (b ∷ t) = a == b && bytes_eq s t
bytes_eq _ _ = false

eq_of_bytes_eq : (s t : Bytes) → bytes_eq s t ≡ true → s ≡ t
unfolding bytes_eq
eq_of_bytes_eq [] [] h = refl
eq_of_bytes_eq (a ∷ s) (b ∷ t) h = ap₂ ◌∷◌ (ground arith) (eq_of_bytes_eq s t (ground arith))
eq_of_bytes_eq _ _ h = cc

pub bytes_eq_refl : (s : Bytes) → bytes_eq s s ≡ true
unfolding bytes_eq
bytes_eq_refl [] = refl
bytes_eq_refl (a ∷ s) = rw (==_refl a) (bytes_eq_refl s)

pub bytes_eq_iff : (s t : Bytes) → (bytes_eq s t ≡ true) ↔ (s ≡ t)
bytes_eq_iff s t = (eq_of_bytes_eq s t, λ e. rw e (bytes_eq_refl t))

-- PutUint16, PutUint32 and PutUint64; the argument is below the modulus of its width.
abbrev pub put_u16 : ℕ → Bytes
put_u16 n = n / 256 ∷ (n % 256) ∷ []

abbrev pub put_u32 : ℕ → Bytes
put_u32 n = n / 2 ^ 24 ∷ (n / 2 ^ 16 % 256) ∷ (n / 2 ^ 8 % 256) ∷ (n % 256) ∷ []

-- Uint16 and Uint32 of the bytes at an offset; the caller has checked the length.
abbrev pub u16_at : Bytes → ℕ → ℕ
u16_at buf i = get_or buf i 0 * 256 + get_or buf (i + 1) 0

abbrev pub u32_at : Bytes → ℕ → ℕ
u32_at buf i =
    get_or buf i 0 * 2 ^ 24
    + get_or buf (i + 1) 0 * 2 ^ 16
    + get_or buf (i + 2) 0 * 2 ^ 8
    + get_or buf (i + 3) 0

abbrev pub put_u64 : ℕ → Bytes
put_u64 n = put_u32 (n / 2 ^ 32) ++ put_u32 (n % 2 ^ 32)

abbrev pub u64_at : Bytes → ℕ → ℕ
u64_at buf i = u32_at buf i * 2 ^ 32 + u32_at buf (i + 4)

pub get_or-IsByte : (buf : Bytes) (i : ℕ) → IsBytes buf → get_or buf i 0 < 256
get_or-IsByte [] i h = omega arith
get_or-IsByte (b ∷ buf) zero h = h.0
get_or-IsByte (b ∷ buf) (suc i) h = get_or-IsByte buf i h.1
