-- ===== src/Http/Context/Digits.antt =====
-- core/http/context.go: `appendInt` writes the decimal digits of a number.
use fast_server.Base.{
  All, All-append, Lacks, ◌<◌, Bool-cases, Bytes, [], ap, append-nil, append_assoc, arith,
  if◌then◌else◌, inl, inr, length, length-append, refl, set, suc, sym, zero, ℕ, ◌%◌, ◌*◌, ◌++◌, ◌+◌,
  ◌-◌, ◌/◌, ◌==◌, ◌∙◌, ◌∷◌, ◌≡◌, ◌≤◌,
}
use fast_server.Http.Context.{append_int, count_digits, fill, push_zeros}

-- The last `n` decimal digits.
abbrev pub last_digits : ℕ → ℕ → Bytes
last_digits zero i = []
last_digits (suc n) i = last_digits n (i / 10) ++ ((b'0' + i % 10) ∷ [])

-- The decimal digits of a number, the first not zero but for zero itself.
abbrev pub decimal : ℕ → Bytes
decimal i = if i == 0 then b'0' ∷ [] else last_digits (count_digits i i) i

-- The number that some digits stand for, behind the ones that were read.
abbrev pub value_from : ℕ → Bytes → ℕ
value_from n [] = n
value_from n (d ∷ s) = value_from (n * 10 + (d - b'0')) s

abbrev pub value : Bytes → ℕ
value s = value_from 0 s

value_from-append_one :
    (n : ℕ) (s : Bytes) (d : ℕ) → value_from n (s ++ (d ∷ [])) ≡ value_from n s * 10 + (d - b'0')
value_from-append_one n [] d = refl
value_from-append_one n (c ∷ s) d = value_from-append_one (n * 10 + (c - b'0')) s d

value-last_digits : (fuel i : ℕ) → i ≤ fuel → value (last_digits (count_digits fuel i) i) ≡ i
unfolding count_digits
value-last_digits zero i h = omega arith
value-last_digits (suc fuel) i h = elim (Bool-cases (i == 0)) [
  | inl e ↦ ground (arith, e)
  | inr e ↦ ground (
    arith,
    e,
    value-last_digits fuel (i / 10) (ground (arith, e)),
    value_from-append_one 0 (last_digits (count_digits fuel (i / 10)) (i / 10)) (b'0' + i % 10),
  )
]

-- Zeros to be overwritten.
abbrev zeros : ℕ → Bytes
zeros zero = []
zeros (suc n) = b'0' ∷ zeros n

zeros_one : (n : ℕ) (s : Bytes) → zeros n ++ (b'0' ∷ s) ≡ zeros (suc n) ++ s
zeros_one zero s = refl
zeros_one (suc n) s = ap (◌∷◌ b'0') (zeros_one n s)

push_zeros_lem : (n : ℕ) (b : Bytes) → push_zeros n b ≡ b ++ zeros n
unfolding push_zeros
push_zeros_lem zero b = sym (append-nil b)
push_zeros_lem (suc n) b =
    push_zeros_lem n (b ++ (b'0' ∷ [])) ∙ append_assoc b (b'0' ∷ []) (zeros n)

set-append :
    (x : Bytes) (i d e : ℕ) (y : Bytes) → length x ≡ i → set (x ++ (e ∷ y)) i d ≡ x ++ (d ∷ y)
set-append [] zero d e y h = refl
set-append [] (suc i) d e y h = absurd (omega arith)
set-append (a ∷ x) zero d e y h = absurd (omega arith)
set-append (a ∷ x) (suc i) d e y h = ap (◌∷◌ a) (set-append x i d e y (omega arith))

length-zeros : (n : ℕ) → length (zeros n) ≡ n
length-zeros zero = refl
length-zeros (suc n) = omega (arith, length-zeros n)

-- The digits in the place of the zeros, with what is filled already behind them.
fill-zeros :
    (j i : ℕ) (b y : Bytes)
    → fill (length b) j i (b ++ (zeros j ++ y)) ≡ b ++ (last_digits j i ++ y)
unfolding fill
fill-zeros zero i b y = refl
fill-zeros (suc j) i b y =
    let d = b'0' + i % 10 in
    let at : set (b ++ (zeros (suc j) ++ y)) (length b + j) d ≡ b ++ (zeros j ++ (d ∷ y)) = cc (
      zeros_one j y,
      append_assoc b (zeros j) (b'0' ∷ y),
      append_assoc b (zeros j) (d ∷ y),
      set-append (b ++ zeros j) (length b + j) d b'0' y
          (omega (arith, length-append b (zeros j), length-zeros j)),
    ) in
    rw (at, append_assoc) (fill-zeros j (i / 10) b (d ∷ y))

pub append_int_lem : (b : Bytes) (i : ℕ) → append_int b i ≡ b ++ decimal i
unfolding append_int
append_int_lem b i = ground (
  arith,
  push_zeros_lem (count_digits i i) b,
  fill-zeros (count_digits i i) i b [],
  append-nil (zeros (count_digits i i)),
  append-nil (last_digits (count_digits i i) i),
)

-- `appendInt` leaves what is in the buffer and puts the decimal digits of the number behind it: read
-- back, they are the number.
pub append_int-decimal :
    (b : Bytes) (i : ℕ) → (append_int b i ≡ b ++ decimal i) × (value (decimal i) ≡ i)
append_int-decimal b i = (append_int_lem b i, ground (arith, value-last_digits i i (omega arith)))

abbrev pub IsDigit : ℕ → Type 0
IsDigit b = (b'0' ≤ b) × (b ≤ b'9')

last_digits-IsDigit : (n i : ℕ) → All IsDigit (last_digits n i)
last_digits-IsDigit zero i = tt
last_digits-IsDigit (suc n) i =
    All-append IsDigit (last_digits n (i / 10)) ((b'0' + i % 10) ∷ [])
      (last_digits-IsDigit n (i / 10)) (omega arith, tt)

pub decimal-IsDigit : (i : ℕ) → All IsDigit (decimal i)
decimal-IsDigit i = elim (Bool-cases (i == 0)) [
  | inl e ↦ rw e (omega arith, tt)
  | inr e ↦ rw e (last_digits-IsDigit (count_digits i i) i)
]

pub Lacks-IsDigit : (c : ℕ) (s : Bytes) → c < b'0' → All IsDigit s → Lacks c s
Lacks-IsDigit c [] l w = tt
Lacks-IsDigit c (b ∷ s) l w = (ground (arith, l, w.0), Lacks-IsDigit c s l w.1)
