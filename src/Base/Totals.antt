-- ===== src/Base/Totals.antt =====
-- Tables by number, and sums over them.
use Prim.Native.Nat.{ℕ, zero, suc, ◌+◌, ◌≤◌, ◌<◌}
use mathlib.Core.Path.{◌≡◌, refl, ap}
use mathlib.Core.Logic.{inl, inr}
use mathlib.Core.Bool.{false}
use native.Mathlib.Omega.{arith}
use fast_server.Base.Tests.{◌==◌, if◌then◌else◌, Bool-cases}

abbrev pub put {ℓ} : {A : Type ℓ} → (ℕ → A) → ℕ → A → ℕ → A
put f i v k = if i == k then v else f k

abbrev pub total : ℕ → (ℕ → ℕ) → ℕ
total zero f = 0
total (suc n) f = total n f + f n

abbrev Off : ℕ → (ℕ → ℕ) → (ℕ → ℕ) → Type 0
Off i f g = (k : ℕ) → (i == k) ≡ false → g k ≡ f k

total-beyond : (n i : ℕ) (f g : ℕ → ℕ) → n ≤ i → Off i f g → total n g ≡ total n f
total-beyond zero i f g h e = refl
total-beyond (suc n) i f g h e = ground (arith, total-beyond n i f g (omega arith) e, e n)

-- A change at one place changes the sum by as much.
pub total-change : (n i : ℕ) (f g : ℕ → ℕ) → i < n → Off i f g → total n g + f i ≡ total n f + g i
total-change zero i f g h e = absurd (omega arith)
total-change (suc n) i f g h e = elim (Bool-cases (i == n)) [
  | inl last ↦
      let s : i ≡ n = ground (arith, last) in
      ground (arith, total-beyond n i f g (omega (arith, s)) e, ap f s, ap g s)
  | inr before ↦ ground (arith, before, total-change n i f g (ground (arith, before)) e, e n)
]

pub total-le : (n i : ℕ) (f : ℕ → ℕ) → i < n → f i ≤ total n f
total-le zero i f h = absurd (omega arith)
total-le (suc n) i f h = elim (Bool-cases (i == n)) [
  | inl last ↦ let s : i ≡ n = ground (arith, last) in omega (arith, ap f s)
  | inr before ↦ omega (arith, total-le n i f (ground (arith, before)))
]

pub total-zero : (n : ℕ) (f : ℕ → ℕ) → ((i : ℕ) → i < n → f i ≡ 0) → total n f ≡ 0
total-zero zero f h = refl
total-zero (suc n) f h =
    omega (arith, h n (omega arith), total-zero n f (λ i l. h i (omega (arith, l))))
