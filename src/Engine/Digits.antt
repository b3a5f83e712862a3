-- ===== src/Engine/Digits.antt =====
-- core/engine.go: the engine's own `appendInt`, and the error responses that it writes.
use fast_server.Engine.{append_int, digits}
use fast_server.Http.Context
use fast_server.Http.Context.{count_digits}
use fast_server.Http.Context.Digits.{append_int_lem, last_digits}
use fast_server.Base.{
  Bool-cases, Bytes, [], ap, arith, inl, inr, refl, suc, zero, ℕ, ◌%◌, ◌++◌, ◌+◌, ◌/◌, ◌==◌, ◌∙◌,
  ◌∷◌, ◌≡◌,
}
use mathlib.Core.List.{reverse, reverse-append}

reverse-digits : (fuel i : ℕ) → reverse (digits fuel i) ≡ last_digits (count_digits fuel i) i
unfolding digits count_digits
reverse-digits zero i = refl
reverse-digits (suc fuel) i = elim (Bool-cases (i == 0)) [
  | inl z ↦ ground (arith, z)
  | inr p ↦ rw p (
      reverse-append ((b'0' + i % 10) ∷ []) (digits fuel (i / 10))
      ∙ ap (λ s. s ++ ((b'0' + i % 10) ∷ [])) (reverse-digits fuel (i / 10)))
]

-- The engine's `appendInt` and that of the contexts write the same.
pub append_int-append_int : (b : Bytes) (i : ℕ) → append_int b i ≡ Context.append_int b i
unfolding append_int
append_int-append_int b i = ground (arith, append_int_lem b i, reverse-digits i i)
