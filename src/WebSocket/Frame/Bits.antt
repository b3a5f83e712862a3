-- ===== src/WebSocket/Frame/Bits.antt =====
-- core/websocket/conn.go: the bit operations on the two header bytes and on masked bytes.
use Prim.Native.Nat.{bit_and, bit_or, bit_xor}
use fast_server.Base.{==_iff, Bool, arith, not, refl, suc, true, zero, ℕ, ◌&&◌, ◌<◌, ◌==◌, ◌≡◌}

-- A test that holds of every number below `n`.
all_below : ℕ → (ℕ → Bool) → Bool
all_below zero p = true
all_below (suc n) p = p n && all_below n p

all_below_lem : (n : ℕ) (p : ℕ → Bool) (x : ℕ) → all_below n p ≡ true → x < n → p x ≡ true
unfolding all_below
all_below_lem zero p x h lt = absurd (omega arith)
all_below_lem (suc n) p x h lt = ground (arith, all_below_lem n p x)

xor_table : all_below 256 (λ k. all_below 256 (λ x. bit_xor (bit_xor k x) k == x)) ≡ true
unfolding all_below
xor_table = refl

-- A byte that was masked with another, and unmasked.
pub bit_xor_twice : (x k : ℕ) → x < 256 → k < 256 → bit_xor (bit_xor k x) k ≡ x
bit_xor_twice x k h g =
    let row =
      all_below_lem 256 (λ k. all_below 256 (λ x. bit_xor (bit_xor k x) k == x)) k xor_table g in
    (==_iff _ x).0 (all_below_lem 256 (λ x. bit_xor (bit_xor k x) k == x) x row h)

-- The first header byte: an opcode below 16, with or without the top bit.
abbrev fin_test : ℕ → Bool
fin_test x =
    bit_and (bit_or x 0x80) 0x0F == x
    && not (bit_and (bit_or x 0x80) 0x80 == 0)
    && bit_and x 0x0F == x
    && bit_and x 0x80 == 0

fin_table : all_below 16 fin_test ≡ true
unfolding all_below
fin_table = refl

pub opcode_bits :
    (x : ℕ)
    → x < 16
    → (bit_and (bit_or x 0x80) 0x0F ≡ x)
      × (not (bit_and (bit_or x 0x80) 0x80 == 0) ≡ true)
      × (bit_and x 0x0F ≡ x)
      × (bit_and x 0x80 ≡ 0)
opcode_bits x h = ground (arith, all_below_lem 16 fin_test x fin_table h)

-- The second header byte: a length code below 128, with or without the top bit.
abbrev code_test : ℕ → Bool
code_test x =
    bit_and (bit_or x 0x80) 0x7F == x
    && not (bit_and (bit_or x 0x80) 0x80 == 0)
    && bit_and x 0x7F == x
    && bit_and x 0x80 == 0

code_table : all_below 128 code_test ≡ true
unfolding all_below
code_table = refl

pub code_bits :
    (x : ℕ)
    → x < 128
    → (bit_and (bit_or x 0x80) 0x7F ≡ x)
      × (not (bit_and (bit_or x 0x80) 0x80 == 0) ≡ true)
      × (bit_and x 0x7F ≡ x)
      × (bit_and x 0x80 ≡ 0)
code_bits x h = ground (arith, all_below_lem 128 code_test x code_table h)
