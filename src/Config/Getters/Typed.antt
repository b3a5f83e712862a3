-- ===== src/Config/Getters/Typed.antt =====
-- config/manager.go: what the getters make of variables of the environment.
use fast_server.Base.{
  All, Bool, Bool-cases, Bytes, Lacks, List, [], arith, ap, bytes_eq, bytes_eq_iff, bytes_eq_refl,
  codes, inl, inr, refl, some, split, split-Lacks, split-append, true, ℕ, ◌*◌, ◌++◌, ◌+◌, ◌-◌, ◌<◌,
  ◌==◌, ◌∙◌, ◌∷◌, ◌≡◌, ◌≢◌, ◌↔◌, ◌⊎◌, bytes_key,
}
use fast_server.Http.Context.Digits.{
  IsDigit, decimal-IsDigit, decimal, value, value_from, append_int-decimal,
}
use fast_server.Config.Manager.{Manager, get_value, LowersAscii, ascii_key, load_variable}
use fast_server.Config.Manager.Environment.{load_variable-prefix}
use fast_server.Config.Getters.{
  Numbers, Value, atoi, digits_value, get_bool, get_int, get_string, get_string_slice, is_truth, ℤ,
  pos, string_value,
}

digits_value-IsDigit :
    (n : ℕ) (s : Bytes) → All IsDigit s → digits_value n s ≡ some (value_from n s)
unfolding digits_value
digits_value-IsDigit n [] w = refl
digits_value-IsDigit n (b ∷ s) w =
    ground (arith, w.0, digits_value-IsDigit (n * 10 + (b - b'0')) s w.1)

-- A text of digits is read as its number.
atoi-IsDigit :
    (s : Bytes)
    → s ≢ []
    → All IsDigit s
    → value s < 9223372036854775808
    → atoi s ≡ some (pos (value s))
unfolding atoi
atoi-IsDigit [] n w l = absurd (n refl)
atoi-IsDigit (b ∷ s) n w l = ground (arith, w.0, l, digits_value-IsDigit 0 (b ∷ s) w)

decimal-some : (i : ℕ) → decimal i ≢ []
decimal-some i e = elim (Bool-cases (i == 0)) [
  | inl z ↦ absurd (ground (arith, e, z))
  | inr p ↦ absurd (ground (arith, p, (append_int-decimal [] i).1, ap value e))
]

pub atoi-decimal : (i : ℕ) → i < 9223372036854775808 → atoi (decimal i) ≡ some (pos i)
atoi-decimal i l =
    let v = (append_int-decimal [] i).1 in
    rw v at (atoi-IsDigit (decimal i) (decimal-some i) (decimal-IsDigit i) (omega (arith, v, l)))

-- Parts with commas between them.
abbrev pub joined : Bytes → List Bytes → Bytes
joined s [] = s
joined s (t ∷ ts) = s ++ b',' ∷ joined t ts

split-joined :
    (s : Bytes) (ts : List Bytes) → All (Lacks b',') (s ∷ ts) → split b',' (joined s ts) ≡ s ∷ ts
split-joined s [] w = split-Lacks b',' s w.0
split-joined s (t ∷ ts) w =
    split-append b',' s (joined t ts) w.0 ∙ ap (◌∷◌ s) (split-joined t ts w.1)

is_truth_iff :
    (s : Bytes) → (is_truth s ≡ true) ↔ ((s ≡ codes "true") ⊎ ((s ≡ codes "yes") ⊎ (s ≡ codes "1")))
is_truth_iff s = (
  (λ h. elim (Bool-cases (bytes_eq s (codes "true"))) [
    | inl e ↦ inl ((bytes_eq_iff s (codes "true")).0 e)
    | inr n ↦ elim (Bool-cases (bytes_eq s (codes "yes"))) [
      | inl e ↦ inr (inl ((bytes_eq_iff s (codes "yes")).0 e))
      | inr k ↦ inr (inr ((bytes_eq_iff s (codes "1")).0 (ground (arith, h, n, k))))
    ]
  ]),
  (λ h. elim h [
    | inl e ↦ ground (arith, (bytes_eq_iff s (codes "true")).1 e)
    | inr k ↦ elim k [
      | inl e ↦ ground (arith, (bytes_eq_iff s (codes "yes")).1 e)
      | inr e ↦ ground (arith, (bytes_eq_iff s (codes "1")).1 e)
    ]
  ]),
)

module _ {F : Type 0} (lower : Bytes → Bytes) (prefix name : Bytes) (m : Manager (Value F)) where
  -- The manager that has the variable.
  abbrev pub loaded : Bytes → Manager (Value F)
  loaded s = load_variable lower string_value prefix ((prefix ++ (b'_' ∷ name)) ++ (b'=' ∷ s)) m

  get_value-loaded :
      (s : Bytes)
      → LowersAscii lower
      → All (λ b. b < 128) name
      → prefix ≢ []
      → Lacks b'=' prefix
      → Lacks b'=' name
      → get_value (ascii_key name) (loaded s) ≡ some (string_value s)
  get_value-loaded s k a n p q = ground (
    arith,
    load_variable-prefix lower string_value prefix name s (ascii_key name) m k a n p q,
    bytes_eq_refl (ascii_key name),
  )

  -- The key of a variable that begins with the prefix, which is not empty, and an underscore, without a `=`
  -- in prefix or name and with a name in ASCII, has a value of each type that its text stands for, whatever
  -- the manager had and whatever the defaults: the text itself; the number that is written in decimal,
  -- below 2^63; the parts that are joined by commas, none with a comma; and true for three words only.
  pub loaded-typed :
      (numbers : Numbers F) (s t : Bytes) (ts : List Bytes) (i : ℕ) (texts : List Bytes)
      (ints : List ℤ) (lists : List (List Bytes)) (bools : List Bool)
      → LowersAscii lower
      → All (λ b. b < 128) name
      → prefix ≢ []
      → Lacks b'=' prefix
      → Lacks b'=' name
      → i < 9223372036854775808
      → All (Lacks b',') (t ∷ ts)
      → (get_string (ascii_key name) texts (loaded s) ≡ s)
        × (get_int numbers (ascii_key name) ints (loaded (decimal i)) ≡ pos i)
        × (get_string_slice (ascii_key name) lists (loaded (joined t ts)) ≡ t ∷ ts)
        × ((get_bool (ascii_key name) bools (loaded s) ≡ true)
            ↔ ((s ≡ codes "true") ⊎ ((s ≡ codes "yes") ⊎ (s ≡ codes "1"))))
  unfolding get_string get_int get_string_slice get_bool
  loaded-typed numbers s t ts i texts ints lists bools k a n p q l w = (
    ground (arith, get_value-loaded s k a n p q),
    ground (arith, get_value-loaded (decimal i) k a n p q, atoi-decimal i l),
    ground (arith, get_value-loaded (joined t ts) k a n p q, split-joined t ts w),
    (
      (λ h. (is_truth_iff s).0 (ground (arith, h, get_value-loaded s k a n p q))),
      (λ h. ground (arith, (is_truth_iff s).1 h, get_value-loaded s k a n p q)),
    ),
  )
