-- ===== src/Config/Getters.antt =====
-- config/manager.go: the getters that give a value of a type. `F` is float64, and so float32, with the
-- conversions and parsers of the language and its library as parameters; an int has 64 bits. A duration is
-- its nanoseconds.
mod Tests
pub mod Typed
use fast_server.Base.{
  Bool, Bytes, List, Option, [], bytes_eq, codes, false, if◌then◌else◌, leb, ltb, map, none, not,
  some, split, suc, true, zero, ℕ, ◌&&◌, ◌*◌, ◌+◌, ◌-◌, ◌==◌, ◌||◌, ◌∷◌,
}
use fast_server.Config.Manager.{Manager, get_value}

pub data ℤ : Type 0 where
  pos negsuc : ℕ → ℤ

abbrev pub neg : ℕ → ℤ
neg zero = pos 0
neg (suc n) = negsuc n

-- What `strconv.ParseFloat`, `time.ParseDuration` and the conversions between numbers do.
pub record Numbers (F : Type 0) : Type 0 where
  pub parse_float : Bytes → Option F
  pub parse_duration : Bytes → Option ℤ
  pub float_of_int : ℤ → F
  pub int_of_float : F → ℤ
  pub zero_float : F

-- An item of an `[]interface{}` is a string, or something else.
pub data Value (F : Type 0) : Type 0 where
  string_value : Bytes → Value F
  int_value int64_value duration_value : ℤ → Value F
  float64_value float32_value : F → Value F
  bool_value : Bool → Value F
  strings_value : List Bytes → Value F
  items_value : List (Option Bytes) → Value F
  other_value : Value F

-- Digits behind those that make up `n`.
pub digits_value : ℕ → Bytes → Option ℕ
digits_value n [] = some n
digits_value n (b ∷ s) =
    let rest = digits_value (n * 10 + (b - b'0')) s in
    if leb b'0' b && leb b b'9' then rest else none

abbrev pub digits_number : Bytes → Option ℕ
digits_number [] = none
digits_number (b ∷ s) = digits_value 0 (b ∷ s)

-- `strconv.Atoi`
abbrev pub positive : Option ℕ → Option ℤ
positive none = none
positive (some n) = if ltb n 9223372036854775808 then some (pos n) else none

abbrev pub negative : Option ℕ → Option ℤ
negative none = none
negative (some n) = if leb n 9223372036854775808 then some (neg n) else none

pub atoi : Bytes → Option ℤ
atoi [] = none
atoi (b ∷ s) =
    if b == b'-'
    then negative (digits_number s)
    else if b == b'+'
    then positive (digits_number s)
    else positive (digits_number (b ∷ s))

-- The optional last argument of a getter.
abbrev pub first_or : {A : Type 0} → A → List A → A
first_or a [] = a
first_or a (d ∷ ds) = d

abbrev pub is_truth : Bytes → Bool
is_truth s = bytes_eq s (codes "true") || (bytes_eq s (codes "yes") || bytes_eq s (codes "1"))

abbrev is_zero : ℤ → Bool
is_zero (pos n) = n == 0
is_zero (negsuc n) = false

abbrev or_empty : Option Bytes → Bytes
or_empty none = []
or_empty (some s) = s

abbrev or_default : {A : Type 0} → A → Option A → A
or_default d none = d
or_default d (some a) = a

module _ {F : Type 0} where
  -- `GetString`
  pub get_string : Bytes → List Bytes → Manager (Value F) → Bytes
  get_string key ds m = elim (get_value key m) [
    | none ↦ first_or [] ds
    | some v ↦ elim v [ string_value s ↦ s | _ ↦ first_or [] ds ]
  ]

  -- `GetBool`
  pub get_bool : Bytes → List Bool → Manager (Value F) → Bool
  get_bool key ds m = elim (get_value key m) [
    | none ↦ first_or false ds
    | some v ↦ elim v [
      | bool_value b ↦ b
      | string_value s ↦ is_truth s
      | int_value i ↦ not (is_zero i)
      | _ ↦ first_or false ds
    ]
  ]

  -- `GetStringSlice`; `strings.Split` on ','.
  pub get_string_slice : Bytes → List (List Bytes) → Manager (Value F) → List Bytes
  get_string_slice key ds m = elim (get_value key m) [
    | none ↦ first_or [] ds
    | some v ↦ elim v [
      | strings_value ss ↦ ss
      | items_value items ↦ map or_empty items
      | string_value s ↦ split b',' s
      | _ ↦ first_or [] ds
    ]
  ]

  module _ (numbers : Numbers F) where
    -- `GetInt`
    pub get_int : Bytes → List ℤ → Manager (Value F) → ℤ
    get_int key ds m = elim (get_value key m) [
      | none ↦ first_or (pos 0) ds
      | some v ↦ elim v [
        | int_value i ↦ i
        | int64_value i ↦ i
        | float64_value x ↦ numbers.int_of_float x
        | string_value s ↦ or_default (first_or (pos 0) ds) (atoi s)
        | _ ↦ first_or (pos 0) ds
      ]
    ]

    -- `GetFloat`
    pub get_float : Bytes → List F → Manager (Value F) → F
    get_float key ds m = elim (get_value key m) [
      | none ↦ first_or numbers.zero_float ds
      | some v ↦ elim v [
        | float64_value x ↦ x
        | float32_value x ↦ x
        | int_value i ↦ numbers.float_of_int i
        | int64_value i ↦ numbers.float_of_int i
        | string_value s ↦ or_default (first_or numbers.zero_float ds) (numbers.parse_float s)
        | _ ↦ first_or numbers.zero_float ds
      ]
    ]

    -- `GetDuration`
    pub get_duration : Bytes → List ℤ → Manager (Value F) → ℤ
    get_duration key ds m = elim (get_value key m) [
      | none ↦ first_or (pos 0) ds
      | some v ↦ elim v [
        | duration_value d ↦ d
        | string_value s ↦ or_default (first_or (pos 0) ds) (numbers.parse_duration s)
        | int64_value i ↦ i
        | _ ↦ first_or (pos 0) ds
      ]
    ]
