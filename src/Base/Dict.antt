-- ===== src/Base/Dict.antt =====
-- Go's `map` and `sync.Map` as association lists over any key type with an equality test.
-- The order of the entries is the order of insertion; Go promises none.
use Prim.Native.Nat.{ℕ, ◌+◌, ◌≤◌}
use Prim.Native.String.{String}
use mathlib.Core.Path.{◌≡◌, refl, subst}
use mathlib.Core.Logic.{◌↔◌, inl, inr}
use mathlib.Core.Bool.{Bool, true, false}
use mathlib.Core.List.{List, [], ◌∷◌}
use mathlib.Core.Option.{Option, none, some}
use native.Mathlib.Omega.{arith}
use text.Mathlib.Text.{◌==◌ as str_eq}
use text.Mathlib.TextEquality.{eq_iff}
use fast_server.Base.Tests.{◌==◌ as nat_beq, ==_iff, if◌then◌else◌, Bool-cases}
use fast_server.Base.Lists.{length, All}
use fast_server.Base.Binary.{Bytes, bytes_eq, bytes_eq_iff}

pub record Eq {ℓ} (K : Type ℓ) : Type ℓ where
  pub beq : K → K → Bool
  pub beq_iff : (a b : K) → (beq a b ≡ true) ↔ (a ≡ b)

instance abbrev pub nat_eq : Eq ℕ
nat_eq = record { beq = nat_beq; beq_iff = ==_iff }

instance abbrev pub string_eq : Eq String
string_eq = record { beq = str_eq; beq_iff = eq_iff }

instance abbrev pub bytes_key : Eq Bytes
bytes_key = record { beq = bytes_eq; beq_iff = bytes_eq_iff }

pub beq_refl {ℓ} : {K : Type ℓ} ⦃e : Eq K⦄ (k : K) → e.beq k k ≡ true
beq_refl ⦃e⦄ k = (e.beq_iff k k).1 refl

module _ {ℓ} {K V : Type ℓ} ⦃e : Eq K⦄ where
  unfoldable pub lookup : K → List (K × V) → Option V
  lookup k [] = none
  lookup k ((j, v) ∷ m) = if e.beq j k then some v else lookup k m

  -- m[k] = v: an existing entry is overwritten in place.
  unfoldable pub insert : K → V → List (K × V) → List (K × V)
  insert k v [] = (k, v) ∷ []
  insert k v ((j, w) ∷ m) = if e.beq j k then (k, v) ∷ m else (j, w) ∷ insert k v m

  -- delete(m, k)
  unfoldable pub delete : K → List (K × V) → List (K × V)
  delete k [] = []
  delete k ((j, w) ∷ m) = let rest = delete k m in if e.beq j k then rest else (j, w) ∷ rest

  pub lookup-insert :
      (k j : K) (v : V) (m : List (K × V))
      → lookup j (insert k v m) ≡ (if e.beq k j then some v else lookup j m)
  unfolding lookup insert
  lookup-insert k j v [] = refl
  lookup-insert k j v ((i, w) ∷ m) =
      ground (arith, e.beq_iff k j, e.beq_iff i k, e.beq_iff i j, lookup-insert k j v m)

  pub lookup-delete :
      (k j : K) (m : List (K × V))
      → lookup j (delete k m) ≡ (if e.beq k j then none else lookup j m)
  unfolding lookup delete
  lookup-delete k j [] = ground arith
  lookup-delete k j ((i, w) ∷ m) =
      ground (arith, e.beq_iff k j, e.beq_iff i k, e.beq_iff i j, lookup-delete k j m)

  -- Of two values that are stored under one key the later stays.
  pub insert-insert :
      (k : K) (v w : V) (m : List (K × V)) → insert k v (insert k w m) ≡ insert k v m
  unfolding insert
  insert-insert k v w [] = ground (arith, e.beq_iff k k)
  insert-insert k v w ((j, u) ∷ m) =
      ground (arith, e.beq_iff j k, e.beq_iff k k, insert-insert k v w m)

  -- No key stands twice.
  abbrev pub Once : List (K × V) → Type ℓ
  Once [] = Unit
  Once ((k, v) ∷ m) = (lookup k m ≡ none) × Once m

  pub insert-Once : (k : K) (v : V) (m : List (K × V)) → Once m → Once (insert k v m)
  unfolding insert
  insert-Once k v [] h = (unfold lookup in refl, tt)
  insert-Once k v ((j, w) ∷ m) h = elim (Bool-cases (e.beq j k)) [
    | inl same ↦ rw same (subst (λ i. lookup i m ≡ none) ((e.beq_iff j k).0 same) h.0, h.1)
    | inr other ↦ rw other (
      ground (arith, h.0, e.beq_iff j k, e.beq_iff k j, lookup-insert k j v m),
      insert-Once k v m h.1,
    )
  ]

  pub delete-Once : (k : K) (m : List (K × V)) → Once m → Once (delete k m)
  unfolding delete
  delete-Once k [] h = tt
  delete-Once k ((j, w) ∷ m) h = elim (Bool-cases (e.beq j k)) [
    | inl same ↦ rw same (delete-Once k m h.1)
    | inr other ↦ rw other (ground (arith, h.0, lookup-delete k j m), delete-Once k m h.1)
  ]

  module _ {κ} (P : K × V → Type κ) where
    pub insert-All : (k : K) (v : V) (m : List (K × V)) → P (k, v) → All P m → All P (insert k v m)
    unfolding insert
    insert-All k v [] p h = (p, tt)
    insert-All k v ((j, w) ∷ m) p h = elim (Bool-cases (e.beq j k)) [
      | inl same ↦ rw same (p, h.1)
      | inr other ↦ rw other (h.0, insert-All k v m p h.1)
    ]

    -- What is left has other keys.
    pub delete-All :
        (k : K) (m : List (K × V)) → All P m → All (λ x. P x × (e.beq x.0 k ≡ false)) (delete k m)
    unfolding delete
    delete-All k [] h = tt
    delete-All k ((j, w) ∷ m) h = elim (Bool-cases (e.beq j k)) [
      | inl same ↦ rw same (delete-All k m h.1)
      | inr other ↦ rw other ((h.0, other), delete-All k m h.1)
    ]

  pub length-insert-le : (k : K) (v : V) (m : List (K × V)) → length (insert k v m) ≤ length m + 1
  unfolding insert
  length-insert-le k v [] = omega arith
  length-insert-le k v ((j, w) ∷ m) = ground (arith, length-insert-le k v m)

  pub length-delete-le : (k : K) (m : List (K × V)) → length (delete k m) ≤ length m
  unfolding delete
  length-delete-le k [] = omega arith
  length-delete-le k ((j, w) ∷ m) = ground (arith, length-delete-le k m)

pub ruleset dict_laws = (lookup-insert, lookup-delete)
