-- ===== src/Router/Radix/Static.antt =====
-- core/router/radix.go on routes without wildcards: the shape of a tree that holds such routes, and
-- what `getValue` does on it.
pub mod Split
pub mod Grow
pub mod Enter
pub mod Loop
pub mod Table
use fast_server.Base.{
  Bool, Bytes, List, Option, Option-cases, [], arith, bytes_eq, drop, false, get_or, if◌then◌else◌,
  index_byte, inl, inr, length, ltb, none, refl, some, take, true, ℕ, ◌&&◌, ◌++◌, ◌==◌, ◌∷◌, ◌≡◌,
  ◌⊎◌, bytes_key,
}
use fast_server.Router.Radix.{Info, Node, Nodes, cons, nil, node, static}
use fast_server.Router.Radix.Lookup.{Lookup, at_child, at_last, get_value, here, missing}

-- What is left of `q` behind the prefix `p`.
pub strip : Bytes → Bytes → Option Bytes
strip [] q = some q
strip (a ∷ p) [] = none
strip (a ∷ p) (b ∷ q) = if a == b then strip p q else none

abbrev pub then_strip : Option Bytes → Bytes → Option Bytes
then_strip none r = none
then_strip (some q) r = strip r q

pub strip-append : (p r q : Bytes) → strip (p ++ r) q ≡ then_strip (strip p q) r
unfolding strip
strip-append [] r q = refl
strip-append (a ∷ p) r [] = refl
strip-append (a ∷ p) r (b ∷ q) = ground (arith, strip-append p r q)

-- The three ways in which a path stands to a prefix, as `getValue` tests them.
abbrev goes : Bytes → Bytes → Bool
goes p q = ltb (length p) (length q) && bytes_eq (take (length p) q) p

strip-none : (p q : Bytes) → strip p q ≡ none → (goes p q ≡ false) × (bytes_eq q p ≡ false)
unfolding strip bytes_eq
strip-none [] q e = cc
strip-none (a ∷ p) [] e = ground arith
strip-none (a ∷ p) (b ∷ q) e = ground (arith, strip-none p q)

strip-end : (p q : Bytes) → strip p q ≡ some [] → (goes p q ≡ false) × (bytes_eq q p ≡ true)
unfolding strip bytes_eq
strip-end [] [] e = (refl, refl)
strip-end [] (b ∷ q) e = cc
strip-end (a ∷ p) [] e = cc
strip-end (a ∷ p) (b ∷ q) e = ground (arith, strip-end p q)

strip-more :
    (p q r : Bytes) (c : ℕ)
    → strip p q ≡ some (c ∷ r)
    → (goes p q ≡ true) × (drop (length p) q ≡ c ∷ r)
unfolding strip bytes_eq
strip-more [] [] r c e = cc
strip-more [] (b ∷ q) r c e = ground arith
strip-more (a ∷ p) [] r c e = cc
strip-more (a ∷ p) (b ∷ q) r c e = ground (arith, strip-more p q r c)

pub strip-cases :
    (p q : Bytes)
    → (strip p q ≡ none)
      ⊎ (strip p q ≡ some [])
      ⊎ ((c : ℕ) × (r : Bytes) × (strip p q ≡ some (c ∷ r)))
strip-cases p q = elim (Option-cases (strip p q)) [
  | inl e ↦ inl e
  | inr ([], e) ↦ inr (inl e)
  | inr (c ∷ r, e) ↦ inr (inr (c, r, e))
]

module _ {H : Type 0} where
  abbrev pub StartsWith : ℕ → Node H → Type 0
  StartsWith b (node n cs) = (s : Bytes) × (n.path ≡ b ∷ s)

  abbrev mutual
    -- Every node is static, and the indices are the first bytes of the children.
    pub IsStatic : Node H → Type 0
    IsStatic (node n cs) = (n.kind ≡ static) × AreStatic cs n.indices

    pub AreStatic : Nodes H → Bytes → Type 0
    AreStatic nil [] = Unit
    AreStatic nil (b ∷ ix) = ⊥
    AreStatic (cons c cs) [] = ⊥
    AreStatic (cons c cs) (b ∷ ix) = StartsWith b c × IsStatic c × AreStatic cs ix

module _ {H : Type 0} (method : Bytes) where
  -- The child for the first byte of the path.
  pub pick : Nodes H → Bytes → Bytes → List (Bytes × Bytes) → Lookup H
  pick (cons c cs) (b ∷ ix) q params =
      if b == get_or q 0 0 then get_value method c q params else pick cs ix q params
  pick _ _ q params = missing

  abbrev choose : Nodes H → Option ℕ → Bytes → List (Bytes × Bytes) → Lookup H
  choose cs o q params = elim o [
    | some i ↦ at_child method cs i q params
    | none ↦ at_last method cs q params
  ]

  at_last-static :
      (cs : Nodes H) (ix q : Bytes) (params : List (Bytes × Bytes))
      → AreStatic cs ix
      → at_last method cs q params ≡ missing
  unfolding at_last
  at_last-static nil ix q params w = refl
  at_last-static (cons (node n ds) nil) (b ∷ ix) q params w = ground (arith, w.1.0)
  at_last-static (cons c (cons d ds)) (b ∷ ix) q params w =
      at_last-static (cons d ds) ix q params w.2
  at_last-static (cons c cs) [] q params w = elim w [ ]

  pick-choose :
      (cs : Nodes H) (ix q : Bytes) (params : List (Bytes × Bytes))
      → AreStatic cs ix
      → choose cs (index_byte (get_or q 0 0) ix) q params ≡ pick cs ix q params
  unfolding pick index_byte at_child at_last
  pick-choose nil [] q params w = refl
  pick-choose nil (b ∷ ix) q params w = elim w [ ]
  pick-choose (cons c cs) [] q params w = elim w [ ]
  pick-choose (cons c cs) (b ∷ ix) q params w = elim (Option-cases (index_byte (get_or q 0 0) ix)) [
    | inl e ↦ ground (
      arith,
      e,
      pick-choose cs ix q params w.2,
      at_last-static (cons c cs) (b ∷ ix) q params w,
      at_last-static cs ix q params w.2,
    )
    | inr (i, e) ↦ ground (arith, e, pick-choose cs ix q params w.2)
  ]

  -- What a node answers, by what is left of the path behind its own.
  abbrev pub answer : Info H → Nodes H → List (Bytes × Bytes) → Option Bytes → Lookup H
  answer n cs params none = missing
  answer n cs params (some []) = here method n params
  answer n cs params (some (c ∷ r)) = pick cs n.indices (c ∷ r) params

  pub get_value-static :
      (n : Info H) (cs : Nodes H) (q : Bytes) (params : List (Bytes × Bytes))
      → IsStatic (node n cs)
      → get_value method (node n cs) q params ≡ answer n cs params (strip n.path q)
  unfolding get_value
  get_value-static n cs q params w = elim (strip-cases n.path q) [
    | inl e ↦ ground (arith, e, strip-none n.path q e)
    | inr (inl e) ↦ ground (arith, e, strip-end n.path q e)
    | inr (inr (c, r, e)) ↦
        ground (arith, e, strip-more n.path q r c e, pick-choose cs n.indices (c ∷ r) params w.1)
  ]
