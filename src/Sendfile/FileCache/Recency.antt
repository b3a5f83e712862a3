-- ===== src/Sendfile/FileCache/Recency.antt =====
-- core/sendfile/sendfile.go: the list of paths by their last use.
use fast_server.Sendfile.FileCache.{back, remove, without_back}
use fast_server.Base.{
  Bool, Bool-cases, Bytes, List, [], ap, arith, bytes_eq, bytes_eq_iff, false, inl, inr, length,
  not, refl, sym, true, ◌&&◌, ◌+◌, ◌||◌, ◌∙◌, ◌∷◌, ◌≡◌, bytes_key,
}

abbrev pub listed : Bytes → List Bytes → Bool
listed path [] = false
listed path (p ∷ ps) = bytes_eq p path || listed path ps

abbrev pub Distinct : List Bytes → Type 0
Distinct [] = Unit
Distinct (p ∷ ps) = (listed p ps ≡ false) × Distinct ps

bytes_eq_sym : (p q : Bytes) → bytes_eq p q ≡ bytes_eq q p
bytes_eq_sym p q = ground (arith, bytes_eq_iff p q, bytes_eq_iff q p)

pub listed-remove :
    (path p : Bytes) (ps : List Bytes)
    → Distinct ps
    → listed p (remove path ps) ≡ listed p ps && not (bytes_eq path p)
unfolding remove
listed-remove path p [] d = refl
listed-remove path p (q ∷ ps) d =
    let s : listed path ps ≡ true → q ≡ path → listed q ps ≡ true =
      λ h e. ap (λ x. listed x ps) e ∙ h in
    elim (Bool-cases (bytes_eq q path)) [
      | inl same ↦
          let e : q ≡ path = (bytes_eq_iff q path).0 same in
          let f : bytes_eq q p ≡ bytes_eq path p = ap (λ x. bytes_eq x p) e in
          elim (Bool-cases (bytes_eq path p)) [
            | inl here ↦
                let g : listed p ps ≡ listed q ps =
                  ap (λ x. listed x ps) (sym (e ∙ (bytes_eq_iff path p).0 here)) in
                ground (arith, same, f, here, g, d.0)
            | inr there ↦ ground (arith, same, f, there)
          ]
      | inr other ↦
          let rest = listed-remove path p ps d.1 in
          elim (Bool-cases (bytes_eq q p)) [
            | inl here ↦
                let g : bytes_eq q path ≡ bytes_eq p path =
                  ap (λ x. bytes_eq x path) ((bytes_eq_iff q p).0 here) in
                ground (arith, other, rest, here, g, bytes_eq_sym p path)
            | inr there ↦ ground (arith, other, rest, there)
          ]
    ]

pub remove-Distinct : (path : Bytes) (ps : List Bytes) → Distinct ps → Distinct (remove path ps)
unfolding remove
remove-Distinct path [] d = tt
remove-Distinct path (p ∷ ps) d = elim (Bool-cases (bytes_eq p path)) [
  | inl same ↦ rw same d.1
  | inr other ↦
      rw other (ground (arith, d.0, listed-remove path p ps d.1), remove-Distinct path ps d.1)
]

pub length-remove :
    (path : Bytes) (ps : List Bytes)
    → listed path ps ≡ true
    → length (remove path ps) + 1 ≡ length ps
unfolding remove
length-remove path [] h = absurd (ground (arith, h))
length-remove path (p ∷ ps) h = elim (Bool-cases (bytes_eq p path)) [
  | inl same ↦ ground (arith, same)
  | inr other ↦ ground (arith, other, length-remove path ps (ground (arith, h, other)))
]

pub listed-back : (p : Bytes) (ps : List Bytes) → listed (back p ps) (p ∷ ps) ≡ true
listed-back p [] = ground (arith, bytes_eq_iff p p)
listed-back p (q ∷ ps) = ground (arith, listed-back q ps)

pub listed-without_back :
    (x p : Bytes) (ps : List Bytes)
    → Distinct (p ∷ ps)
    → listed x (without_back p ps) ≡ listed x (p ∷ ps) && not (bytes_eq (back p ps) x)
listed-without_back x p [] d = ground arith
listed-without_back x p (q ∷ ps) d =
    let rest = listed-without_back x q ps d.1 in
    elim (Bool-cases (bytes_eq (back q ps) x)) [
      | inl here ↦
          let e : back q ps ≡ x = (bytes_eq_iff (back q ps) x).0 here in
          let g : listed x (q ∷ ps) ≡ true =
            ap (λ y. listed y (q ∷ ps)) (sym e) ∙ listed-back q ps in
          let f : bytes_eq p x ≡ true → listed p (q ∷ ps) ≡ listed x (q ∷ ps) =
            λ h. ap (λ y. listed y (q ∷ ps)) ((bytes_eq_iff p x).0 h) in
          elim (Bool-cases (bytes_eq p x)) [
            | inl h ↦ absurd (ground (arith, f h, g, d.0))
            | inr h ↦ ground (arith, here, rest, h)
          ]
      | inr there ↦ ground (arith, there, rest)
    ]

pub without_back-Distinct :
    (p : Bytes) (ps : List Bytes) → Distinct (p ∷ ps) → Distinct (without_back p ps)
without_back-Distinct p [] d = tt
without_back-Distinct p (q ∷ ps) d =
    (ground (arith, d.0, listed-without_back p q ps d.1), without_back-Distinct q ps d.1)

pub length-without_back : (p : Bytes) (ps : List Bytes) → length (without_back p ps) ≡ length ps
length-without_back p [] = refl
length-without_back p (q ∷ ps) = ground (arith, length-without_back q ps)
