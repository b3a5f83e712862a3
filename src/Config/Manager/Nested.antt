-- ===== src/Config/Manager/Nested.antt =====
-- config/manager.go: a value of a nested object is found under the dotted path of its keys.
use fast_server.Config.Manager.{
  Entries, Manager, Tree, branch, entry, full_key, get_value, leaf, load_from_map, load_tree,
  no_entry, set_value,
}
use fast_server.Base.{
  All, Bool, Bool-cases, Bytes, Lacks, List, Option, [], ap, append-nil, append_assoc, arith,
  bytes_eq, bytes_eq_iff, bytes_eq_refl, false, if◌then◌else◌, inl, inr, lookup, lookup-insert,
  none, refl, some, true, ◌&&◌, ◌++◌, ◌==◌, ◌∙◌, ◌∷◌, ◌≡◌, ◌≢◌, bytes_key,
}

-- The keys of a path, behind the first, with a dot before each.
abbrev pub tail : List Bytes → Bytes
tail [] = []
tail (k ∷ ks) = b'.' ∷ (k ++ tail ks)

-- Whether a key is the given one, or goes on behind it with a dot.
abbrev pub extends : Bytes → Bytes → Bool
extends [] [] = true
extends [] (b ∷ x) = b == b'.'
extends (a ∷ full) [] = false
extends (a ∷ full) (b ∷ x) = a == b && extends full x

extends_refl : (full : Bytes) → extends full full ≡ true
extends_refl [] = refl
extends_refl (a ∷ full) = ground (arith, extends_refl full)

-- What goes on behind a longer key goes on behind its front.
extends-full_key :
    (full k x : Bytes) → extends (full ++ (b'.' ∷ k)) x ≡ true → extends full x ≡ true
extends-full_key [] k [] h = cc
extends-full_key [] k (b ∷ x) h = ground (arith, h)
extends-full_key (a ∷ full) k [] h = cc
extends-full_key (a ∷ full) k (b ∷ x) h = ground (arith, h, extends-full_key full k x)

extends-append :
    (full k x : Bytes) → extends (full ++ (b'.' ∷ k)) (full ++ (b'.' ∷ x)) ≡ extends k x
extends-append [] k x = ground arith
extends-append (a ∷ full) k x = ground (arith, extends-append full k x)

-- Neither of two keys without dots goes on behind the other.
extends-sibling :
    (k j : Bytes) (q : List Bytes)
    → Lacks b'.' k
    → Lacks b'.' j
    → bytes_eq j k ≡ false
    → extends k (j ++ tail q) ≡ false
unfolding bytes_eq
extends-sibling [] [] q hk hj e = cc
extends-sibling [] (b ∷ j) q hk hj e = ground (arith, hj.0)
extends-sibling (a ∷ k) [] [] hk hj e = refl
extends-sibling (a ∷ k) [] (c ∷ q) hk hj e = ground (arith, hk.0)
extends-sibling (a ∷ k) (b ∷ j) q hk hj e = ground (arith, e, extends-sibling k j q hk.1 hj.1)

longer-extends :
    (full k x : Bytes) → extends full x ≡ false → extends (full ++ (b'.' ∷ k)) x ≡ false
longer-extends full k x h = elim (Bool-cases (extends (full ++ (b'.' ∷ k)) x)) [
  | inl e ↦ absurd (ground (arith, h, extends-full_key full k x e))
  | inr e ↦ e
]

longer-ne-nil : (full k : Bytes) → full ++ (b'.' ∷ k) ≢ []
longer-ne-nil [] k = cc
longer-ne-nil (b ∷ full) k = cc

full_key-ne_nil : (full k : Bytes) → full ≢ [] → full_key full k ≡ full ++ (b'.' ∷ k)
full_key-ne_nil [] k n = absurd (n refl)
full_key-ne_nil (b ∷ full) k n = refl

extends-longer : (full k : Bytes) → extends (full ++ (b'.' ∷ k)) full ≡ false
extends-longer [] k = refl
extends-longer (a ∷ full) k = ground (arith, extends-longer full k)

bytes_eq-longer : (full x : Bytes) → bytes_eq full (full ++ (b'.' ∷ x)) ≡ false
unfolding bytes_eq
bytes_eq-longer [] x = refl
bytes_eq-longer (a ∷ full) x = ground (arith, bytes_eq-longer full x)

bytes_eq_comm : (s t : Bytes) → bytes_eq s t ≡ false → bytes_eq t s ≡ false
bytes_eq_comm s t h = elim (Bool-cases (bytes_eq t s)) [
  | inl e ↦ absurd (ground (arith, h, bytes_eq_iff s t, (bytes_eq_iff t s).0 e))
  | inr e ↦ e
]

module _ {V : Type 0} where
  abbrev pub IsAbsent : Bytes → Entries V → Type 0
  IsAbsent k no_entry = Unit
  IsAbsent k (entry j t es) = (bytes_eq j k ≡ false) × IsAbsent k es

  -- Keys that are not empty and have no dot, none twice in one object.
  unfoldable mutual
    pub IsKeyed : Tree V → Type 0
    IsKeyed (leaf v) = Unit
    IsKeyed (branch es) = AreKeyed es

    pub AreKeyed : Entries V → Type 0
    AreKeyed no_entry = Unit
    AreKeyed (entry k t es) = (k ≢ []) × Lacks b'.' k × IsKeyed t × IsAbsent k es × AreKeyed es

  -- The value at a path.
  unfoldable mutual
    pub tree_at : List Bytes → Tree V → Option V
    tree_at [] (leaf v) = some v
    tree_at [] (branch es) = none
    tree_at (k ∷ path) (leaf v) = none
    tree_at (k ∷ path) (branch es) = entry_at k path es

    pub entry_at : Bytes → List Bytes → Entries V → Option V
    entry_at k path no_entry = none
    entry_at k path (entry j t es) = if bytes_eq j k then tree_at path t else entry_at k path es

  lookup-set_value :
      (key x : Bytes) (v : V) (m : Manager V)
      → lookup x (set_value key v m).values ≡ (if bytes_eq key x then some v else lookup x m.values)
  unfolding set_value
  lookup-set_value key x v m = lookup-insert key x v m.values

  -- Loading a value touches only the keys that go on behind its own.
  mutual
    unfolding load_tree

    load_tree-other :
        (full x : Bytes) (t : Tree V) (m : Manager V)
        → full ≢ []
        → extends full x ≡ false
        → lookup x (load_tree full t m).values ≡ lookup x m.values
    load_tree-other full x (leaf v) m n h =
        ground (arith, lookup-set_value full x v m, bytes_eq_iff full x, extends_refl full, h)
    load_tree-other full x (branch es) m n h = load_from_map-other full x es m n h

    load_from_map-other :
        (full x : Bytes) (es : Entries V) (m : Manager V)
        → full ≢ []
        → extends full x ≡ false
        → lookup x (load_from_map full es m).values ≡ lookup x m.values
    load_from_map-other full x no_entry m n h = refl
    load_from_map-other full x (entry k t es) m n h =
        load_from_map-other full x es (load_tree (full_key full k) t m) n h
        ∙ ap (λ y. lookup x (load_tree y t m).values) (full_key-ne_nil full k n)
        ∙ load_tree-other (full ++ (b'.' ∷ k)) x t m (longer-ne-nil full k)
            (longer-extends full k x h)

  abbrev pub or_else : Option V → Option V → Option V
  or_else none o = o
  or_else (some v) o = some v

  IsAbsent-eq : {j k : Bytes} (es : Entries V) → j ≡ k → IsAbsent j es → IsAbsent k es
  IsAbsent-eq es e w = rw (← e) w

  entry_at-IsAbsent :
      (k : Bytes) (path : List Bytes) (es : Entries V) → IsAbsent k es → entry_at k path es ≡ none
  unfolding entry_at
  entry_at-IsAbsent k path no_entry h = refl
  entry_at-IsAbsent k path (entry j t es) h = ground (arith, h.0, entry_at-IsAbsent k path es h.1)

  load_from_map_self :
      (full : Bytes) (es : Entries V) (m : Manager V)
      → full ≢ []
      → lookup full (load_from_map full es m).values ≡ lookup full m.values
  unfolding load_from_map
  load_from_map_self full no_entry m n = refl
  load_from_map_self full (entry k t es) m n =
      load_from_map_self full es (load_tree (full_key full k) t m) n
      ∙ ap (λ y. lookup full (load_tree y t m).values) (full_key-ne_nil full k n)
      ∙ load_tree-other (full ++ (b'.' ∷ k)) full t m (longer-ne-nil full k) (extends-longer full k)

  -- What the keys of the path spell, behind a full key.
  mutual
    unfolding load_tree tree_at IsKeyed

    load_tree-at :
        (full : Bytes) (path : List Bytes) (t : Tree V) (m : Manager V)
        → full ≢ []
        → All (Lacks b'.') path
        → IsKeyed t
        → lookup (full ++ tail path) (load_tree full t m).values
          ≡ or_else (tree_at path t) (lookup (full ++ tail path) m.values)
    load_tree-at full [] (leaf v) m n d w =
        ground (arith, lookup-set_value full (full ++ []) v m, append-nil full, bytes_eq_refl full)
    load_tree-at full (k ∷ path) (leaf v) m n d w = ground (
      arith,
      lookup-set_value full (full ++ (b'.' ∷ (k ++ tail path))) v m,
      bytes_eq-longer full (k ++ tail path),
    )
    load_tree-at full [] (branch es) m n d w = rw (append-nil full) (load_from_map_self full es m n)
    load_tree-at full (k ∷ path) (branch es) m n d w = load_behind full k path es m n d.0 d.1 w

    load_behind :
        (full k : Bytes) (path : List Bytes) (es : Entries V) (m : Manager V)
        → full ≢ []
        → Lacks b'.' k
        → All (Lacks b'.') path
        → AreKeyed es
        → lookup (full ++ (b'.' ∷ (k ++ tail path))) (load_from_map full es m).values
          ≡ or_else (entry_at k path es) (lookup (full ++ (b'.' ∷ (k ++ tail path))) m.values)
    load_behind full k path no_entry m n c d w = refl
    load_behind full k path (entry j t es) m n c d w =
        let x = full ++ (b'.' ∷ (k ++ tail path)) in
        let front = full ++ (b'.' ∷ j) in
        let later = load_behind full k path es (load_tree (full_key full j) t m) n c d w.4 in
        let keyed : lookup x (load_tree (full_key full j) t m).values
            ≡ lookup x (load_tree front t m).values =
          ap (λ y. lookup x (load_tree y t m).values) (full_key-ne_nil full j n) in
        elim (Bool-cases (bytes_eq j k)) [
          | inl same ↦
              let e : j ≡ k = (bytes_eq_iff j k).0 same in
              let gone = entry_at-IsAbsent k path es (IsAbsent-eq es e w.3) in
              let here = load_tree-at front path t m (longer-ne-nil full j) d w.2 in
              let spelt : front ++ tail path ≡ x =
                append_assoc full (b'.' ∷ j) (tail path)
                ∙ ap (λ y. full ++ (b'.' ∷ (y ++ tail path))) e in
              let moved = rw spelt at here in ground (arith, same, later, gone, keyed, moved)
          | inr other ↦
              let apart = load_tree-other front x t m (longer-ne-nil full j) (
                extends-append full j (k ++ tail path)
                ∙ extends-sibling j k path w.1 c (bytes_eq_comm j k other)) in
              ground (arith, other, later, keyed, apart)
        ]

  -- From an object whose keys are not empty, have no dot and stand once, a value is found under the keys
  -- of its path, joined by dots; under other such paths the manager has what it had.
  pub load_from_map-entry_at :
      (es : Entries V) (k : Bytes) (path : List Bytes) (m : Manager V)
      → AreKeyed es
      → Lacks b'.' k
      → All (Lacks b'.') path
      → get_value (k ++ tail path) (load_from_map [] es m)
        ≡ or_else (entry_at k path es) (get_value (k ++ tail path) m)
  unfolding load_from_map entry_at AreKeyed
  load_from_map-entry_at no_entry k path m w c d = refl
  load_from_map-entry_at (entry j t es) k path m w c d =
      let later = load_from_map-entry_at es k path (load_tree j t m) w.4 c d in
      elim (Bool-cases (bytes_eq j k)) [
        | inl same ↦
            let e : j ≡ k = (bytes_eq_iff j k).0 same in
            let gone = entry_at-IsAbsent k path es (IsAbsent-eq es e w.3) in
            let spelt : j ++ tail path ≡ k ++ tail path = ap (λ y. y ++ tail path) e in
            let here = rw spelt at (load_tree-at j path t m w.0 d w.2) in
            rw same ((rw gone at later) ∙ here)
        | inr other ↦
            let apart =
              load_tree-other j (k ++ tail path) t m w.0
                (extends-sibling j k path w.1 c (bytes_eq_comm j k other)) in
            ground (arith, other, later, apart)
      ]
