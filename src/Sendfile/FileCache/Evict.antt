-- ===== src/Sendfile/FileCache/Evict.antt =====
-- core/sendfile/sendfile.go: what the cache keeps, and the eviction of the oldest file.
use fast_server.Sendfile.FileCache.{FileCache, back, evict, set_open, without_back}
use fast_server.Base.{
  Bool, Bool-cases, Bytes, List, Option-cases, [], ap, arith, bytes_eq, bytes_eq_iff, delete, false,
  inl, inr, length, lookup, lookup-delete, ltb, none, some, sym, true, ℕ, ◌<◌, ◌==◌, ◌∙◌, ◌∷◌, ◌≡◌,
  ◌≤◌, bytes_key,
}
use fast_server.Sendfile.FileCache.Recency.{
  Distinct, listed, listed-back, listed-without_back, without_back-Distinct, length-without_back,
}

abbrev is_cached : Bytes → List (Bytes × ℕ) → Bool
is_cached path cache = elim (lookup path cache) [ none ↦ false | some f ↦ true ]

-- Each path of the list has an entry and stands once, no two entries share a file, all files of entries
-- are open, and there are no more than the limit.
pub record IsSound (fc : FileCache) : Type 0 where
  pub some_file : 0 < fc.max_files
  pub distinct : Distinct fc.lru_list
  pub same : (path : Bytes) → is_cached path fc.cache ≡ listed path fc.lru_list
  pub apart :
      (p q : Bytes) (f : ℕ) → lookup p fc.cache ≡ some f → lookup q fc.cache ≡ some f → p ≡ q
  pub opens : (p : Bytes) (f : ℕ) → lookup p fc.cache ≡ some f → fc.is_open f ≡ true
  pub few : length fc.lru_list ≤ fc.max_files

IsSound-eq : {u : FileCache} (v : FileCache) → v ≡ u → IsSound v → IsSound u
IsSound-eq v e w = rw (← e) w

-- What is still cached after a deletion.
lookup_left :
    (b x : Bytes) (f : ℕ) (cache : List (Bytes × ℕ))
    → lookup x (delete b cache) ≡ some f
    → (lookup x cache ≡ some f) × (bytes_eq b x ≡ false)
lookup_left b x f cache h =
    (ground (arith, h, lookup-delete b x cache), ground (arith, h, lookup-delete b x cache))

-- A cache whose list should be the given one, at most one too long.
pub record Stands (p : Bytes) (ps : List Bytes) (fc : FileCache) : Type 0 where
  pub some_file : 0 < fc.max_files
  pub distinct : Distinct (p ∷ ps)
  pub same : (path : Bytes) → is_cached path fc.cache ≡ listed path (p ∷ ps)
  pub apart :
      (x y : Bytes) (f : ℕ) → lookup x fc.cache ≡ some f → lookup y fc.cache ≡ some f → x ≡ y
  pub opens : (x : Bytes) (f : ℕ) → lookup x fc.cache ≡ some f → fc.is_open f ≡ true
  pub few : length ps ≤ fc.max_files

evicted-IsSound :
    (p : Bytes) (ps : List Bytes) (fc : FileCache) (file : ℕ)
    → Stands p ps fc
    → lookup (back p ps) fc.cache ≡ some file
    → IsSound (record fc {
      cache = delete (back p ps) fc.cache;
      lru_list = without_back p ps;
      is_open = set_open file false fc.is_open;
    })
evicted-IsSound p ps fc file w l =
    let b = back p ps in
    record {
      some_file = w.some_file;
      distinct = without_back-Distinct p ps w.distinct;
      same = λ x.
          ground
            (arith, lookup-delete b x fc.cache, listed-without_back x p ps w.distinct, w.same x);
      apart = λ x y f h k.
          w.apart x y f (lookup_left b x f fc.cache h).0 (lookup_left b y f fc.cache k).0;
      opens = λ x f h. elim (Bool-cases (f == file)) [
        | inl s ↦
            let e : f ≡ file = ground (arith, s) in
            let here : lookup b fc.cache ≡ some f = l ∙ ap some (sym e) in
            absurd (
              ground (
                arith,
                (lookup_left b x f fc.cache h).1,
                bytes_eq_iff b x,
                w.apart b x f here (lookup_left b x f fc.cache h).0,
              ))
        | inr n ↦ ground (arith, n, w.opens x f (lookup_left b x f fc.cache h).0)
      ];
      few = ground (arith, length-without_back p ps, w.few);
    }

pub evict-IsSound :
    (p : Bytes) (ps : List Bytes) (fc : FileCache) → Stands p ps fc → IsSound (evict p ps fc)
unfolding evict
evict-IsSound p ps fc w = elim (Bool-cases (ltb fc.max_files (length (p ∷ ps)))) [
  | inr fits ↦
      IsSound-eq (record fc { lru_list = p ∷ ps }) (ground (arith, fits))
        (record {
          some_file = w.some_file;
          distinct = w.distinct;
          same = w.same;
          apart = w.apart;
          opens = w.opens;
          few = ground (arith, fits);
        })
  | inl full ↦ elim (Option-cases (lookup (back p ps) fc.cache)) [
    | inl l ↦ absurd (ground (arith, l, w.same (back p ps), listed-back p ps))
    | inr (file, l) ↦
        IsSound-eq
          (record fc {
            cache = delete (back p ps) fc.cache;
            lru_list = without_back p ps;
            is_open = set_open file false fc.is_open;
          })
          (ground (arith, full, l)) (evicted-IsSound p ps fc file w l)
  ]
]

-- The entry of the first path stays, if there may be one.
back-first :
    (p : Bytes) (ps : List Bytes)
    → Distinct (p ∷ ps)
    → 0 < length ps
    → bytes_eq (back p ps) p ≡ false
back-first p [] d l = absurd (omega (arith, l))
back-first p (q ∷ ps) d l = elim (Bool-cases (bytes_eq (back q ps) p)) [
  | inl h ↦
      let e : back q ps ≡ p = (bytes_eq_iff (back q ps) p).0 h in
      absurd (ground (arith, d.0, ap (λ x. listed x (q ∷ ps)) (sym e) ∙ listed-back q ps))
  | inr h ↦ h
]

pub evict-first :
    (p : Bytes) (ps : List Bytes) (fc : FileCache)
    → Stands p ps fc
    → lookup p (evict p ps fc).cache ≡ lookup p fc.cache
unfolding evict
evict-first p ps fc w = elim (Bool-cases (ltb fc.max_files (length (p ∷ ps)))) [
  | inr fits ↦ ground (arith, fits)
  | inl full ↦ elim (Option-cases (lookup (back p ps) fc.cache)) [
    | inl l ↦ ground (arith, full, l)
    | inr (file, l) ↦ ground (
      arith,
      full,
      l,
      lookup-delete (back p ps) p fc.cache,
      back-first p ps w.distinct (ground (arith, full, w.some_file)),
    )
  ]
]
