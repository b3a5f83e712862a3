-- ===== src/Sendfile/FileCache/Sound.antt =====
-- core/sendfile/sendfile.go: the cache keeps to its limit and has its files open.
use fast_server.Sendfile.FileCache.{FileCache, evict, get, move_to_front, set_open}
use fast_server.Base.{
  Bool-cases, Bytes, Option, Option-cases, ap, arith, bytes_eq, bytes_eq_iff, false, inl, inr,
  insert, lookup, lookup-insert, none, some, sym, true, ℕ, ◌==◌, ◌∙◌, ◌≡◌, bytes_key,
}
use fast_server.Sendfile.FileCache.Recency.{listed, listed-remove, remove-Distinct, length-remove}
use fast_server.Sendfile.FileCache.Evict.{IsSound, Stands, evict-IsSound, evict-first}

opened-Stands :
    (path : Bytes) (file : ℕ) (fc : FileCache)
    → IsSound fc
    → lookup path fc.cache ≡ none
    → fc.is_open file ≡ false
    → Stands path fc.lru_list
        (record fc { cache = insert path file fc.cache; is_open = set_open file true fc.is_open })
opened-Stands path file fc w n c =
    let used : (x : Bytes) (f : ℕ) → lookup x fc.cache ≡ some f → (f == file) ≡ false = λ x f h.
      elim (Bool-cases (f == file)) [
        | inl s ↦
            let e : f ≡ file = ground (arith, s) in
            absurd (ground (arith, c, ap fc.is_open e, w.opens x f h))
        | inr o ↦ o
      ] in
    record {
      some_file = w.some_file;
      distinct = (ground (arith, n, w.same path), w.distinct);
      same = λ x. ground (arith, lookup-insert path x file fc.cache, w.same x);
      apart = λ x y f h k. apart_new used x y f h k;
      opens = λ x f h. elim (Bool-cases (bytes_eq path x)) [
        | inl s ↦ ground (arith, s, h, lookup-insert path x file fc.cache)
        | inr o ↦
            let l : lookup x fc.cache ≡ some f =
              ground (arith, o, h, lookup-insert path x file fc.cache) in
            ground (arith, used x f l, w.opens x f l)
      ];
      few = w.few;
    }
  where
    apart_new :
        ((x : Bytes) (f : ℕ) → lookup x fc.cache ≡ some f → (f == file) ≡ false)
        → (x y : Bytes) (f : ℕ) → lookup x (insert path file fc.cache) ≡ some f
        → lookup y (insert path file fc.cache) ≡ some f
        → x ≡ y
    apart_new used x y f h k =
        let hx = lookup-insert path x file fc.cache in
        let hy = lookup-insert path y file fc.cache in
        elim (Bool-cases (bytes_eq path x)) [
          | inl s ↦ elim (Bool-cases (bytes_eq path y)) [
            | inl t ↦ sym ((bytes_eq_iff path x).0 s) ∙ (bytes_eq_iff path y).0 t
            | inr t ↦
                let l : lookup y fc.cache ≡ some f = ground (arith, t, k, hy) in
                absurd (ground (arith, s, h, hx, used y f l))
          ]
          | inr s ↦
              let l : lookup x fc.cache ≡ some f = ground (arith, s, h, hx) in
              elim (Bool-cases (bytes_eq path y)) [
                | inl t ↦ absurd (ground (arith, t, k, hy, used x f l))
                | inr t ↦
                    let m : lookup y fc.cache ≡ some f = ground (arith, t, k, hy) in
                    w.apart x y f l m
              ]
        ]

moved-IsSound :
    (path : Bytes) (fc : FileCache)
    → IsSound fc
    → listed path fc.lru_list ≡ true
    → IsSound (record fc { lru_list = move_to_front path fc.lru_list })
moved-IsSound path fc w l = record {
  some_file = w.some_file;
  distinct = (
    ground (arith, listed-remove path path fc.lru_list w.distinct, bytes_eq_iff path path),
    remove-Distinct path fc.lru_list w.distinct,
  );
  same = λ x. elim (Bool-cases (bytes_eq path x)) [
    | inl s ↦
        let e : listed path fc.lru_list ≡ listed x fc.lru_list =
          ap (λ y. listed y fc.lru_list) ((bytes_eq_iff path x).0 s) in
        ground (arith, s, e, l, w.same x)
    | inr o ↦ ground (arith, o, listed-remove path x fc.lru_list w.distinct, w.same x)
  ];
  apart = w.apart;
  opens = w.opens;
  few = ground (arith, length-remove path fc.lru_list l, w.few);
}

-- What a call of Get leaves, and that its file is the open file of the path's entry.
abbrev Serves : Bytes → Option ℕ × FileCache → Type 0
Serves path r =
    IsSound r.1
    × ((f : ℕ) → r.0 ≡ some f → (lookup path r.1.cache ≡ some f) × (r.1.is_open f ≡ true))

Serves-eq :
    (path : Bytes) {r : Option ℕ × FileCache} (s : Option ℕ × FileCache)
    → s ≡ r
    → Serves path s
    → Serves path r
Serves-eq path s e w = rw (← e) w

fetch-Serves :
    (path : Bytes) (file : ℕ) (fc : FileCache)
    → Stands path fc.lru_list fc
    → lookup path fc.cache ≡ some file
    → Serves path (some file, evict path fc.lru_list fc)
fetch-Serves path file fc w l =
    let sound = evict-IsSound path fc.lru_list fc w in
    let there : lookup path (evict path fc.lru_list fc).cache ≡ some file =
      evict-first path fc.lru_list fc w ∙ l in
    (
      sound,
      λ f h.
          let l' : lookup path (evict path fc.lru_list fc).cache ≡ some f = there ∙ h in
          (l', sound.opens path f l'),
    )

-- If what is opened anew is a file that was not open, Get leaves the cache sound: its list and its entries
-- have the same paths, each once and no more than the limit, with files of their own that are open; and
-- the file that it gives is the one of the path's entry, and open.
pub get-IsSound :
    (path : Bytes) (opened : Option ℕ) (fc : FileCache)
    → IsSound fc
    → ((f : ℕ) → opened ≡ some f → fc.is_open f ≡ false)
    → IsSound (get path opened fc).1
      × ((f : ℕ)
          → (get path opened fc).0 ≡ some f
          → (lookup path (get path opened fc).1.cache ≡ some f)
            × ((get path opened fc).1.is_open f ≡ true))
unfolding get
get-IsSound path opened fc w c = elim (Option-cases (lookup path fc.cache)) [
  | inr (file, l) ↦
      let moved = moved-IsSound path fc w (ground (arith, l, w.same path)) in
      Serves-eq path (some file, record fc { lru_list = move_to_front path fc.lru_list })
        (ground (arith, l))
        (moved, λ f h. let l' : lookup path fc.cache ≡ some f = l ∙ h in (l', w.opens path f l'))
  | inl n ↦ elim (Option-cases opened) [
    | inl e ↦
        Serves-eq path (none, fc) (ground (arith, n, e)) (w, λ f h. absurd (ground (arith, h)))
    | inr (file, o) ↦
        let next = record fc {
          cache = insert path file fc.cache;
          is_open = set_open file true fc.is_open;
        } in
        Serves-eq path (some file, evict path fc.lru_list next) (ground (arith, n, o))
          (fetch-Serves path file next (opened-Stands path file fc w n (c file o))
            (ground (arith, lookup-insert path path file fc.cache, bytes_eq_iff path path)))
  ]
]
