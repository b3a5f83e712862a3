-- ===== src/Router/Compiled/Cache.antt =====
-- core/router/compiled.go: `Find` behind its cache answers as `Find` without one, as long as no route
-- is added.
use fast_server.Router.Compiled.{
  CachedResult, CompiledRouter, cache_key, clear_cache, find, find_param_route, find_static,
  find_wildcard_route, store,
}
use fast_server.Base.{
  All, Bool-cases, Bytes, Lacks, List, Option-cases, [], ap, ap₂, arith, bytes_eq, bytes_eq_iff,
  drop, drop_past, index_byte-append, inl, inr, length, lookup, lookup-insert, map, none, refl,
  some, sym, take, take-append, ◌+◌, ◌∙◌, ◌∷◌, ◌≡◌, bytes_key,
}
use fast_server.Router.Radix.Lookup.{Lookup, Lookup-cases, found, missing}

take-key : (m p : Bytes) → take (length m) (cache_key m p) ≡ m
take-key m p = take-append (length m) m (b':' ∷ p) refl

-- A key gives back a method without ':' and the path.
cache_key-injective :
    (m n p q : Bytes)
    → Lacks b':' m
    → Lacks b':' n
    → cache_key m p ≡ cache_key n q
    → (m ≡ n) × (p ≡ q)
cache_key-injective m n p q lm ln e =
    let e' : length m ≡ length n =
      ground (arith, e, index_byte-append b':' m p lm, index_byte-append b':' n q ln) in
    (
      sym (take-key m p)
          ∙ ap (take (length m)) e
          ∙ ap (λ i. take i (cache_key n q)) e'
          ∙ take-key n q,
      sym (drop_past m b':' p)
          ∙ ap (drop (length m + 1)) e
          ∙ ap (λ i. drop (i + 1) (cache_key n q)) e'
          ∙ drop_past n b':' q,
    )

-- A request whose method has no ':'.
abbrev pub HasToken : Bytes × Bytes → Type 0
HasToken (m, path) = Lacks b':' m

module _ {H : Type 0} where
  -- What `Find` answers if the cache is empty.
  unfoldable pub answer : CompiledRouter H → Bytes → Bytes → Lookup H
  answer r m path = elim (find_static m r path) [
    | some h ↦ found h []
    | none ↦ elim (find_param_route m r.param_routes path) [
      | missing ↦ find_wildcard_route m r.wildcard_routes path
      | ended ↦ ended
    ]
  ]

  -- Every answer in the cache is the one that the routes give.
  abbrev pub IsFresh : CompiledRouter H → Type 0
  IsFresh r =
      (m path : Bytes) (c : CachedResult H)
      → Lacks b':' m
      → lookup (cache_key m path) r.cache ≡ some c
      → answer r m path ≡ found c.handler c.params

  pub clear_cache-IsFresh : (r : CompiledRouter H) → IsFresh (clear_cache r)
  unfolding lookup
  clear_cache-IsFresh r m path c l e = cc

  answer-store :
      (r : CompiledRouter H) (m n p q : Bytes) (h : H) (params : List (Bytes × Bytes))
      → answer (store m p h params r) n q ≡ answer r n q
  unfolding answer
  answer-store r m n p q h params = refl

  -- An answer may be kept under its own key.
  store-IsFresh :
      (r : CompiledRouter H) (m path : Bytes) (h : H) (params : List (Bytes × Bytes))
      → IsFresh r
      → Lacks b':' m
      → answer r m path ≡ found h params
      → IsFresh (store m path h params r)
  store-IsFresh r m path h params w l e n q c k g =
      elim (Bool-cases (bytes_eq (cache_key m path) (cache_key n q))) [
        | inl same ↦
            let f : (m ≡ n) × (path ≡ q) =
              cache_key-injective m n path q l k
                ((bytes_eq_iff (cache_key m path) (cache_key n q)).0 same) in
            let s : some (record { handler = h; params = params }) ≡ some c = ground (
              arith,
              same,
              g,
              lookup-insert (cache_key m path) (cache_key n q)
                  (record { handler = h; params = params }) r.cache,
            ) in
            answer-store r m n path q h params ∙ ground (arith, s, e, ap₂ (answer r) (f.0) (f.1))
        | inr other ↦
            answer-store r m n path q h params
            ∙ w n q c k (
                ground (
                  arith,
                  other,
                  g,
                  lookup-insert (cache_key m path) (cache_key n q)
                      (record { handler = h; params = params }) r.cache,
                ))
      ]

  -- The routes of two routers answer alike.
  abbrev Alike : CompiledRouter H → CompiledRouter H → Type 0
  Alike r u = (m path : Bytes) → answer u m path ≡ answer r m path

  -- A call has the answer, and it leaves a cache that is fresh, and the routes.
  abbrev Good : CompiledRouter H → Bytes → Bytes → Lookup H × CompiledRouter H → Type 0
  Good r m path x = (x.0 ≡ answer r m path) × IsFresh x.1 × Alike r x.1

  module _ (r : CompiledRouter H) (m path : Bytes) (w : IsFresh r) (l : Lacks b':' m) where
    unstored : (a : Lookup H) → a ≡ answer r m path → Good r m path (a, r)
    unstored a e = (e, w, λ n q. refl)

    stored :
        (h : H) (ps : List (Bytes × Bytes))
        → answer r m path ≡ found h ps
        → Good r m path (found h ps, store m path h ps r)
    stored h ps e =
        (sym e, store-IsFresh r m path h ps w l e, λ n q. answer-store r m n path q h ps)

    Good-find :
        (x : Lookup H × CompiledRouter H)
        → find m r path ≡ x
        → Good r m path x
        → Good r m path (find m r path)
    Good-find x e g = rw e g

    find-params :
        lookup (cache_key m path) r.cache ≡ none
        → find_static m r path ≡ none
        → Good r m path (find m r path)
    unfolding find answer
    find-params absent e = elim (Lookup-cases (find_param_route m r.param_routes path)) [
      | inl f ↦
          Good-find (find_wildcard_route m r.wildcard_routes path, r) (ground (arith, absent, e, f))
            (unstored _ (ground (arith, e, f)))
      | inr (inl f) ↦
          Good-find (Lookup.bad_index, r) (ground (arith, absent, e, f))
            (unstored _ (ground (arith, e, f)))
      | inr (inr (h, ps, f)) ↦
          Good-find (found h ps, store m path h ps r) (ground (arith, absent, e, f))
            (stored h ps (ground (arith, e, f)))
    ]

    pub find-Good : Good r m path (find m r path)
    unfolding find answer
    find-Good = elim (Option-cases (lookup (cache_key m path) r.cache)) [
      | inl absent ↦ elim (Option-cases (find_static m r path)) [
        | inl e ↦ find-params absent e
        | inr (h, e) ↦
            Good-find (found h [], store m path h [] r) (ground (arith, absent, e))
              (stored h [] (ground (arith, e)))
      ]
      | inr (c, e) ↦
          Good-find (found c.handler c.params, r) (ground (arith, e))
            (unstored _ (sym (w m path c l e)))
    ]

  -- Requests, one after another.
  pub find_all : List (Bytes × Bytes) → CompiledRouter H → List (Lookup H)
  find_all [] r = []
  find_all ((m, path) ∷ requests) r = let (a, u) = find m r path in a ∷ find_all requests u

  map-Alike :
      (r u : CompiledRouter H) (requests : List (Bytes × Bytes))
      → Alike r u
      → map (λ (m, path). answer u m path) requests ≡ map (λ (m, path). answer r m path) requests
  map-Alike r u [] k = refl
  map-Alike r u ((m, path) ∷ requests) k = ap₂ ◌∷◌ (k m path) (map-Alike r u requests k)

  -- A router with a fresh cache answers requests, whose methods have no ':', as it would without a
  -- cache, in any order and however often.
  pub find_all-answer :
      (requests : List (Bytes × Bytes)) (r : CompiledRouter H)
      → IsFresh r
      → All HasToken requests
      → find_all requests r ≡ map (λ (m, path). answer r m path) requests
  unfolding find_all
  find_all-answer [] r w t = refl
  find_all-answer ((m, path) ∷ requests) r w t =
      let g = find-Good r m path w t.0 in
      ap₂ ◌∷◌ g.0 (
        find_all-answer requests (find m r path).1 g.1 t.1
        ∙ map-Alike r (find m r path).1 requests g.2)
