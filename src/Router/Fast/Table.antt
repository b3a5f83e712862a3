-- ===== src/Router/Fast/Table.antt =====
-- core/router/fast.go: on routes without wildcards the router is a table from method and path to
-- handler, as far as the hash tells the routes apart.
use fast_server.Base.{
  All, Bool, Bool-cases, Bytes, List, [], ap, arith, bytes_eq, bytes_eq_iff, false, if◌then◌else◌,
  inl, inr, insert, length, lookup, lookup-insert, refl, some, sym, true, ℕ, ◌&&◌, ◌++◌, ◌==◌, ◌↔◌,
  ◌∙◌, ◌∷◌, ◌≡◌, nat_eq,
}
use fast_server.Router.Fast.{
  FastRouter, add, contains, count, find, find_behind, find_param_route, fnv_offset, get,
  hash_bytes, hash_route, health_path, new_fast_router, ping_path,
}
use fast_server.Router.Radix.{Node, new_router, no_wild}
use fast_server.Router.Radix.Insert.{Added, added, ◌>>=◌}
use fast_server.Router.Radix.Lookup.{Lookup, found, missing}
use fast_server.Router.Radix.Lookup
use fast_server.Router.Radix.Static
use fast_server.Router.Radix.Static.Table.{IsPlain, Route, find-new_router, find-register, resolve}

-- The hash does not see where the method ends and the path begins.
pub hash_bytes-append :
    (s t : Bytes) (hash : ℕ) → hash_bytes hash (s ++ t) ≡ hash_bytes (hash_bytes hash s) t
unfolding hash_bytes
hash_bytes-append [] t hash = refl
hash_bytes-append (b ∷ s) t hash = hash_bytes-append s t _

pub hash_route-append :
    (method path : Bytes) → hash_route method path ≡ hash_bytes fnv_offset (method ++ path)
unfolding hash_route
hash_route-append method path = sym (hash_bytes-append method path fnv_offset)

count-no_wild : (s : Bytes) → no_wild s ≡ true → (count b':' s ≡ 0) × (count b'*' s ≡ 0)
unfolding no_wild
count-no_wild [] h = (refl, refl)
count-no_wild (c ∷ s) h = ground (arith, count-no_wild s)

contains-no_wild :
    (s : Bytes) → no_wild s ≡ true → (contains b':' s ≡ false) × (contains b'*' s ≡ false)
contains-no_wild s h = ground (arith, count-no_wild s h)

length-eq : (s t : Bytes) (n : ℕ) → length t ≡ n → bytes_eq s t ≡ true → (length s == n) ≡ true
length-eq s t n e h = ground (arith, ap length ((bytes_eq_iff s t).0 h))

health_not_ping : (p : Bytes) → bytes_eq p health_path ≡ true → bytes_eq p ping_path ≡ false
unfolding bytes_eq
health_not_ping p h = rw ((bytes_eq_iff p health_path).0 h) refl

abbrev Known : Bytes → Bytes → Type 0
Known m p =
    ((bytes_eq m get ≡ true) ↔ (m ≡ get))
    × ((bytes_eq p health_path ≡ true) ↔ (p ≡ health_path))
    × ((bytes_eq p ping_path ≡ true) ↔ (p ≡ ping_path))
    × (bytes_eq p health_path ≡ true → (length p == 7) ≡ true)
    × (bytes_eq p ping_path ≡ true → (length p == 5) ≡ true)
    × (bytes_eq p health_path ≡ true → bytes_eq p ping_path ≡ false)

pair-Known : (m p : Bytes) → Known m p
pair-Known m p = (
  bytes_eq_iff m get,
  bytes_eq_iff p health_path,
  bytes_eq_iff p ping_path,
  length-eq p health_path 7 refl,
  length-eq p ping_path 5 refl,
  health_not_ping p,
)

module _ {H : Type 0} where
  -- No wildcard route has been registered.
  pub record IsTable (r : FastRouter H) : Type 0 where
    pub no_params : r.param_routes ≡ []
    pub no_tree : r.radix ≡ new_router

  -- A route with the hash of a request is the route of the request.
  abbrev pub Apart : Bytes → Bytes → Route H → Type 0
  Apart m q route =
      hash_route route.method route.path ≡ hash_route m q
      → (bytes_eq route.method m ≡ true) × (bytes_eq route.path q ≡ true)

  abbrev same : Route H → Bytes → Bytes → Bool
  same route m q = bytes_eq route.method m && bytes_eq route.path q

  find_behind-IsTable : (r : FastRouter H) (m q : Bytes) → IsTable r → find_behind r m q ≡ missing
  unfolding find_param_route
  find_behind-IsTable r m q w = rw (w.no_params, w.no_tree) (find-new_router m q)

  abbrev Facts : Route H → Bytes → Bytes → Type 0
  Facts route m q =
      ((bytes_eq route.method m ≡ true) ↔ (route.method ≡ m))
      × ((bytes_eq route.path q ≡ true) ↔ (route.path ≡ q))

  -- A registered table in which the routes stand as they were registered.
  abbrev AddedTo : Route H → Bytes → Bytes → FastRouter H → Type 0
  AddedTo route m q r =
      (u : FastRouter H) × (add route.method route.path route.handler r ≡ added u)
      × (IsTable u)
      × (find u m q ≡ (if same route m q then found route.handler [] else find r m q))

  same-Facts : (route : Route H) (m q : Bytes) → Facts route m q
  same-Facts route m q = (bytes_eq_iff route.method m, bytes_eq_iff route.path q)

  add-AddedTo :
      (route : Route H) (m q : Bytes) (r : FastRouter H)
      → IsPlain route
      → IsTable r
      → Apart m q route
      → AddedTo route m q r
  unfolding add find
  add-AddedTo route m q r p w a =
      elim (Bool-cases (bytes_eq route.method get && bytes_eq route.path health_path)) [
        | inl h ↦ (
          record r { has_health_check = true; health_handler = some route.handler },
          ground arith,
          record { no_params = w.no_params; no_tree = w.no_tree },
          ground (arith, same-Facts route m q, pair-Known route.method route.path, pair-Known m q),
        )
        | inr n ↦ elim (Bool-cases (bytes_eq route.method get && bytes_eq route.path ping_path)) [
          | inl h ↦ (
            record r { has_ping = true; ping_handler = some route.handler },
            ground arith,
            record { no_params = w.no_params; no_tree = w.no_tree },
            ground
                (arith, same-Facts route m q, pair-Known route.method route.path, pair-Known m q),
          )
          | inr k ↦ (
            record r {
              static_map = insert (hash_route route.method route.path) route.handler r.static_map;
            },
            ground (arith, contains-no_wild route.path p.plain),
            record { no_params = w.no_params; no_tree = w.no_tree },
            ground (
              arith,
              same-Facts route m q,
              pair-Known route.method route.path,
              pair-Known m q,
              a,
              find_behind-IsTable r m q w,
              lookup-insert (hash_route route.method route.path) (hash_route m q) route.handler
                  r.static_map,
              find_behind-IsTable
                  (record r {
                    static_map =
                        insert (hash_route route.method route.path) route.handler r.static_map;
                  })
                  m q (record { no_params = w.no_params; no_tree = w.no_tree }),
            ),
          )
        ]
      ]

  abbrev pub register : List (Route H) → FastRouter H → Added (FastRouter H)
  register [] r = added r
  register (route ∷ rs) r = do u ← add route.method route.path route.handler r; register rs u

  abbrev Resolves : List (Route H) → Bytes → Bytes → FastRouter H → Type 0
  Resolves routes m q r =
      (u : FastRouter H) × (register routes r ≡ added u)
      × (find u m q ≡ resolve routes m q (find r m q))

  register-Resolves :
      (routes : List (Route H)) (m q : Bytes) (r : FastRouter H)
      → All IsPlain routes
      → All (Apart m q) routes
      → IsTable r
      → Resolves routes m q r
  register-Resolves [] m q r p a w = (r, refl, refl)
  register-Resolves (route ∷ routes) m q r p a w =
      let (u, e, v, f) = add-AddedTo route m q r p.0 w a.0 in
      let (t, g, h) = register-Resolves routes m q u p.1 a.1 v in (t, rw e g, rw (h, f) refl)

  new_fast_router-missing : (m q : Bytes) → find (new_fast_router {H = H}) m q ≡ missing
  unfolding find lookup find_param_route
  new_fast_router-missing m q = ground (arith, find-new_router {H = H} m q)

  -- Of static routes, and for a request whose hash is the hash of no other route, the fast router
  -- answers as the radix tree with the same routes does.
  pub find-radix :
      (routes : List (Route H)) (m q : Bytes)
      → All IsPlain routes
      → All (Apart m q) routes
      → (u : FastRouter H) × (t : Node H) × (register routes new_fast_router ≡ added u)
        × (Static.Table.register routes new_router ≡ added t)
        × (find u m q ≡ Lookup.find m t q)
  find-radix routes m q p a =
      let (u, e, f) =
        register-Resolves routes m q new_fast_router p a
          (record { no_params = refl; no_tree = refl }) in
      let (t, g, h) = find-register routes p in
      (u, t, e, g, f ∙ ap (resolve routes m q) (new_fast_router-missing m q) ∙ sym (h m q))
