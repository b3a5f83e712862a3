-- ===== src/Router/Radix/Tests.antt =====
-- Runs of the router.
use fast_server.Base.{
  All, Bytes, List, String, [], bytes_eq, codes, index_byte, insert, lookup, refl, ℕ, ◌∷◌, ◌≡◌, ◌≢◌,
}
use fast_server.Router.Radix.{
  Node, find_wildcard, longest_common_prefix, size, new_router, no_wild, segment,
}
use fast_server.Router.Radix.Total.{register-ends}
use fast_server.Router.Radix.Total.Paths.{HasPath}
use fast_server.Router.Radix.Insert.{
  no_fuel, Added, add, add_loop, added, catch_all_conflict, ends_with_slash, insert_child, ◌>>=◌,
}
use fast_server.Router.Radix.Static.Table.{IsPlain, Route, find-register, register, resolve}
use fast_server.Router.Radix.Lookup.{Lookup, find, found, missing}

abbrev get : Bytes
get = codes "GET"

build : List (String × ℕ) → Added (Node ℕ)
unfolding add
build [] = added new_router
build ((path, h) ∷ routes) = do t ← build routes; add get h t (codes path)

ask : List (String × ℕ) → String → Lookup ℕ
unfolding build find insert_child find_wildcard add_loop longest_common_prefix index_byte bytes_eq
    lookup insert segment ends_with_slash
ask routes path = elim (build routes) [ added t ↦ find get t (codes path) | _ ↦ missing ]

radix_test :
    (ask (("/hello", 2) ∷ ("/", 1) ∷ []) "/hello" ≡ found 2 [])
    × (ask (("/hello/world", 3) ∷ ("/hello", 2) ∷ ("/", 1) ∷ []) "/hello/world" ≡ found 3 [])
    × (ask (("/hello/world", 3) ∷ ("/hello", 2) ∷ ("/", 1) ∷ []) "/notfound" ≡ missing)
    × (ask (("/user/:id", 2) ∷ ("/user/admin", 1) ∷ []) "/user/admin" ≡ found 1 [])
    × (ask (("/user/:id", 2) ∷ ("/user/admin", 1) ∷ []) "/user/123"
        ≡ found 2 ((codes "id", codes "123") ∷ []))
unfolding ask size
radix_test = (refl, refl, refl, refl, refl)

-- A static route that is registered behind a parameter is out of reach.
shadowed :
    (ask (("/user/admin", 2) ∷ ("/user/:id", 1) ∷ []) "/user/admin" ≡ missing)
    × (ask (("/user/admin", 2) ∷ ("/user/:id", 1) ∷ []) "/user/ann" ≡ missing)
    × (ask (("/u/:id/b", 2) ∷ ("/u/:id/a", 1) ∷ []) "/u/7/a" ≡ missing)
    × (build (("/*f", 2) ∷ []) ≡ catch_all_conflict)
    × (ask (("/s/*f", 2) ∷ ("/s/", 1) ∷ []) "/s/x" ≡ found 2 ((codes "f", codes "/s/x") ∷ []))
    × (ask (("/s/*f", 2) ∷ ("/s/", 1) ∷ []) "/etc" ≡ found 2 ((codes "f", codes "/etc") ∷ []))
unfolding ask
shadowed = (refl, refl, refl, refl, refl, refl)

-- Three routes, of which two share a prefix and the third replaces the first.
abbrev three : List (Route ℕ)
three =
    record { method = get; path = codes "/ab"; handler = 1 }
    ∷ record { method = get; path = codes "/ac"; handler = 2 }
    ∷ record { method = get; path = codes "/ab"; handler = 3 }
    ∷ []

three-IsPlain : All IsPlain three
unfolding no_wild
three-IsPlain = (
  record { rest = codes "ab"; rooted = refl; plain = refl },
  (
    record { rest = codes "ac"; rooted = refl; plain = refl },
    (record { rest = codes "ab"; rooted = refl; plain = refl }, tt),
  ),
)

find-register_example :
    (u : Node ℕ) × (register three new_router ≡ added u)
    × ((m q : Bytes) → find m u q ≡ resolve three m q missing)
find-register_example = find-register three three-IsPlain

abbrev wild_routes : List (Route ℕ)
wild_routes =
    record { method = get; path = codes "/u/:id"; handler = 1 }
    ∷ record { method = get; path = codes "/u/:id/x"; handler = 2 }
    ∷ record { method = get; path = codes "/f/:"; handler = 3 }
    ∷ []

register-ends_example :
    (register wild_routes new_router ≢ no_fuel)
    × ((t : Node ℕ) → register wild_routes new_router ≡ added t → HasPath t)
register-ends_example = register-ends wild_routes
