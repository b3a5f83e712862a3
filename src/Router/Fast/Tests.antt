-- ===== src/Router/Fast/Tests.antt =====
-- core/router/fast.go: runs of the fast router.
use fast_server.Base.{
  All, List, String, [], arith, bytes_eq, codes, has_prefix, index, index_byte, inr, insert, lookup,
  refl, ℕ, ◌++◌, ◌∷◌, ◌≡◌,
}
use fast_server.Router.Fast.{
  FastRouter, add, find, find_param_route, get, hash_bytes, hash_route, health_path,
  new_fast_router,
}
use fast_server.Router.Fast.Table.{Apart, find-radix, register}
use fast_server.Router.Fast.Params.{IsPattern, find-add, new_fast_router-IsReady, pattern_path}
use fast_server.Router.Radix.{Node, new_router, no_wild}
use fast_server.Router.Radix.Static
use fast_server.Router.Radix.Static.Table.{IsPlain, Route}
use fast_server.Router.Radix.Insert.{Added, added}
use fast_server.Router.Radix.Lookup
use fast_server.Router.Radix.Lookup.{Lookup, found, missing}

build : List (String × ℕ) → Added (FastRouter ℕ)
build [] = added new_fast_router
build ((path, h) ∷ routes) = elim (build routes) [
  | added r ↦ add get (codes path) h r
  | stopped ↦ stopped
]

ask : List (String × ℕ) → String → String → Lookup ℕ
unfolding build
ask routes method path = elim (build routes) [
  | added r ↦ find r (codes method) (codes path)
  | _ ↦ missing
]

answers :
    (ask (("/health", 1) ∷ []) "GET" "/health" ≡ found 1 [])
    × (ask (("/a", 1) ∷ []) "GET" "/b" ≡ missing)
    × (ask (("/u/:id/posts", 1) ∷ []) "GET" "/u/7/posts" ≡ found 1 ((codes "id", codes "7") ∷ []))
    × (ask (("/f/*path", 1) ∷ []) "GET" "/f/a/b" ≡ found 1 ((codes "path", codes "a/b") ∷ []))
unfolding ask add find hash_route hash_bytes find_param_route bytes_eq index has_prefix index_byte
    insert lookup Lookup.find
answers = (refl, refl, refl, refl)

-- A value with a slash, an empty value, a path that goes on behind the suffix, and a request whose
-- method and path are cut elsewhere.
loose :
    (ask (("/u/:id", 1) ∷ []) "GET" "/u/7/8" ≡ found 1 ((codes "id", codes "7/8") ∷ []))
    × (ask (("/u/:id", 1) ∷ []) "GET" "/u/" ≡ found 1 ((codes "id", []) ∷ []))
    × (ask (("/u/:id/p", 1) ∷ []) "GET" "/u/7/p/x/p" ≡ found 1 ((codes "id", codes "7") ∷ []))
    × (ask (("/a", 1) ∷ []) "GE" "T/a" ≡ found 1 [])
unfolding ask add find hash_route hash_bytes find_param_route bytes_eq index has_prefix index_byte
    insert lookup
loose = (refl, refl, refl, refl)

abbrev two : List (Route ℕ)
two =
    record { method = get; path = codes "/a"; handler = 1 }
    ∷ record { method = get; path = health_path; handler = 2 }
    ∷ []

two-IsPlain : All IsPlain two
unfolding no_wild
two-IsPlain = (
  record { rest = codes "a"; rooted = refl; plain = refl },
  (record { rest = codes "health"; rooted = refl; plain = refl }, tt),
)

two-Apart : All (Apart get (codes "/a")) two
unfolding bytes_eq hash_route hash_bytes
two-Apart = ((λ e. (refl, refl)), ((λ e. absurd (omega arith)), tt))

find-radix_example :
    (u : FastRouter ℕ) × (t : Node ℕ) × (register two new_fast_router ≡ added u)
    × (Static.Table.register two new_router ≡ added t)
    × (find u get (codes "/a") ≡ Lookup.find get t (codes "/a"))
find-radix_example = find-radix two get (codes "/a") two-IsPlain two-Apart

id-IsPattern : IsPattern (codes "/u/") (codes "id") (codes "/p")
id-IsPattern = record {
  plain_prefix = omega arith;
  plain_name = omega arith;
  one_segment = omega arith;
  plain_suffix = omega arith;
  split_off = inr (codes "p", refl);
}

unknown : find (new_fast_router {H = ℕ}) get (codes "/u/7/p") ≡ missing
unfolding find find_param_route lookup hash_route hash_bytes Lookup.find bytes_eq index_byte
unknown = refl

find-add_example :
    (u : FastRouter ℕ) × (add get
        (pattern_path (codes "/u/") (codes "id") (codes "/p"))
        1
        new_fast_router
      ≡ added u)
    × (find u get (codes "/u/" ++ (codes "7" ++ codes "/p"))
        ≡ found 1 ((codes "id", codes "7") ∷ []))
find-add_example =
    find-add new_fast_router get (codes "/u/") (codes "id") (codes "/p") (codes "7") 1
      new_fast_router-IsReady id-IsPattern (omega arith) unknown
