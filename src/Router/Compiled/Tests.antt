-- ===== src/Router/Compiled/Tests.antt =====
-- core/router/compiled.go: runs of the compiled router.
use fast_server.Base.{
  Bytes, List, String, [], arith, bytes_eq, codes, has_prefix, index_byte, insert, length, lookup,
  map, none, refl, split, ℕ, ◌<◌, ◌∷◌, ◌≡◌, ◌≢◌, ◌≤◌, bytes_key,
}
use fast_server.Router.Compiled.{
  CompiledRouter, add, add_segments, add_static_route, clear_cache, find, find_segments,
  find_static, find_wildcard_route, new_compiled_router,
}
use fast_server.Router.Compiled.Cache.{answer, clear_cache-IsFresh, find_all, find_all-answer}
use fast_server.Router.Compiled.Ascii.{IsAscii, answer-IsAscii}
use fast_server.Router.Compiled.Segments.{Piece, fixed, named}
use fast_server.Router.Radix.Insert.{Added, added}
use fast_server.Router.Radix.Lookup.{Lookup, found, missing}

abbrev get : Bytes
get = codes "GET"

build : List (String × ℕ) → Added (CompiledRouter ℕ)
build [] = added new_compiled_router
build ((path, h) ∷ routes) = elim (build routes) [
  | added r ↦ add get h (codes path) r
  | stopped ↦ stopped
]

ask : List (String × ℕ) → Bytes → Lookup ℕ
unfolding build
ask routes path = elim (build routes) [ added r ↦ (find get r path).0 | _ ↦ missing ]

answers :
    (ask (("/a", 1) ∷ []) (codes "/a") ≡ found 1 [])
    × (ask (("/u/:id/p", 2) ∷ ("/u/:id", 1) ∷ []) (codes "/u/7/p")
        ≡ found 2 ((codes "id", codes "7") ∷ []))
    × (ask (("/f/*rest", 1) ∷ []) (codes "/f/a/b") ≡ found 1 ((codes "rest", codes "a/b") ∷ []))
    × (ask (("/a", 1) ∷ []) (codes "/b") ≡ missing)
unfolding ask add find find_segments add_segments find_wildcard_route index_byte has_prefix insert
    lookup bytes_eq split
answers = (refl, refl, refl, refl)

-- Two fixed segments with one first byte fall together, and the route that was there first is lost.
collapsed :
    (ask (("/uploads/:id", 2) ∷ ("/users/:id", 1) ∷ []) (codes "/users/7")
      ≡ found 2 ((codes "id", codes "7") ∷ []))
    × (ask (("/uploads/:id", 2) ∷ ("/users/:id", 1) ∷ []) (codes "/uploads/7") ≡ missing)
    × (ask [] (b'/' ∷ 195 ∷ 169 ∷ []) ≡ Lookup.bad_index)
unfolding ask add find find_segments add_segments find_wildcard_route index_byte has_prefix insert
    lookup bytes_eq split
collapsed = (refl, refl, refl)

abbrev after : Added (CompiledRouter ℕ) → Bytes → Lookup ℕ
after (added r) path = (find get r path).0
after _ path = missing

-- A route that is registered again after a request for it is answered from the cache.
stale :
    after
      (add get 2
        (codes "/a")
        (find get (add_static_route get 1 (codes "/a") new_compiled_router) (codes "/a")).1)
      (codes "/a")
    ≡ found 1 []
unfolding add find insert lookup bytes_eq
stale = refl

abbrev one : CompiledRouter ℕ
one = clear_cache (add_static_route get 1 (codes "/a") new_compiled_router)

abbrev twice : List (Bytes × Bytes)
twice = (get, codes "/a") ∷ (get, codes "/b") ∷ (get, codes "/a") ∷ []

find_all-answer_example : find_all twice one ≡ map (λ (m, path). answer one m path) twice
find_all-answer_example = find_all-answer twice one (clear_cache-IsFresh one) (omega arith)

abbrev wide : Bytes
wide = b'/' ∷ 195 ∷ 169 ∷ []

answer-IsAscii_example :
    (IsAscii wide → 0 < length wide → answer one get wide ≢ Lookup.bad_index)
    × ((b c : ℕ) (s : Bytes)
        → wide ≡ b ∷ c ∷ s
        → 128 ≤ c
        → find_static get one wide ≡ none
        → answer one get wide ≡ Lookup.bad_index)
answer-IsAscii_example = answer-IsAscii get one wide

abbrev posts : List Piece
posts = named (codes "id") (codes "7") ∷ fixed (codes "p") ∷ []

-- Routes with parameters are there already, one of which begins like the new one.
abbrev or_self : CompiledRouter ℕ → Added (CompiledRouter ℕ) → CompiledRouter ℕ
or_self r (added u) = u
or_self r _ = r

abbrev crowded : CompiledRouter ℕ
crowded =
    let first = or_self new_compiled_router (add get 5 (codes "/u/:id/q") new_compiled_router) in
    or_self first (add get 6 (codes "/v/:name") first)
