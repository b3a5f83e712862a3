-- ===== src/Router/Compiled/Ascii.antt =====
-- core/router/compiled.go: the array of 128 children is indexed by the first byte of a segment that
-- comes from the network.
use fast_server.Router.Compiled.{
  CompiledNode, CompiledRouter, WildcardRoute, compiled, find_param_route, find_segments,
  find_static, find_wildcard_route, name_of, no_param, static_match, with_param,
}
use fast_server.Router.Compiled.Cache.{answer}
use fast_server.Base.{
  All, Bytes, List, Option-cases, [], arith, inl, inr, insert, length, none, split, split-All,
  split-cons, ℕ, ◌<◌, ◌∷◌, ◌≡◌, ◌≢◌, ◌≤◌, bytes_key,
}
use fast_server.Router.Radix.Lookup.{Lookup}

abbrev pub IsAscii : Bytes → Type 0
IsAscii = All (λ b. b < 128)

module _ {H : Type 0} (m : Bytes) where
  find_segments-IsAscii :
      (segments : List Bytes) (n : CompiledNode H) (params : List (Bytes × Bytes))
      → All IsAscii segments
      → find_segments m segments n params ≢ Lookup.bad_index
  unfolding find_segments
  find_segments-IsAscii [] (compiled p cs q) params h = ground arith
  find_segments-IsAscii ([] ∷ segments) n params h = find_segments-IsAscii segments n params h.1
  find_segments-IsAscii ((c ∷ s) ∷ segments) (compiled p cs no_param) params h =
      elim (Option-cases (static_match m c (c ∷ s) cs)) [
        | inl e ↦ ground (arith, h.0.0, e)
        | inr (n, e) ↦ ground (arith, h.0.0, e, find_segments-IsAscii segments n params h.1)
      ]
  find_segments-IsAscii ((c ∷ s) ∷ segments) (compiled p cs (with_param d)) params h =
      elim (Option-cases (static_match m c (c ∷ s) cs)) [
        | inl e ↦ ground (
          arith,
          h.0.0,
          e,
          find_segments-IsAscii segments d (insert (name_of d) (c ∷ s) params) h.1,
        )
        | inr (n, e) ↦ ground (arith, h.0.0, e, find_segments-IsAscii segments n params h.1)
      ]

  find_segments-wide :
      (c : ℕ) (s : Bytes) (segments : List Bytes) (n : CompiledNode H)
      (params : List (Bytes × Bytes))
      → 128 ≤ c
      → find_segments m ((c ∷ s) ∷ segments) n params ≡ Lookup.bad_index
  unfolding find_segments
  find_segments-wide c s segments (compiled p cs q) params h = ground arith

  find_param_route-wide :
      (n : CompiledNode H) (b c : ℕ) (s : Bytes)
      → 128 ≤ c
      → find_param_route m n (b ∷ c ∷ s) ≡ Lookup.bad_index
  find_param_route-wide n b c s h =
      let (p, ps, e) = split-cons b'/' c s (ground arith) in rw e (find_segments-wide c p ps n [] h)

  find_param_route-IsAscii :
      (n : CompiledNode H) (path : Bytes)
      → IsAscii path
      → 0 < length path
      → find_param_route m n path ≢ Lookup.bad_index
  find_param_route-IsAscii n [] h l = absurd (omega arith)
  find_param_route-IsAscii n (b ∷ path) h l =
      find_segments-IsAscii (split b'/' path) n [] (split-All _ b'/' path h.1)

  find_wildcard_route-returns :
      (routes : List (WildcardRoute H)) (path : Bytes)
      → find_wildcard_route m routes path ≢ Lookup.bad_index
  unfolding find_wildcard_route
  find_wildcard_route-returns [] path = cc
  find_wildcard_route-returns (route ∷ routes) path =
      ground (arith, find_wildcard_route-returns routes path)

  -- On a path of ASCII bytes that is not empty, no lookup panics; a path that is not a static route
  -- and whose first segment begins with another byte panics.
  pub answer-IsAscii :
      (r : CompiledRouter H) (path : Bytes)
      → (IsAscii path → 0 < length path → answer r m path ≢ Lookup.bad_index)
        × ((b c : ℕ) (s : Bytes)
            → path ≡ b ∷ c ∷ s
            → 128 ≤ c
            → find_static m r path ≡ none
            → answer r m path ≡ Lookup.bad_index)
  unfolding answer
  answer-IsAscii r path = (
    λ h l. ground (
      arith,
      find_param_route-IsAscii r.param_routes path h l,
      find_wildcard_route-returns r.wildcard_routes path,
    ),
    λ b c s e h f. ground (arith, f, e, find_param_route-wide r.param_routes b c s h),
  )
