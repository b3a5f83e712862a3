-- ===== src/Router/Radix/Total.antt =====
-- core/router/radix.go: a registration ends, in a tree or a panic.
pub mod Paths
use fast_server.Base.{
  Bool-cases, Bytes, List, Option-cases, [], ap, arith, drop, false, get_or, if◌then◌else◌,
  index_byte, inl, inr, length, length-drop, ltb, none, not, refl, some, suc, take, true, zero, ℕ,
  ◌++◌, ◌+◌, ◌-◌, ◌<◌, ◌==◌, ◌∷◌, ◌≡◌, ◌≢◌, ◌≤◌, bytes_key,
}
use fast_server.Router.Radix.{
  Info, Kind, Node, Nodes, Wildcard, add_child, blank_info, catch_all, cons, find_wildcard, is_wild,
  longest_common_prefix, new_router, nil, node, param, size, sizes, static,
}
use fast_server.Router.Radix.Insert.{
  Added, add, add_loop, add_route, added, bad_index, bad_start, catch_all_conflict,
  catch_all_inside, change_child, ends_with_slash, enter, grow, insert_child, set_static,
  keep_prefix, lower, many_wildcards, no_fuel, one_more, param_child, put_handler, unnamed, upper,
  ◌>>=◌,
}
use fast_server.Router.Radix.Static.Split.{longest_common_prefix-le}
use fast_server.Router.Radix.Static.Table.{Route, register}
use fast_server.Router.Radix.Total.Paths.{
  Ends, Ends-eq, HasPath, Over, bind-Over, enter-Ends, insert_child-Ends,
}

-- Behind the longest common prefix the two go on differently.
differ-at_prefix :
    (p s : Bytes) (b : ℕ) (rest : Bytes)
    → longest_common_prefix p s < length s
    → drop (longest_common_prefix p s) p ≡ b ∷ rest
    → (get_or s (longest_common_prefix p s) 0 == b) ≡ false
unfolding longest_common_prefix
differ-at_prefix [] s b rest l e = absurd (ground (arith, e))
differ-at_prefix (a ∷ p) [] b rest l e = absurd (omega (arith, l))
differ-at_prefix (a ∷ p) (c ∷ s) b rest l e = elim (Bool-cases (a == c)) [
  | inl same ↦ ground (arith, same, l, e, differ-at_prefix p s b rest)
  | inr other ↦ ground (arith, other, e)
]

prefix-pos : (p : Bytes) → p ≢ [] → 1 ≤ length p
prefix-pos [] h = absurd (h refl)
prefix-pos (b ∷ p) h = omega arith

module _ {H : Type 0} (m : Bytes) (h : H) where
  -- Once an edge is split, the loop does not go on.
  split-Ends :
      (loop : Node H → Bytes → Added (Node H)) (n : Info H) (cs : Nodes H) (path : Bytes)
      → HasPath (node n cs)
      → longest_common_prefix path n.path < length n.path
      → Ends (
          enter m h loop
            (upper n path (longest_common_prefix path n.path))
            (cons (node (lower n (longest_common_prefix path n.path)) cs) nil)
            (drop (longest_common_prefix path n.path) path))
  unfolding HasPath index_byte
  split-Ends loop n cs path w l =
      let i = longest_common_prefix path n.path in
      enter-Ends m h loop (upper n path i) (cons (node (lower n i) cs) nil) (drop i path)
        (λ q. absurd (ground (arith, q)), ((λ q. drop_some i n.path l, w.1), tt))
        (λ b rest e q. absurd (ground (arith, q)))
        (λ b rest k e q c v x. absurd (ground (arith, q, differ-at_prefix path n.path b rest l e)))
    where
      drop_some : (i : ℕ) (s : Bytes) → i < length s → drop i s ≢ []
      drop_some i s k e = absurd (omega (arith, k, length-drop i s, ap length e))

  add_loop-Ends :
      (fuel : ℕ) (t : Node H) (path : Bytes)
      → HasPath t
      → length path + size t < fuel
      → Ends (add_loop m h fuel t path)
  unfolding add_loop HasPath size
  add_loop-Ends zero t path w l = absurd (omega (arith, l))
  add_loop-Ends (suc fuel) (node n cs) path w l =
      let i = longest_common_prefix path n.path in
      let bound = longest_common_prefix-le path n.path in
      let rest_of = length-drop i path in
      elim (Bool-cases (ltb i (length n.path))) [
        | inl inside ↦
            Ends-eq
              (enter m h (add_loop m h fuel) (upper n path i) (cons (node (lower n i) cs) nil)
                (drop i path))
              (ground (arith, inside))
              (split-Ends (add_loop m h fuel) n cs path w (ground (arith, inside)))
        | inr all ↦
            Ends-eq (enter m h (add_loop m h fuel) n cs (drop i path)) (ground (arith, all)) (
              enter-Ends m h (add_loop m h fuel) n cs (drop i path) w
                (λ b rest e q.
                  let named = prefix-pos n.path (w.0 q) in
                  add_loop-Ends fuel (node (one_more n) cs) (drop i path) w
                    (ground (arith, all, named, bound, rest_of, l)))
                (λ b rest k e q c v x.
                  add_loop-Ends fuel c (drop i path) x (omega (arith, v, rest_of, l))))
      ]

  set_static-Ends : (t : Node H) → HasPath t → Ends (set_static m h t)
  unfolding HasPath set_static
  set_static-Ends (node n cs) w = (λ q. absurd (ground (arith, q)), w.1)

  add_route-Ends : (t : Node H) (path : Bytes) → HasPath t → Ends (add_route m h t path)
  unfolding add_route HasPath
  add_route-Ends (node n (cons c cs)) path w =
      add_loop-Ends (suc (length path + size (node n (cons c cs)))) (node n (cons c cs)) path w
        (omega arith)
  add_route-Ends (node n nil) path w = elim (Bool-cases (length n.path == 0)) [
    | inl none_yet ↦
        let x = insert_child m h (suc (length path)) n nil path in
        Ends-eq (x >>= set_static m h) (ground (arith, none_yet)) (
          bind-Over HasPath HasPath x (set_static m h)
            (insert_child-Ends m h (suc (length path)) n nil path (omega arith) (omega arith)
              (λ q. absurd (ground (arith, prefix-pos n.path (w.0 q), none_yet))) tt)
            set_static-Ends)
    | inr some_path ↦
        Ends-eq (add_loop m h (suc (length path + size (node n nil))) (node n nil) path)
          (ground (arith, some_path))
          (add_loop-Ends (suc (length path + size (node n nil))) (node n nil) path w (omega arith))
  ]

  add-Ends : (t : Node H) (path : Bytes) → HasPath t → Ends (add m h t path)
  unfolding add
  add-Ends t [] w = tt
  add-Ends t (b ∷ path) w = elim (Bool-cases (b == b'/')) [
    | inl rooted ↦
        Ends-eq (add_route m h t (b ∷ path)) (ground (arith, rooted))
          (add_route-Ends t (b ∷ path) w)
    | inr bare ↦ Ends-eq bad_start (ground (arith, bare)) tt
  ]

register-Ends : {H : Type 0} (rs : List (Route H)) (t : Node H) → HasPath t → Ends (register rs t)
register-Ends [] t w = w
register-Ends (r ∷ rs) t w =
    bind-Over HasPath HasPath (add r.method r.handler t r.path) (register rs)
      (add-Ends r.method r.handler t r.path w) (register-Ends rs)

Over-ends : {T : Type 0} (P : T → Type 0) (x : Added T) → Over P x → x ≢ no_fuel
Over-ends P x w e = rw e at w

Over-added : {T : Type 0} (P : T → Type 0) (x : Added T) (t : T) → Over P x → x ≡ added t → P t
Over-added P x t w e = rw e at w

-- Registering any routes, with wildcards or not, ends: each call of Add gives a tree or one of its panics,
-- and the fuel of the loops never runs out. In a tree that comes out
-- the path of every parameter node is not empty.
pub register-ends :
    {H : Type 0} (rs : List (Route H))
    → (register rs new_router ≢ no_fuel)
      × ((t : Node H) → register rs new_router ≡ added t → HasPath t)
unfolding HasPath
register-ends rs =
    let w = register-Ends rs new_router ((λ q. absurd (ground (arith, q))), tt) in
    (
      Over-ends HasPath (register rs new_router) w,
      λ t e. Over-added HasPath (register rs new_router) t w e,
    )
