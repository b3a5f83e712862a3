-- ===== src/Router/Radix/Static/Loop.antt =====
-- core/router/radix.go: the loop of `addRoute` on a static tree.
use fast_server.Base.{
  Bool-cases, Bytes, ap, arith, drop, inl, inr, length, length-drop, ltb, suc, take,
  take-append-drop, take-length, true, zero, ℕ, ◌++◌, ◌-◌, ◌<◌, ◌∙◌, ◌∷◌, ◌≡◌, ◌≤◌, bytes_key,
}
use fast_server.Router.Radix.{Info, Node, Nodes, cons, longest_common_prefix, nil, no_wild, node}
use fast_server.Router.Radix.Insert.{Added, add_loop, enter, lower, upper}
use fast_server.Router.Radix.Static.{IsStatic, StartsWith}
use fast_server.Router.Radix.Static.Split.{
  get_value-split_node, longest_common_prefix-le, split_node, split_node-IsStatic,
  take-longest_common_prefix,
}
use fast_server.Router.Radix.Static.Grow.{Grown, Grown-before, Grown-same}
use fast_server.Router.Radix.Static.Enter.{enter-Grown, no_wild-drop}

longest_common_prefix-first :
    (p s : Bytes) (b : ℕ) (r t : Bytes) → p ≡ b ∷ r → s ≡ b ∷ t → 1 ≤ longest_common_prefix p s
unfolding longest_common_prefix
longest_common_prefix-first p s b r t e f = ground (arith, e, f)

take-first :
    (i : ℕ) (s : Bytes) (b : ℕ) (t : Bytes) → 1 ≤ i → s ≡ b ∷ t → take i s ≡ b ∷ take (i - 1) t
take-first zero s b t h e = absurd (omega arith)
take-first (suc i) s b t h e = rw e (ap (λ j. b ∷ take j t) (omega arith))

module _ {H : Type 0} (m : Bytes) (h : H) where
  -- The node that a round works on: as it is, or its edge split where the path leaves it.
  module _ (loop : Node H → Bytes → Added (Node H)) (n : Info H) (cs : Nodes H) (p : Bytes)
      (w : IsStatic (node n cs)) (plain' : no_wild p ≡ true) (i : ℕ) (e : take i p ≡ take i n.path)
      (grown : (c : Node H) (b : ℕ) (r : Bytes)
        → drop i p ≡ b ∷ r
        → IsStatic c
        → StartsWith b c
        → Grown m h (drop i p) c (loop c (drop i p))) where
    split-start :
        (b : ℕ) (inside : i < length n.path)
        → 1 ≤ i
        → StartsWith b (node n cs)
        → StartsWith b (split_node n cs p i inside)
    split-start b inside some' (s, starts) =
        (take (i - 1) s, e ∙ take-first i n.path b s some' starts)

    split-Grown :
        (inside : i < length n.path)
        → 1 ≤ i
        → Grown m h p
            (node n cs)
            (enter m h loop (upper n p i) (cons (node (lower n i) cs) nil) (drop i p))
    split-Grown inside some' =
        let g =
          enter-Grown m h loop (upper n p i) (cons (node (lower n i) cs) nil) (drop i p)
            (split_node-IsStatic n cs p i inside w) (no_wild-drop i p plain') grown in
        Grown-before m h p (node n cs) (split_node n cs p i inside) _
          (λ b. split-start b inside some')
          (λ m' q params. get_value-split_node n cs p i inside m' q params w e)
          (rw (take-append-drop i p) at g)

    whole-Grown : i ≡ length n.path → Grown m h p (node n cs) (enter m h loop n cs (drop i p))
    whole-Grown all =
        let cut : n.path ++ drop i p ≡ p = cc (e, all, take-length n.path, take-append-drop i p) in
        rw cut at (enter-Grown m h loop n cs (drop i p) w (no_wild-drop i p plain') grown)

  pub add_loop-Grown :
      (fuel : ℕ) (t : Node H) (p : Bytes) (b : ℕ) (r : Bytes)
      → length p < fuel
      → p ≡ b ∷ r
      → IsStatic t
      → StartsWith b t
      → no_wild p ≡ true
      → Grown m h p t (add_loop m h fuel t p)
  unfolding add_loop
  add_loop-Grown zero t p b r enough e w first plain' = absurd (omega arith)
  add_loop-Grown (suc fuel) (node n cs) p b r enough e w first plain' =
      let i = longest_common_prefix p n.path in
      let some' : 1 ≤ i = longest_common_prefix-first p n.path b r first.0 e first.1 in
      let both = take-longest_common_prefix p n.path in
      let grown : (c : Node H) (a : ℕ) (t : Bytes)
          → drop i p ≡ a ∷ t
          → IsStatic c
          → StartsWith a c
          → Grown m h (drop i p) c (add_loop m h fuel c (drop i p)) =
        λ c a t s ws ss.
          add_loop-Grown fuel c (drop i p) a t
            (omega (arith, some', enough, length-drop i p, ap length s)) s ws ss
            (no_wild-drop i p plain') in
      elim (Bool-cases (ltb i (length n.path))) [
        | inl inside ↦
            Grown-same m h p (node n cs) (ground (arith, inside))
              (split-Grown (add_loop m h fuel) n cs p w plain' i both grown (ground arith) some')
        | inr all ↦ Grown-same m h p (node n cs) (ground (arith, all)) (
            whole-Grown (add_loop m h fuel) n cs p w plain' i both grown
              (ground (arith, all, longest_common_prefix-le p n.path)))
      ]
