-- ===== src/Router/Radix/Static/Split.antt =====
-- core/router/radix.go: `addRoute` splits an edge, and nothing is found differently after it.
use fast_server.Base.{
  Bytes, List, Option, [], ap, arith, drop, get_or, length, lookup, none, refl, some, suc, sym,
  take, take-append-drop, zero, ℕ, ◌++◌, ◌<◌, ◌∷◌, ◌≡◌, ◌≤◌,
}
use fast_server.Router.Radix.{Info, Node, Nodes, cons, longest_common_prefix, nil, node}
use fast_server.Router.Radix.Insert.{lower, upper}
use fast_server.Router.Radix.Lookup.{get_value}
use fast_server.Router.Radix.Static.{
  IsStatic, answer, get_value-static, pick, strip, strip-append, then_strip,
}

pub take-longest_common_prefix :
    (p s : Bytes) → take (longest_common_prefix p s) p ≡ take (longest_common_prefix p s) s
unfolding longest_common_prefix
take-longest_common_prefix [] s = refl
take-longest_common_prefix (a ∷ p) [] = refl
take-longest_common_prefix (a ∷ p) (b ∷ s) = ground (arith, take-longest_common_prefix p s)

pub longest_common_prefix-le :
    (p s : Bytes) → (longest_common_prefix p s ≤ length s) × (longest_common_prefix p s ≤ length p)
unfolding longest_common_prefix
longest_common_prefix-le [] s = omega arith
longest_common_prefix-le (a ∷ p) [] = omega arith
longest_common_prefix-le (a ∷ p) (b ∷ s) = ground (arith, longest_common_prefix-le p s)

drop-get_or : (i : ℕ) (s : Bytes) → i < length s → drop i s ≡ get_or s i 0 ∷ drop (suc i) s
drop-get_or i [] h = absurd (omega arith)
drop-get_or zero (b ∷ s) h = refl
drop-get_or (suc i) (b ∷ s) h = drop-get_or i s (omega arith)

module _ {H : Type 0} (n : Info H) (cs : Nodes H) (p : Bytes) (i : ℕ)
    (inside : i < length n.path) where
  abbrev pub split_node : Node H
  split_node = node (upper n p i) (cons (node (lower n i) cs) nil)

  pub split_node-IsStatic : IsStatic (node n cs) → IsStatic split_node
  split_node-IsStatic w = (refl, ((drop (suc i) n.path, drop-get_or i n.path inside), w, tt))

  -- The lower half answers what the node answered, once its path is off.
  answer-lower :
      (method : Bytes) (params : List (Bytes × Bytes)) (o : Option Bytes)
      → answer method (lower n i) cs params o ≡ answer method n cs params o
  answer-lower method params none = refl
  answer-lower method params (some []) = refl
  answer-lower method params (some (c ∷ r)) = refl

  -- The upper half hands what goes on to the lower one.
  answer-upper :
      (method : Bytes) (params : List (Bytes × Bytes)) (o : Option Bytes)
      → IsStatic (node n cs)
      → answer method (upper n p i) (cons (node (lower n i) cs) nil) params o
        ≡ answer method n cs params (then_strip o (get_or n.path i 0 ∷ drop (suc i) n.path))
  unfolding pick strip lookup
  answer-upper method params none w = refl
  answer-upper method params (some []) w = refl
  answer-upper method params (some (d ∷ t)) w = ground (
    arith,
    get_value-static method (lower n i) cs (d ∷ t) params w,
    drop-get_or i n.path inside,
    answer-lower method params (strip (get_or n.path i 0 ∷ drop (suc i) n.path) (d ∷ t)),
  )

  pub get_value-split_node :
      (method q : Bytes) (params : List (Bytes × Bytes))
      → IsStatic (node n cs)
      → take i p ≡ take i n.path
      → get_value method split_node q params ≡ get_value method (node n cs) q params
  get_value-split_node method q params w e =
      let r = get_or n.path i 0 ∷ drop (suc i) n.path in
      let cut : n.path ≡ take i p ++ r =
        rw (e, ← drop-get_or i n.path inside) (sym (take-append-drop i n.path)) in
      cc (
        get_value-static method (upper n p i) (cons (node (lower n i) cs) nil) q params
            (split_node-IsStatic w),
        get_value-static method n cs q params w,
        answer-upper method params (strip (take i p) q) w,
        ap (λ s. strip s q) cut,
        strip-append (take i p) r q,
      )
