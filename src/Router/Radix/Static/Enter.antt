-- ===== src/Router/Radix/Static/Enter.antt =====
-- core/router/radix.go: one round of `addRoute` on a node of a static tree, and the whole loop.
use fast_server.Base.{
  Bytes, List, Option-cases, [], arith, bytes_eq, drop, false, index_byte, inl, inr, length, none,
  refl, some, suc, true, zero, ℕ, ◌++◌, ◌==◌, ◌∷◌, ◌≡◌, bytes_key,
}
use fast_server.Router.Radix.{
  Info, Node, Nodes, add_child, blank_info, cons, find_wildcard, nil, no_wild, node,
}
use fast_server.Router.Radix.Insert.{
  Added, added, change_child, enter, grow, insert_child, one_more, put_handler,
}
use fast_server.Router.Radix.Static.{AreStatic, IsStatic, StartsWith, answer, pick}
use fast_server.Router.Radix.Static.Grow.{
  AreStatic-add_child, Grown, Grown-same, leaf, pick-add_child, put_handler-Grown, updated,
  updated-behind,
}

pub find_wildcard-no_wild : (s : Bytes) → no_wild s ≡ true → find_wildcard s ≡ none
unfolding find_wildcard no_wild
find_wildcard-no_wild [] w = refl
find_wildcard-no_wild (c ∷ s) w = ground (arith, find_wildcard-no_wild s)

pub no_wild-drop : (i : ℕ) (s : Bytes) → no_wild s ≡ true → no_wild (drop i s) ≡ true
unfolding no_wild
no_wild-drop zero s w = w
no_wild-drop (suc i) [] w = w
no_wild-drop (suc i) (c ∷ s) w = no_wild-drop i s (ground arith)

module _ {H : Type 0} (m : Bytes) (h : H) where
  pub insert_child-no_wild :
      (fuel : ℕ) (n : Info H) (cs : Nodes H) (path : Bytes)
      → no_wild path ≡ true
      → insert_child m h (suc fuel) n cs path
        ≡ added (node (put_handler m h (record n { path = path })) cs)
  unfolding insert_child
  insert_child-no_wild fuel n cs path w = ground (arith, find_wildcard-no_wild path w)

  -- A child for a first byte that no child has.
  answer-grown :
      (n : Info H) (cs : Nodes H) (b : ℕ) (r m' s : Bytes) (params : List (Bytes × Bytes))
      → AreStatic cs n.indices
      → index_byte b n.indices ≡ none
      → answer m'
          (record n { indices = n.indices ++ b ∷ [] })
          (add_child cs (leaf m h (b ∷ r)))
          params
          (some s)
        ≡ updated m h (b ∷ r) m' s params (answer m' n cs params (some s))
  unfolding bytes_eq
  answer-grown n cs b r m' [] params w e = ground arith
  answer-grown n cs b r m' (d ∷ s) params w e =
      pick-add_child m h cs b n.indices r m' d s params w e

  grow-Grown :
      (n : Info H) (cs : Nodes H) (b : ℕ) (r : Bytes)
      → IsStatic (node n cs)
      → index_byte b n.indices ≡ none
      → no_wild (b ∷ r) ≡ true
      → Grown m h (n.path ++ b ∷ r) (node n cs) (grow m h n cs b (b ∷ r))
  unfolding grow no_wild
  grow-Grown n cs b r w e plain' = record {
    tree = node (record n { indices = n.indices ++ b ∷ [] }) (add_child cs (leaf m h (b ∷ r)));
    result = ground (arith, insert_child-no_wild (length r) blank_info nil (b ∷ r) plain');
    static = (w.0, AreStatic-add_child m h cs n.indices r b w.1);
    start = λ a s. s;
    value =
        updated-behind m h n (record n { indices = n.indices ++ b ∷ [] }) cs
          (add_child cs (leaf m h (b ∷ r))) (b ∷ r) w
          (w.0, AreStatic-add_child m h cs n.indices r b w.1) refl
          (λ m' s params. answer-grown n cs b r m' s params w.1 e);
  }

  -- The children after a registration below the one with the first byte `b`.
  record Changed (cs : Nodes H) (b : ℕ) (ix r : Bytes) (result : Added (Nodes H)) : Type 0 where
    children : Nodes H
    result_is : result ≡ added children
    static : AreStatic children ix
    value :
        (m' : Bytes) (d : ℕ) (s : Bytes) (params : List (Bytes × Bytes))
        → pick m' children ix (d ∷ s) params
          ≡ updated m h (b ∷ r) m' (d ∷ s) params (pick m' cs ix (d ∷ s) params)

  module _ (b : ℕ) (r : Bytes) (f : Node H → Added (Node H))
      (grown : (c : Node H) → IsStatic c → StartsWith b c → Grown m h (b ∷ r) c (f c)) where
    change_child-Changed :
        (cs : Nodes H) (ix : Bytes) (k : ℕ)
        → AreStatic cs ix
        → index_byte b ix ≡ some k
        → Changed cs b ix r (change_child cs k f)
    unfolding pick index_byte bytes_eq
    change_child-Changed nil [] k w e = cc
    change_child-Changed nil (a ∷ ix) k w e = elim w [ ]
    change_child-Changed (cons c cs) [] k w e = elim w [ ]
    change_child-Changed (cons c cs) (a ∷ ix) zero w e =
        let here' : a ≡ b = ground arith in
        let g = grown c w.1 (rw here' at w.0) in
        record {
          children = cons g.tree cs;
          result_is = rw (g.result) refl;
          static = (g.start a w.0, g.static, w.2);
          value = λ m' d s params. ground (arith, here', g.value m' (d ∷ s) params);
        }
    change_child-Changed (cons c cs) (a ∷ ix) (suc k) w e =
        let other : (a == b) ≡ false = ground arith in
        let g = change_child-Changed cs ix k w.2 (ground arith) in
        record {
          children = cons c g.children;
          result_is = rw (g.result_is) refl;
          static = (w.0, w.1, g.static);
          value = λ m' d s params. ground (arith, other, g.value m' d s params);
        }

  answer-changed :
      (n : Info H) (cs ds : Nodes H) (b : ℕ) (r m' s : Bytes) (params : List (Bytes × Bytes))
      → ((d : ℕ) (s : Bytes)
          → pick m' ds n.indices (d ∷ s) params
            ≡ updated m h (b ∷ r) m' (d ∷ s) params (pick m' cs n.indices (d ∷ s) params))
      → answer m' (one_more n) ds params (some s)
        ≡ updated m h (b ∷ r) m' s params (answer m' n cs params (some s))
  unfolding bytes_eq
  answer-changed n cs ds b r m' [] params w = ground arith
  answer-changed n cs ds b r m' (d ∷ s) params w = w d s

  module _ (loop : Node H → Bytes → Added (Node H)) (n : Info H) (cs : Nodes H) where
    enter-index :
        (b k : ℕ) (r : Bytes)
        → IsStatic (node n cs)
        → index_byte b n.indices ≡ some k
        → ((c : Node H) → IsStatic c → StartsWith b c → Grown m h (b ∷ r) c (loop c (b ∷ r)))
        → Grown m h (n.path ++ b ∷ r) (node n cs) (enter m h loop n cs (b ∷ r))
    enter-index b k r w e grown =
        let g = change_child-Changed b r (λ c. loop c (b ∷ r)) grown cs n.indices k w.1 e in
        record {
          tree = node (one_more n) g.children;
          result = ground (arith, w.0, e, g.result_is);
          static = (w.0, g.static);
          start = λ a s. s;
          value =
              updated-behind m h n (one_more n) cs g.children (b ∷ r) w (w.0, g.static) refl
                (λ m' s params.
                  answer-changed n cs g.children b r m' s params (λ d t. g.value m' d t params));
        }

    -- One round: the path ends here, goes on in a child, or needs a new one.
    pub enter-Grown :
        (rest : Bytes)
        → IsStatic (node n cs)
        → no_wild rest ≡ true
        → ((c : Node H) (b : ℕ) (r : Bytes)
            → rest ≡ b ∷ r
            → IsStatic c
            → StartsWith b c
            → Grown m h rest c (loop c rest))
        → Grown m h (n.path ++ rest) (node n cs) (enter m h loop n cs rest)
    enter-Grown [] w plain' grown = put_handler-Grown m h n cs w
    enter-Grown (b ∷ r) w plain' grown = elim (Option-cases (index_byte b n.indices)) [
      | inl e ↦
          Grown-same m h (n.path ++ b ∷ r) (node n cs) (ground (arith, w.0, e))
            (grow-Grown n cs b r w e plain')
      | inr (k, e) ↦ enter-index b k r w e (λ c. grown c b r refl)
    ]
