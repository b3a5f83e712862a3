-- ===== src/Router/Radix/Static/Grow.antt =====
-- core/router/radix.go: what a registration does to a node of a static tree.
use fast_server.Base.{
  Bytes, List, Option, Option-cases, [], ap, append-nil, arith, bytes_eq, false, if◌then◌else◌,
  index_byte, inl, inr, lookup, lookup-insert, none, refl, some, ℕ, ◌&&◌, ◌++◌, ◌∙◌, ◌∷◌, ◌≡◌,
  bytes_key,
}
use fast_server.Router.Radix.{Info, Node, Nodes, add_child, blank_info, cons, nil, node}
use fast_server.Router.Radix.Insert.{Added, added, put_handler}
use fast_server.Router.Radix.Lookup.{Lookup, found, get_value, missing}
use fast_server.Router.Radix.Static.{
  AreStatic, IsStatic, StartsWith, answer, get_value-static, pick, strip, strip-cases,
}

bytes_eq-strip :
    (p r q : Bytes)
    → bytes_eq (p ++ r) q ≡ elim (strip p q) [ none ↦ false | some s ↦ bytes_eq r s ]
unfolding bytes_eq strip
bytes_eq-strip [] r q = refl
bytes_eq-strip (a ∷ p) r [] = refl
bytes_eq-strip (a ∷ p) r (b ∷ q) = ground (arith, bytes_eq-strip p r q)

module _ {H : Type 0} (m : Bytes) (h : H) where
  -- A lookup after the registration of `h` for the method `m` and the path `p`.
  abbrev pub updated : Bytes → Bytes → Bytes → List (Bytes × Bytes) → Lookup H → Lookup H
  updated p m' q params old = if bytes_eq m m' && bytes_eq p q then found h params else old

  -- The registration at a node went through and changed just that.
  pub record Grown (p : Bytes) (t : Node H) (r : Added (Node H)) : Type 0 where
    pub tree : Node H
    pub result : r ≡ added tree
    pub static : IsStatic tree
    pub start : (b : ℕ) → StartsWith b t → StartsWith b tree
    pub value :
        (m' q : Bytes) (params : List (Bytes × Bytes))
        → get_value m' tree q params ≡ updated p m' q params (get_value m' t q params)

  pub Grown-same :
      (p : Bytes) (t : Node H) {r r' : Added (Node H)} → r ≡ r' → Grown p t r' → Grown p t r
  Grown-same p t e g = record {
    tree = g.tree;
    result = e ∙ g.result;
    static = g.static;
    start = g.start;
    value = g.value;
  }

  -- The same for a tree that is found no differently.
  pub Grown-before :
      (p : Bytes) (t u : Node H) (r : Added (Node H))
      → ((b : ℕ) → StartsWith b t → StartsWith b u)
      → ((m' q : Bytes) (params : List (Bytes × Bytes))
          → get_value m' u q params ≡ get_value m' t q params)
      → Grown p u r
      → Grown p t r
  Grown-before p t u r start' same g = record {
    tree = g.tree;
    result = g.result;
    static = g.static;
    start = λ b s. g.start b (start' b s);
    value = λ m' q params. g.value m' q params ∙ ap (updated p m' q params) (same m' q params);
  }

  module _ (n n' : Info H) (cs cs' : Nodes H) (rest : Bytes) where
    -- What is registered below a node, by what is left of a path behind the node's own.
    pub updated-behind :
        IsStatic (node n cs)
        → IsStatic (node n' cs')
        → n'.path ≡ n.path
        → ((m' s : Bytes) (params : List (Bytes × Bytes))
            → answer m' n' cs' params (some s)
              ≡ updated rest m' s params (answer m' n cs params (some s)))
        → (m' q : Bytes) (params : List (Bytes × Bytes))
        → get_value m' (node n' cs') q params
          ≡ updated (n.path ++ rest) m' q params (get_value m' (node n cs) q params)
    updated-behind w w' same step m' q params = elim (Option-cases (strip n.path q)) [
      | inl e ↦ ground (
        arith,
        e,
        same,
        get_value-static m' n cs q params w,
        get_value-static m' n' cs' q params w',
        bytes_eq-strip n.path rest q,
      )
      | inr (s, e) ↦ ground (
        arith,
        e,
        same,
        get_value-static m' n cs q params w,
        get_value-static m' n' cs' q params w',
        bytes_eq-strip n.path rest q,
        step m' s params,
      )
    ]

  -- The path ends at the node.
  here-put_handler :
      (n : Info H) (cs : Nodes H) (m' s : Bytes) (params : List (Bytes × Bytes))
      → answer m' (put_handler m h n) cs params (some s)
        ≡ updated [] m' s params (answer m' n cs params (some s))
  unfolding bytes_eq
  here-put_handler n cs m' [] params = ground (arith, lookup-insert m m' h n.handlers)
  here-put_handler n cs m' (c ∷ s) params = ground arith

  pub put_handler-Grown :
      (n : Info H) (cs : Nodes H)
      → IsStatic (node n cs)
      → Grown (n.path ++ []) (node n cs) (added (node (put_handler m h n) cs))
  put_handler-Grown n cs w = record {
    tree = node (put_handler m h n) cs;
    result = refl;
    static = w;
    start = λ b e. e;
    value = updated-behind n (put_handler m h n) cs cs [] w w refl (here-put_handler n cs);
  }

  -- The node for a path that no child begins like.
  abbrev pub leaf : Bytes → Node H
  leaf path = node (put_handler m h (record blank_info { path = path })) nil

  pub AreStatic-add_child :
      (cs : Nodes H) (ix r : Bytes) (b : ℕ)
      → AreStatic cs ix
      → AreStatic (add_child cs (leaf (b ∷ r))) (ix ++ (b ∷ []))
  AreStatic-add_child nil [] r b w = ((r, refl), (refl, tt), tt)
  AreStatic-add_child nil (a ∷ ix) r b w = elim w [ ]
  AreStatic-add_child (cons c cs) [] r b w = elim w [ ]
  AreStatic-add_child (cons c cs) (a ∷ ix) r b w = (w.0, w.1, AreStatic-add_child cs ix r b w.2)

  answer-leaf :
      (path m' : Bytes) (params : List (Bytes × Bytes)) (o : Option Bytes)
      → answer m' (put_handler m h (record blank_info { path = path })) nil params o ≡ (
          if bytes_eq m m'
          then (elim o [ none ↦ missing | some [] ↦ found h params | some (c ∷ s) ↦ missing ])
          else missing)
  unfolding pick lookup
  answer-leaf path m' params none = ground arith
  answer-leaf path m' params (some []) = ground (arith, lookup-insert m m' h [])
  answer-leaf path m' params (some (c ∷ s)) = ground arith

  pub get_value-leaf :
      (path m' q : Bytes) (params : List (Bytes × Bytes))
      → get_value m' (leaf path) q params ≡ updated path m' q params missing
  unfolding bytes_eq
  get_value-leaf path m' q params = ground (
    arith,
    get_value-static m' (put_handler m h (record blank_info { path = path })) nil q params
        (refl, tt),
    answer-leaf path m' params (strip path q),
    bytes_eq-strip path [] q,
    append-nil path,
    strip-cases path q,
  )

  pub pick-add_child :
      (cs : Nodes H) (b : ℕ) (ix r m' : Bytes) (d : ℕ) (s : Bytes) (params : List (Bytes × Bytes))
      → AreStatic cs ix
      → index_byte b ix ≡ none
      → pick m' (add_child cs (leaf (b ∷ r))) (ix ++ (b ∷ [])) (d ∷ s) params
        ≡ updated (b ∷ r) m' (d ∷ s) params (pick m' cs ix (d ∷ s) params)
  unfolding pick index_byte bytes_eq
  pick-add_child nil b [] r m' d s params w e =
      ground (arith, get_value-leaf (b ∷ r) m' (d ∷ s) params)
  pick-add_child nil b (a ∷ ix) r m' d s params w e = elim w [ ]
  pick-add_child (cons c cs) b [] r m' d s params w e = elim w [ ]
  pick-add_child (cons c cs) b (a ∷ ix) r m' d s params w e =
      ground (arith, pick-add_child cs b ix r m' d s params w.2)
