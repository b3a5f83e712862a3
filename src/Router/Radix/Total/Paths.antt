-- ===== src/Router/Radix/Total/Paths.antt =====
-- core/router/radix.go: the parts of a registration end, and give each parameter a path.
use fast_server.Base.{
  Bool-cases, Bytes, Option-cases, [], arith, drop, false, get_or, index_byte, inl, inr, length,
  length-drop, ltb, none, refl, some, suc, take, zero, ℕ, ◌++◌, ◌+◌, ◌==◌, ◌∷◌, ◌≡◌, ◌≢◌, ◌≤◌,
  bytes_key,
}
use fast_server.Router.Radix.{
  Info, Kind, Node, Nodes, add_child, blank_info, catch_all, cons, find_wildcard, is_wild, nil,
  node, param, size, sizes, static,
}
use fast_server.Router.Radix.Insert.{
  Added, added, bad_index, bad_start, catch_all_conflict, catch_all_inside, change_child,
  ends_with_slash, enter, grow, insert_child, keep_prefix, many_wildcards, no_fuel, one_more,
  param_child, put_handler, unnamed, ◌>>=◌,
}

-- The registration is over: in a value with a property, or in a panic.
abbrev pub Over : {T : Type 0} → (T → Type 0) → Added T → Type 0
Over P (added t) = P t
Over P no_fuel = ⊥
Over P _ = Unit

pub bind-Over :
    {S T : Type 0} (P : S → Type 0) (Q : T → Type 0) (x : Added S) (f : S → Added T)
    → Over P x
    → ((s : S) → P s → Over Q (f s))
    → Over Q (x >>= f)
bind-Over P Q (added s) f w k = k s w
bind-Over P Q bad_start f w k = tt
bind-Over P Q many_wildcards f w k = tt
bind-Over P Q unnamed f w k = tt
bind-Over P Q catch_all_inside f w k = tt
bind-Over P Q catch_all_conflict f w k = tt
bind-Over P Q bad_index f w k = tt
bind-Over P Q no_fuel f w k = absurd w

ne_nil-long : (s : Bytes) → ltb (length s) 2 ≡ false → s ≢ []
ne_nil-long [] h = absurd (ground (arith, h))
ne_nil-long (b ∷ s) h = cc

module _ {H : Type 0} where
  -- A parameter has a path that is not empty.
  abbrev pub HasOwnPath : Info H → Type 0
  HasOwnPath n = n.kind ≡ param → n.path ≢ []

  unfoldable mutual
    pub HasPath : Node H → Type 0
    HasPath (node n cs) = HasOwnPath n × HavePaths cs

    pub HavePaths : Nodes H → Type 0
    HavePaths nil = Unit
    HavePaths (cons c cs) = HasPath c × HavePaths cs

  abbrev pub Ends : Added (Node H) → Type 0
  Ends = Over HasPath

  pub Ends-eq : {x : Added (Node H)} (y : Added (Node H)) → y ≡ x → Ends y → Ends x
  Ends-eq y e w = rw (← e) w

  -- A child that a walk goes into is smaller than the children together.
  change_child-Over :
      (cs : Nodes H) (k : ℕ) (f : Node H → Added (Node H))
      → HavePaths cs
      → ((c : Node H) → size c ≤ sizes cs → HasPath c → Ends (f c))
      → Over HavePaths (change_child cs k f)
  unfolding HasPath size
  change_child-Over nil k f w g = tt
  change_child-Over (cons c cs) zero f w g =
      bind-Over HasPath HavePaths (f c) (λ d. added (cons d cs)) (g c (omega arith) w.0)
        (λ d v. (v, w.1))
  change_child-Over (cons c cs) (suc k) f w g =
      bind-Over HavePaths HavePaths (change_child cs k f) (λ ds. added (cons c ds))
        (change_child-Over cs k f w.1 (λ d l v. g d (omega (arith, l)) v)) (λ ds v. (w.0, v))

  add_child-HavePaths :
      (cs : Nodes H) (c : Node H) → HavePaths cs → HasPath c → HavePaths (add_child cs c)
  unfolding HasPath
  add_child-HavePaths nil c w v = (v, tt)
  add_child-HavePaths (cons d cs) c w v = (w.0, add_child-HavePaths cs c w.1 v)

  HasOwnPath-not_param : (n : Info H) → n.kind ≢ param → HasOwnPath n
  HasOwnPath-not_param n k e = absurd (k e)

  -- What stands before a wildcard, and the wildcard, become nodes with names.
  wildcard-HasPath :
      (n u : Info H) (cs ds : Nodes H) (c : Info H)
      → u.kind ≡ n.kind
      → n.kind ≢ param
      → HasOwnPath c
      → HavePaths cs
      → HavePaths ds
      → HasPath (node u (add_child cs (node c ds)))
  unfolding HasPath
  wildcard-HasPath n u cs ds c e k v w x =
      (λ q. absurd (k (ground (arith, e, q))), add_child-HavePaths cs (node c ds) w (v, x))

  pub insert_child-Ends :
      (m : Bytes) (h : H) (fuel : ℕ) (n : Info H) (cs : Nodes H) (path : Bytes)
      → 1 ≤ fuel
      → length path ≤ fuel
      → n.kind ≢ param
      → HavePaths cs
      → Ends (insert_child m h fuel n cs path)
  unfolding insert_child HasPath
  insert_child-Ends m h zero n cs path e l k w = absurd (omega (arith, e))
  insert_child-Ends m h (suc fuel) n cs path e l k w = elim (Option-cases (find_wildcard path)) [
    | inl f ↦
        Ends-eq (added (node (put_handler m h (record n { path = path })) cs)) (ground (arith, f))
          (λ q. absurd (k q), w)
    | inr (x, f) ↦ elim (Bool-cases x.valid) [
      | inr invalid ↦ Ends-eq many_wildcards (ground (arith, f, invalid)) tt
      | inl valid ↦ elim (Bool-cases (ltb (length x.name) 2)) [
        | inl short ↦ Ends-eq unnamed (ground (arith, f, valid, short)) tt
        | inr long ↦ elim (Bool-cases (get_or x.name 0 0 == b':')) [
          | inl colon ↦ elim (Bool-cases (ltb (x.at + length x.name) (length path))) [
            | inl more ↦
                let rest = drop (x.at + length x.name) path in
                let c : Info H = record blank_info { priority = 1 } in
                let shorter : (1 ≤ fuel) × (length rest ≤ fuel) =
                  ground (arith, l, long, more, length-drop (x.at + length x.name) path) in
                let below = insert_child-Ends m h fuel c nil rest shorter.0 shorter.1 (cc) tt in
                let up : Node H → Node H = λ child.
                  node (keep_prefix m h n path x.at)
                    (add_child cs (node (param_child m h x.name) (cons child nil))) in
                Ends-eq (insert_child m h fuel c nil rest >>= λ child. added (up child))
                  (ground (arith, f, valid, long, colon, more))
                  (bind-Over HasPath HasPath (insert_child m h fuel c nil rest)
                    (λ child. added (up child)) below
                    (λ child v.
                      wildcard-HasPath n (keep_prefix m h n path x.at) cs (cons child nil)
                        (param_child m h x.name) (ground arith) k (λ q. ne_nil-long x.name long) w
                        (v, tt)))
            | inr last ↦
                Ends-eq
                  (added (
                    node (keep_prefix m h n path x.at)
                      (add_child cs (node (put_handler m h (param_child m h x.name)) nil))))
                  (ground (arith, f, valid, long, colon, last))
                  (wildcard-HasPath n (keep_prefix m h n path x.at) cs nil
                    (put_handler m h (param_child m h x.name)) (ground arith) k
                    (λ q. ne_nil-long x.name long) w tt)
          ]
          | inr star ↦ elim (Bool-cases (x.at + length x.name == length path)) [
            | inr inside ↦
                Ends-eq catch_all_inside (ground (arith, f, valid, long, star, inside)) tt
            | inl end' ↦ elim (Bool-cases (ends_with_slash n.path)) [
              | inr conflict ↦
                  Ends-eq catch_all_conflict (ground (arith, f, valid, long, star, end', conflict))
                    tt
              | inl slash ↦
                  let c = put_handler m h (record (param_child m h x.name) { kind = catch_all }) in
                  Ends-eq
                    (added (node (record n { path = take x.at path }) (add_child cs (node c nil))))
                    (ground (arith, f, valid, long, star, end', slash))
                    (wildcard-HasPath n (record n { path = take x.at path }) cs nil c refl k
                      (λ q. absurd (ground (arith, q))) w tt)
            ]
          ]
        ]
      ]
    ]
  ]

  grow-Ends :
      (m : Bytes) (h : H) (n : Info H) (cs : Nodes H) (b : ℕ) (path : Bytes)
      → n.kind ≢ param
      → HavePaths cs
      → Ends (grow m h n cs b (b ∷ path))
  unfolding grow HasPath
  grow-Ends m h n cs b path k w = elim (Bool-cases (is_wild b)) [
    | inl wild ↦
        Ends-eq (insert_child m h (length (b ∷ path)) n cs (b ∷ path)) (ground (arith, wild)) (
          insert_child-Ends m h (length (b ∷ path)) n cs (b ∷ path) (omega arith) (omega arith) k w)
    | inr plain' ↦
        let x = insert_child m h (length (b ∷ path)) blank_info nil (b ∷ path) in
        let up : Node H → Node H =
          λ c. node (record n { indices = n.indices ++ b ∷ [] }) (add_child cs c) in
        Ends-eq (x >>= λ c. added (up c)) (ground (arith, plain')) (
          bind-Over HasPath HasPath x (λ c. added (up c))
            (insert_child-Ends m h (length (b ∷ path)) blank_info nil (b ∷ path) (omega arith)
              (omega arith) (cc) tt)
            (λ c v. (λ q. absurd (k q), add_child-HavePaths cs c w v)))
  ]

  -- What the loop does with a node that is no parameter.
  abbrev by_index :
      Bytes → H → (Node H → Bytes → Added (Node H)) → Info H → Nodes H → ℕ → Bytes → Added (Node H)
  by_index m h loop n cs b rest = elim (index_byte b n.indices) [
    | none ↦ grow m h n cs b (b ∷ rest)
    | some k ↦ change_child cs k (λ c. loop c (b ∷ rest)) >>= λ ds. added (node (one_more n) ds)
  ]

  pub enter-Ends :
      (m : Bytes) (h : H) (loop : Node H → Bytes → Added (Node H)) (n : Info H) (cs : Nodes H)
      (path : Bytes)
      → HasPath (node n cs)
      → ((b : ℕ) (rest : Bytes)
          → path ≡ b ∷ rest
          → n.kind ≡ param
          → Ends (loop (node (one_more n) cs) path))
      → ((b : ℕ) (rest : Bytes) (k : ℕ)
          → path ≡ b ∷ rest
          → index_byte b n.indices ≡ some k
          → (c : Node H) → size c ≤ sizes cs
          → HasPath c
          → Ends (loop c path))
      → Ends (enter m h loop n cs path)
  unfolding HasPath
  enter-Ends m h loop n cs [] w p q = w
  enter-Ends m h loop n cs (b ∷ rest) w p q = go n.kind refl
    where
      other : n.kind ≢ param → Ends (by_index m h loop n cs b rest)
      other k = elim (Option-cases (index_byte b n.indices)) [
        | inl f ↦
            Ends-eq (grow m h n cs b (b ∷ rest)) (ground (arith, f))
              (grow-Ends m h n cs b rest k w.1)
        | inr (i, f) ↦
            let x = change_child cs i (λ c. loop c (b ∷ rest)) in
            let up : Nodes H → Node H = λ ds. node (one_more n) ds in
            Ends-eq (x >>= λ ds. added (up ds)) (ground (arith, f)) (
              bind-Over HavePaths HasPath x (λ ds. added (up ds))
                (change_child-Over cs i (λ c. loop c (b ∷ rest)) w.1 (q b rest i refl f))
                (λ ds v. (w.0, v)))
      ]

      go : (kind : Kind) → n.kind ≡ kind → Ends (enter m h loop n cs (b ∷ rest))
      go param e =
          Ends-eq (loop (node (one_more n) cs) (b ∷ rest)) (ground (arith, e)) (p b rest refl e)
      go static e =
          Ends-eq (by_index m h loop n cs b rest) (ground (arith, e))
            (other (λ f. absurd (ground (arith, e, f))))
      go catch_all e =
          Ends-eq (by_index m h loop n cs b rest) (ground (arith, e))
            (other (λ f. absurd (ground (arith, e, f))))
