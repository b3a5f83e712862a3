-- ===== src/Router/Radix/Insert.antt =====
-- core/router/radix.go: `Add`, `addRoute` and `insertChild`.
use fast_server.Base.{
  Bool, Bytes, [], drop, false, get_or, if◌then◌else◌, index_byte, insert, length, ltb, none, not,
  some, suc, take, zero, ℕ, ◌%◌, ◌++◌, ◌+◌, ◌-◌, ◌==◌, ◌^◌, ◌∷◌, bytes_key,
}
use fast_server.Router.Radix.{
  Info, Node, Nodes, add_child, blank_info, catch_all, cons, find_wildcard, is_wild,
  longest_common_prefix, nil, node, param, size, static,
}

-- The tree after a registration; the panics of `Add`, by their messages, and that of an index that
-- is out of range; and fuel that ran out.
pub data Added (T : Type 0) : Type 0 where
  added : T → Added T
  bad_start many_wildcards unnamed catch_all_inside catch_all_conflict bad_index no_fuel : Added T

infixl 5 ◌>>=◌
abbrev pub ◌>>=◌ : {S T : Type 0} → Added S → (S → Added T) → Added T
added a >>= f = f a
bad_start >>= f = bad_start
many_wildcards >>= f = many_wildcards
unnamed >>= f = unnamed
catch_all_inside >>= f = catch_all_inside
catch_all_conflict >>= f = catch_all_conflict
bad_index >>= f = bad_index
no_fuel >>= f = no_fuel

-- `len(p) > 0 && p[len(p)-1] == '/'`
unfoldable pub ends_with_slash : Bytes → Bool
ends_with_slash [] = false
ends_with_slash (b ∷ []) = b == b'/'
ends_with_slash (b ∷ c ∷ s) = ends_with_slash (c ∷ s)

module _ {H : Type 0} where
  -- `n.children[i]`, walked into and put back.
  abbrev pub change_child : Nodes H → ℕ → (Node H → Added (Node H)) → Added (Nodes H)
  change_child nil i f = bad_index
  change_child (cons c cs) zero f = do d ← f c; added (cons d cs)
  change_child (cons c cs) (suc i) f = do ds ← change_child cs i f; added (cons c ds)

  abbrev pub one_more : Info H → Info H
  one_more n = record n { priority = (n.priority + 1) % 2 ^ 32 }

  -- The lower half of a split edge: it takes over all but the name of a parameter.
  abbrev pub lower : Info H → ℕ → Info H
  lower n i = record blank_info {
    path = drop i n.path;
    indices = n.indices;
    handlers = n.handlers;
    priority = (n.priority + (2 ^ 32 - 1)) % 2 ^ 32;
    kind = n.kind;
  }

  abbrev pub upper : Info H → Bytes → ℕ → Info H
  upper n path i = record n {
    path = take i path;
    indices = get_or n.path i 0 ∷ [];
    handlers = [];
    kind = static;
  }

module _ {H : Type 0} (method : Bytes) (handler : H) where
  abbrev pub put_handler : Info H → Info H
  put_handler n = record n { handlers = insert method handler n.handlers }

  abbrev pub param_child : Bytes → Info H
  param_child wildcard = record blank_info {
    path = wildcard;
    priority = 1;
    kind = param;
    param_name = drop 1 wildcard;
  }

  -- The prefix before a parameter stays with the node, if there is one.
  abbrev pub keep_prefix : Info H → Bytes → ℕ → Info H
  keep_prefix n path i = if ltb 0 i then record n { path = take i path } else n

  -- `insertChild`, on fuel: each round takes a wildcard off the path.
  unfoldable pub insert_child : ℕ → Info H → Nodes H → Bytes → Added (Node H)
  insert_child zero n cs path = no_fuel
  insert_child (suc fuel) n cs path = elim (find_wildcard path) [
    | none ↦ added (node (put_handler (record n { path = path })) cs)
    | some w ↦
        let rest = drop (w.at + length w.name) path in
        let below = insert_child fuel (record blank_info { priority = 1 }) nil rest in
        if not w.valid
        then many_wildcards
        else if ltb (length w.name) 2
        then unnamed
        else if get_or w.name 0 0 == b':'
        then (if ltb (w.at + length w.name) (length path)
            then (do
              child ← below
              added (
                  node (keep_prefix n path w.at)
                    (add_child cs (node (param_child w.name) (cons child nil)))))
            else added (
                node (keep_prefix n path w.at)
                  (add_child cs (node (put_handler (param_child w.name)) nil))))
        else if not (w.at + length w.name == length path)
        then catch_all_inside
        else if ends_with_slash n.path
        then added (
            node (record n { path = take w.at path })
              (add_child cs
                (node (put_handler (record (param_child w.name) { kind = catch_all })) nil)))
        else catch_all_conflict
  ]

  -- A child for the first byte `idxc` of the path, or a wildcard put into the node itself.
  unfoldable pub grow : Info H → Nodes H → ℕ → Bytes → Added (Node H)
  unfolding insert_child
  grow n cs idxc path = if is_wild idxc then insert_child (length path) n cs path else (do
    child ← insert_child (length path) blank_info nil path
    added (node (record n { indices = n.indices ++ idxc ∷ [] }) (add_child cs child)))

  -- What the loop does with a node, once an edge is split; `loop` is its next round.
  abbrev pub enter : (Node H → Bytes → Added (Node H)) → Info H → Nodes H → Bytes → Added (Node H)
  enter loop n cs [] = added (node (put_handler n) cs)
  enter loop n cs (idxc ∷ path) = elim n.kind [
    | param ↦ loop (node (one_more n) cs) (idxc ∷ path)
    | _ ↦ elim (index_byte idxc n.indices) [
      | none ↦ grow n cs idxc (idxc ∷ path)
      | some k ↦ do ds ← change_child cs k (λ c. loop c (idxc ∷ path)); added (node (one_more n) ds)
    ]
  ]

  -- The loop of `addRoute`, on fuel: each round that goes on is at a smaller tree, or takes the name of
  -- a parameter off the path.
  unfoldable pub add_loop : ℕ → Node H → Bytes → Added (Node H)
  unfolding grow
  add_loop zero t path = no_fuel
  add_loop (suc fuel) (node n cs) path =
      let i = longest_common_prefix path n.path in
      let split =
        enter (add_loop fuel) (upper n path i) (cons (node (lower n i) cs) nil) (drop i path) in
      let whole = enter (add_loop fuel) n cs (drop i path) in
      if ltb i (length n.path) then split else whole

  unfoldable pub set_static : Node H → Added (Node H)
  set_static (node n cs) = added (node (record n { kind = static }) cs)

  -- `addRoute`: a route in an empty tree, or the loop.
  unfoldable pub add_route : Node H → Bytes → Added (Node H)
  unfolding set_static
  add_route (node n nil) path =
      if length n.path == 0
      then (insert_child (suc (length path)) n nil path >>= set_static)
      else add_loop (suc (length path + size (node n nil))) (node n nil) path
  add_route (node n (cons c cs)) path =
      add_loop (suc (length path + size (node n (cons c cs)))) (node n (cons c cs)) path

  -- `Add`
  unfoldable pub add : Node H → Bytes → Added (Node H)
  unfolding add_route
  add t [] = bad_index
  add t (b ∷ path) = if b == b'/' then add_route t (b ∷ path) else bad_start
