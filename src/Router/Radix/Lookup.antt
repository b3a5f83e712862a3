-- ===== src/Router/Radix/Lookup.antt =====
-- core/router/radix.go: `Find` and `getValue`.
use fast_server.Base.{
  Bool, Bytes, List, Option, [], bytes_eq, drop, false, get_or, if◌then◌else◌, index_byte, inl, inr,
  insert, length, lookup, ltb, none, refl, some, suc, take, true, zero, ℕ, ◌&&◌, ◌≡◌, ◌⊎◌,
  bytes_key,
}
use fast_server.Router.Radix.{Info, Node, Nodes, catch_all, cons, nil, node, param, segment, static}

-- `missing` is the pair (nil, nil); `bad_index` the panic of a child that is not there.
pub data Lookup (H : Type 0) : Type 0 where
  found : H → List (Bytes × Bytes) → Lookup H
  missing bad_index : Lookup H

abbrev first_byte : Bytes → ℕ
first_byte path = get_or path 0 0

module _ {H : Type 0} (method : Bytes) where
  abbrev pub handler_of : Option H → List (Bytes × Bytes) → Lookup H
  handler_of none params = missing
  handler_of (some h) params = found h params

  -- `if handler := n.handlers[method]; handler != nil`
  abbrev pub here : Info H → List (Bytes × Bytes) → Lookup H
  here n params = handler_of (lookup method n.handlers) params

  -- The node is the end of the path, or there is no match.
  abbrev at_end : Info H → Bytes → List (Bytes × Bytes) → Lookup H
  at_end n path params = if bytes_eq path n.path then here n params else missing

  -- The path goes on below this node.
  abbrev goes_on : Info H → Bytes → Bool
  goes_on n path = ltb (length n.path) (length path) && bytes_eq (take (length n.path) path) n.path

  abbrev has_children : Nodes H → Bool
  has_children nil = false
  has_children (cons c cs) = true

  unfoldable mutual
    -- The loop of `getValue`, entered at a node.
    pub get_value : Node H → Bytes → List (Bytes × Bytes) → Lookup H
    get_value (node n cs) path params =
        let rest = drop (length n.path) path in
        elim (goes_on n path) [
          | false ↦ at_end n path params
          | true ↦ elim (index_byte (first_byte rest) n.indices) [
            | some i ↦ at_child cs i rest params
            | none ↦ at_last cs rest params
          ]
        ]

    -- `n = n.children[i]; continue`
    pub at_child : Nodes H → ℕ → Bytes → List (Bytes × Bytes) → Lookup H
    at_child nil i path params = bad_index
    at_child (cons c cs) zero path params = get_value c path params
    at_child (cons c cs) (suc i) path params = at_child cs i path params

    -- The last child, if it is a wildcard.
    pub at_last : Nodes H → Bytes → List (Bytes × Bytes) → Lookup H
    at_last nil path params = missing
    at_last (cons c nil) path params = at_wild c path params
    at_last (cons c (cons d ds)) path params = at_last (cons d ds) path params

    pub at_wild : Node H → Bytes → List (Bytes × Bytes) → Lookup H
    at_wild (node n cs) path params = elim n.kind [
      | static ↦ missing
      | param ↦
          let value = segment path in
          let params' = insert n.param_name value params in
          elim (ltb (length value) (length path)) [
            | false ↦ here n params'
            | true ↦ elim (has_children cs) [
              | true ↦ at_child cs 0 (drop (length value) path) params'
              | false ↦ missing
            ]
          ]
      | catch_all ↦ here n (insert n.param_name path params)
    ]

  unfoldable pub find : Node H → Bytes → Lookup H
  unfolding get_value
  find t path = get_value t path []

pub Lookup-cases :
    {H : Type 0} (a : Lookup H)
    → (a ≡ missing)
      ⊎ ((a ≡ bad_index) ⊎ ((h : H) × (params : List (Bytes × Bytes)) × (a ≡ found h params)))
Lookup-cases missing = inl refl
Lookup-cases bad_index = inr (inl refl)
Lookup-cases (found h params) = inr (inr (h, params, refl))
