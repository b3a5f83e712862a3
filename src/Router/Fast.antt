-- ===== src/Router/Fast.antt =====
-- core/router/fast.go: the router that tries two known routes, a table keyed by a hash, and a list
-- of routes with one wildcard, before it asks a radix tree. A handler that is registered is not nil.
pub mod Table
pub mod Params
pub mod Tests
use Prim.Native.Nat.{bit_xor}
use fast_server.Base.{
  Bool, Bytes, List, Option, [], bytes_eq, codes, drop, false, if◌then◌else◌, index, index_byte,
  insert, length, lookup, ltb, none, not, some, take, true, ℕ, ◌%◌, ◌&&◌, ◌*◌, ◌++◌, ◌+◌, ◌-◌, ◌==◌,
  ◌^◌, ◌∷◌, nat_eq,
}
use fast_server.Router.Radix.{Node, new_router}
use fast_server.Router.Radix.Insert.{Added, added, bad_index, ◌>>=◌}
use fast_server.Router.Radix.Insert
use fast_server.Router.Radix.Lookup
use fast_server.Router.Radix.Lookup.{Lookup, found, handler_of, missing}

pub record ParamRoute (H : Type 0) : Type 0 where
  pub method : Bytes
  pub prefix : Bytes
  pub suffix : Bytes
  pub param_name : Bytes
  pub handler : H
  pub prefix_len : ℕ
  pub has_wildcard : Bool

pub record FastRouter (H : Type 0) : Type 0 where
  pub static_map : List (ℕ × H)
  pub has_health_check : Bool
  pub health_handler : Option H
  pub has_ping : Bool
  pub ping_handler : Option H
  pub param_routes : List (ParamRoute H)
  pub radix : Node H

-- `NewFastRouter`
abbrev pub new_fast_router : {H : Type 0} → FastRouter H
new_fast_router = record {
  static_map = [];
  has_health_check = false;
  health_handler = none;
  has_ping = false;
  ping_handler = none;
  param_routes = [];
  radix = new_router;
}

abbrev fnv_prime : ℕ
fnv_prime = 1099511628211

abbrev fnv_offset : ℕ
fnv_offset = 14695981039346656037

-- One of the two loops of `hashRoute`.
pub hash_bytes : ℕ → Bytes → ℕ
hash_bytes hash [] = hash
hash_bytes hash (b ∷ s) = hash_bytes (bit_xor hash b * fnv_prime % 2 ^ 64) s

pub hash_route : Bytes → Bytes → ℕ
unfolding hash_bytes
hash_route method path = hash_bytes (hash_bytes fnv_offset method) path

-- The loop of `stringHasPrefix` and of `stringHasSuffix`.
abbrev pub agrees : Bytes → Bytes → Bool
agrees s [] = true
agrees [] (p ∷ pat) = false
agrees (b ∷ s) (p ∷ pat) = b == p && agrees s pat

abbrev pub string_has_prefix : Bytes → Bytes → Bool
string_has_prefix s prefix = if ltb (length s) (length prefix) then false else agrees s prefix

abbrev pub string_has_suffix : Bytes → Bytes → Bool
string_has_suffix s suffix =
    if ltb (length s) (length suffix)
    then false
    else agrees (drop (length s - length suffix) s) suffix

-- `strings.Count` of one byte, and `strings.Contains`.
abbrev pub count : ℕ → Bytes → ℕ
count c [] = 0
count c (b ∷ s) = (if b == c then 1 else 0) + count c s

abbrev pub contains : ℕ → Bytes → Bool
contains c s = ltb 0 (count c s)

abbrev pub health_path : Bytes
health_path = codes "/health"

abbrev pub ping_path : Bytes
ping_path = codes "/ping"

abbrev pub get : Bytes
get = codes "GET"

-- The end of the parameter's value in what follows the prefix, if the route has a suffix.
abbrev pub value_end : Bytes → Bytes → Bytes → Option ℕ
value_end suffix path rest = elim suffix [
  | [] ↦ some (length rest)
  | b ∷ s ↦ elim (index (b ∷ s) rest) [
    | none ↦ none
    | some at ↦ if string_has_suffix path (b ∷ s) then some at else none
  ]
]

module _ {H : Type 0} where
  -- The route of a path with one parameter, whose ':' stands at `idx`.
  abbrev pub one_param : Bytes → Bytes → H → ℕ → ParamRoute H
  one_param method path handler idx = elim (index_byte b'/' (drop idx path)) [
    | none ↦ record {
      method = method;
      prefix = take idx path;
      suffix = [];
      param_name = drop (idx + 1) path;
      handler = handler;
      prefix_len = length (take idx path);
      has_wildcard = false;
    }
    | some slash ↦ record {
      method = method;
      prefix = take idx path;
      suffix = drop (idx + slash) path;
      param_name = take (slash - 1) (drop (idx + 1) path);
      handler = handler;
      prefix_len = length (take idx path);
      has_wildcard = false;
    }
  ]

  -- The route of a path with a '*' at `idx`.
  abbrev pub wildcard : Bytes → Bytes → H → ℕ → ParamRoute H
  wildcard method path handler idx = record {
    method = method;
    prefix = take idx path;
    suffix = [];
    param_name = drop (idx + 1) path;
    handler = handler;
    prefix_len = length (take idx path);
    has_wildcard = true;
  }

  abbrev pub append_route : FastRouter H → ParamRoute H → FastRouter H
  append_route r route = record r { param_routes = r.param_routes ++ route ∷ [] }

  abbrev with_radix : FastRouter H → Added (Node H) → Added (FastRouter H)
  with_radix r tree = do t ← tree; added (record r { radix = t })

  -- `Add`
  pub add : Bytes → Bytes → H → FastRouter H → Added (FastRouter H)
  add method path handler r =
      if bytes_eq method get && bytes_eq path health_path
      then added (record r { has_health_check = true; health_handler = some handler })
      else if bytes_eq method get && bytes_eq path ping_path
      then added (record r { has_ping = true; ping_handler = some handler })
      else if not (contains b':' path) && not (contains b'*' path)
      then added (record r { static_map = insert (hash_route method path) handler r.static_map })
      else if (count b':' path == 1) && not (contains b'*' path)
      then (elim (index_byte b':' path) [
        | none ↦ bad_index
        | some idx ↦ added (append_route r (one_param method path handler idx))
      ])
      else if contains b'*' path
      then (elim (index_byte b'*' path) [
        | none ↦ bad_index
        | some idx ↦ added (append_route r (wildcard method path handler idx))
      ])
      else with_radix r (Insert.add method handler r.radix path)

  -- One round of `findParamRouteFast`: the value that the route takes from the path.
  abbrev pub param_value : ParamRoute H → Bytes → Bytes → Option Bytes
  param_value route method path =
      if not (bytes_eq route.method method)
      then none
      else if ltb (length path) route.prefix_len
      then none
      else if not (string_has_prefix path route.prefix)
      then none
      else if route.has_wildcard
      then some (drop route.prefix_len path)
      else (elim (value_end route.suffix path (drop route.prefix_len path)) [
        | none ↦ none
        | some at ↦ some (take at (drop route.prefix_len path))
      ])

  pub find_param_route : List (ParamRoute H) → Bytes → Bytes → Lookup H
  find_param_route [] method path = missing
  find_param_route (route ∷ routes) method path = elim (param_value route method path) [
    | some value ↦ found route.handler ((route.param_name, value) ∷ [])
    | none ↦ find_param_route routes method path
  ]

  -- What `Find` does behind the table.
  abbrev pub find_behind : FastRouter H → Bytes → Bytes → Lookup H
  find_behind r method path = elim (find_param_route r.param_routes method path) [
    | missing ↦ Lookup.find method r.radix path
    | answer ↦ answer
  ]

  -- `Find`
  pub find : FastRouter H → Bytes → Bytes → Lookup H
  find r method path =
      if r.has_health_check
        && (length path == 7)
        && bytes_eq path health_path
        && bytes_eq method get
      then handler_of method r.health_handler []
      else if r.has_ping && (length path == 5) && bytes_eq path ping_path && bytes_eq method get
      then handler_of method r.ping_handler []
      else (elim (lookup (hash_route method path) r.static_map) [
        | some handler ↦ found handler []
        | none ↦ find_behind r method path
      ])
