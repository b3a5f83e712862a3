-- ===== src/Router/Compiled.antt =====
-- core/router/compiled.go: the router that keeps static routes in a map, routes with parameters in a
-- tree of segments, and wildcards in a list, behind a cache of answers. The counters `hits` and
-- `misses`, which nothing changes, are left out. A handler that is registered is not nil.
pub mod Cache
pub mod Segments
pub mod Ascii
pub mod Tests
use fast_server.Base.{
  Bytes, List, Option, [], bytes_eq, drop, false, has_prefix, if◌then◌else◌, index_byte, insert,
  length, lookup, ltb, none, not, set, some, split, take, true, ℕ, ◌&&◌, ◌++◌, ◌+◌, ◌==◌, ◌∷◌,
  bytes_key,
}
use fast_server.Router.Fast.{contains}
use fast_server.Router.Radix.Insert.{Added, added, bad_start, ◌>>=◌}
use fast_server.Router.Radix.Lookup.{Lookup, found, missing, handler_of}

-- The fields of a `compiledNode` besides its pointers.
pub record Parts (H : Type 0) : Type 0 where
  pub param_name : Bytes
  pub handlers : List (Bytes × H)
  pub segment : Bytes

mutual
  pub data CompiledNode (H : Type 0) : Type 0 where
    compiled : Parts H → Children H → ParamChild H → CompiledNode H

  -- The array of 128 children: those that are not nil, with their places.
  pub data Children (H : Type 0) : Type 0 where
    childless : Children H
    child : ℕ → CompiledNode H → Children H → Children H

  pub data ParamChild (H : Type 0) : Type 0 where
    no_param : ParamChild H
    with_param : CompiledNode H → ParamChild H

pub record WildcardRoute (H : Type 0) : Type 0 where
  pub prefix : Bytes
  pub param_key : Bytes
  pub handlers : List (Bytes × H)

pub record CachedResult (H : Type 0) : Type 0 where
  pub handler : H
  pub params : List (Bytes × Bytes)

pub record CompiledRouter (H : Type 0) : Type 0 where
  pub static_routes : List (Bytes × List (Bytes × H))
  pub param_routes : CompiledNode H
  pub wildcard_routes : List (WildcardRoute H)
  pub cache : List (Bytes × CachedResult H)

module _ {H : Type 0} where
  -- A node without children and handlers.
  abbrev pub fresh : Bytes → Bytes → CompiledNode H
  fresh param_name segment =
      compiled (record { param_name = param_name; handlers = []; segment = segment }) childless
        no_param

  abbrev pub new_compiled_router : CompiledRouter H
  new_compiled_router = record {
    static_routes = [];
    param_routes = fresh [] [];
    wildcard_routes = [];
    cache = [];
  }

  -- `node.staticChildren[idx]`
  abbrev pub child_at : ℕ → Children H → Option (CompiledNode H)
  child_at i childless = none
  child_at i (child j n cs) = if j == i then some n else child_at i cs

  abbrev pub set_child : ℕ → CompiledNode H → Children H → Children H
  set_child i n childless = child i n childless
  set_child i n (child j m cs) = if j == i then child i n cs else child j m (set_child i n cs)

  -- The child at a place, made for the segment if there is none.
  abbrev pub child_or_new : ℕ → Bytes → Children H → CompiledNode H
  child_or_new i segment cs = elim (child_at i cs) [ none ↦ fresh [] segment | some n ↦ n ]

  abbrev pub param_or_new : Bytes → ParamChild H → CompiledNode H
  param_or_new name no_param = fresh name []
  param_or_new name (with_param n) = n

  abbrev pub segment_of : CompiledNode H → Bytes
  segment_of (compiled p cs q) = p.segment

  abbrev pub name_of : CompiledNode H → Bytes
  name_of (compiled p cs q) = p.param_name

  -- `r.staticRoutes[path]`, made if it is not there.
  abbrev pub methods_at : Bytes → CompiledRouter H → List (Bytes × H)
  methods_at path r = elim (lookup path r.static_routes) [ none ↦ [] | some methods ↦ methods ]

module _ {H : Type 0} (method : Bytes) (handler : H) where
  -- The loop of `addParamRoute`, and the handler that is set behind it.
  unfoldable pub add_segments : List Bytes → CompiledNode H → Added (CompiledNode H)
  add_segments [] (compiled p cs q) =
      added (compiled (record p { handlers = insert method handler p.handlers }) cs q)
  add_segments ([] ∷ segments) n = add_segments segments n
  add_segments ((c ∷ s) ∷ segments) (compiled p cs q) = elim (c == b':') [
    | true ↦ do n ← add_segments segments (param_or_new s q); added (compiled p cs (with_param n))
    | false ↦ elim (ltb c 128) [
      | true ↦ (do
        n ← add_segments segments (child_or_new c (c ∷ s) cs)
        added (compiled p (set_child c n cs) q))
      | false ↦ Added.bad_index
    ]
  ]

  -- `addStaticRoute`
  abbrev pub add_static_route : Bytes → CompiledRouter H → CompiledRouter H
  add_static_route path r =
      let methods = methods_at path r in
      record r { static_routes = insert path (insert method handler methods) r.static_routes }

  -- `addParamRoute`
  abbrev pub add_param_route : Bytes → CompiledRouter H → Added (CompiledRouter H)
  add_param_route path r = do
    n ← add_segments (split b'/' (drop 1 path)) r.param_routes
    added (record r { param_routes = n })

  abbrev wildcard_route : ℕ → Bytes → WildcardRoute H
  wildcard_route idx path = record {
    prefix = take idx path;
    param_key = drop (idx + 1) path;
    handlers = (method, handler) ∷ [];
  }

  -- `addWildcardRoute`
  abbrev pub add_wildcard_route : Bytes → CompiledRouter H → Added (CompiledRouter H)
  add_wildcard_route path r = elim (index_byte b'*' path) [
    | none ↦ Added.bad_index
    | some idx ↦
        added (record r { wildcard_routes = r.wildcard_routes ++ wildcard_route idx path ∷ [] })
  ]

  -- `Add`
  pub add : Bytes → CompiledRouter H → Added (CompiledRouter H)
  add [] r = Added.bad_index
  add (b ∷ path) r =
      if not (b == b'/')
      then bad_start
      else if not (contains b':' (b ∷ path)) && not (contains b'*' (b ∷ path))
      then added (add_static_route (b ∷ path) r)
      else if contains b'*' (b ∷ path)
      then add_wildcard_route (b ∷ path) r
      else add_param_route (b ∷ path) r

abbrev pub cache_key : Bytes → Bytes → Bytes
cache_key method path = method ++ b':' ∷ path

module _ {H : Type 0} (method : Bytes) where
  -- The static child that stands for the segment.
  abbrev pub static_match : ℕ → Bytes → Children H → Option (CompiledNode H)
  static_match c segment cs = elim (child_at c cs) [
    | none ↦ none
    | some n ↦ if bytes_eq (segment_of n) segment then some n else none
  ]

  -- The loop of `findParamRoute`, and the handler that is read behind it.
  unfoldable pub find_segments : List Bytes → CompiledNode H → List (Bytes × Bytes) → Lookup H
  find_segments [] (compiled p cs q) params = handler_of method (lookup method p.handlers) params
  find_segments ([] ∷ segments) n params = find_segments segments n params
  find_segments ((c ∷ s) ∷ segments) (compiled p cs q) params = elim (ltb c 128) [
    | false ↦ Lookup.bad_index
    | true ↦ elim (static_match c (c ∷ s) cs) [
      | some n ↦ find_segments segments n params
      | none ↦ elim q [
        | with_param n ↦ find_segments segments n (insert (name_of n) (c ∷ s) params)
        | no_param ↦ missing
      ]
    ]
  ]

  -- `findParamRoute`; on an empty path the slice `path[1:]` panics.
  abbrev pub find_param_route : CompiledNode H → Bytes → Lookup H
  find_param_route n [] = Lookup.bad_index
  find_param_route n (b ∷ path) = find_segments (split b'/' path) n []

  -- `findWildcardRoute`
  pub find_wildcard_route : List (WildcardRoute H) → Bytes → Lookup H
  find_wildcard_route [] path = missing
  find_wildcard_route (route ∷ routes) path =
      let rest = find_wildcard_route routes path in
      if has_prefix route.prefix path
      then (elim (lookup method route.handlers) [
        | some h ↦ found h ((route.param_key, drop (length route.prefix) path) ∷ [])
        | none ↦ rest
      ])
      else rest

  -- `r.staticRoutes[path][method]`
  abbrev pub find_static : CompiledRouter H → Bytes → Option H
  find_static r path = elim (lookup path r.static_routes) [
    | none ↦ none
    | some methods ↦ lookup method methods
  ]

  abbrev pub store : Bytes → H → List (Bytes × Bytes) → CompiledRouter H → CompiledRouter H
  store path h params r = record r {
    cache = insert (cache_key method path) (record { handler = h; params = params }) r.cache;
  }

  -- `Find`
  pub find : CompiledRouter H → Bytes → Lookup H × CompiledRouter H
  find r path = elim (lookup (cache_key method path) r.cache) [
    | some c ↦ (found c.handler c.params, r)
    | none ↦ elim (find_static r path) [
      | some h ↦ (found h [], store path h [] r)
      | none ↦ elim (find_param_route r.param_routes path) [
        | found h params ↦ (found h params, store path h params r)
        | Lookup.bad_index ↦ (Lookup.bad_index, r)
        | missing ↦ (find_wildcard_route r.wildcard_routes path, r)
      ]
    ]
  ]

-- `ClearCache`
abbrev pub clear_cache : {H : Type 0} → CompiledRouter H → CompiledRouter H
clear_cache r = record r { cache = [] }
