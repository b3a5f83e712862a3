-- ===== src/Router/Fast/Params.antt =====
-- core/router/fast.go: `Add` takes a path with one parameter apart, and `Find` the paths it stands for.
use fast_server.Base.{
  ==_refl, Bytes, Lacks, List, [], ap, append-nil, append_assoc, arith, bytes_eq, bytes_eq_iff,
  bytes_eq_refl, drop, drop-append, drop-drop, drop_past, false, has_prefix, if◌then◌else◌, index,
  index_byte, index_byte-Lacks, index_byte-append, inl, inr, length, length-append, none, refl,
  some, suc, sym, take, take-append, take-length, true, ℕ, ◌++◌, ◌+◌, ◌-◌, ◌==◌, ◌∙◌, ◌∷◌, ◌≡◌, ◌≢◌,
  ◌⊎◌,
}
use fast_server.Router.Fast.{
  FastRouter, ParamRoute, add, agrees, append_route, count, find, find_param_route, health_path,
  new_fast_router, one_param, param_value, ping_path, string_has_prefix, string_has_suffix,
}
use fast_server.Router.Radix.Insert.{added}
use fast_server.Router.Radix.Lookup.{found, missing}

count-append : (c : ℕ) (s t : Bytes) → count c (s ++ t) ≡ count c s + count c t
count-append c [] t = omega arith
count-append c (b ∷ s) t = omega (arith, count-append c s t)

count-Lacks : (c : ℕ) (s : Bytes) → Lacks c s → count c s ≡ 0
count-Lacks c [] h = refl
count-Lacks c (b ∷ s) h = ground (arith, count-Lacks c s h.1)

agrees-append : (s t : Bytes) → agrees (s ++ t) s ≡ true
agrees-append [] t = refl
agrees-append (b ∷ s) t = ground (arith, agrees-append s t)

has_prefix-append : (s t : Bytes) → string_has_prefix (s ++ t) s ≡ true
has_prefix-append s t = ground (arith, agrees-append s t, length-append s t)

agrees_refl : (s : Bytes) → agrees s s ≡ true
agrees_refl [] = refl
agrees_refl (b ∷ s) = rw (==_refl b) (agrees_refl s)

has_suffix-append : (s t : Bytes) → string_has_suffix (s ++ t) t ≡ true
has_suffix-append s t = ground (
  arith,
  agrees_refl t,
  length-append s t,
  drop-append (length (s ++ t) - length t) s t (omega (arith, length-append s t)),
)

has_prefix_refl : (s t : Bytes) → has_prefix s (s ++ t) ≡ true
unfolding has_prefix
has_prefix_refl [] t = refl
has_prefix_refl (b ∷ s) t = ground (arith, has_prefix_refl s t)

-- The value of a parameter ends where the suffix begins.
index-suffix :
    (value s : Bytes)
    → Lacks b'/' value
    → index (b'/' ∷ s) (value ++ b'/' ∷ s) ≡ some (length value)
unfolding index has_prefix
index-suffix [] s h = ground (arith, has_prefix_refl s [], append-nil s)
index-suffix (b ∷ value) s h = ground (arith, index-suffix value s h.1)

abbrev HasNoWild : Bytes → Type 0
HasNoWild s = Lacks b':' s × Lacks b'*' s

-- What stands around a parameter: the suffix is empty, or it begins with a slash.
pub record IsPattern (prefix name suffix : Bytes) : Type 0 where
  pub plain_prefix : HasNoWild prefix
  pub plain_name : HasNoWild name
  pub one_segment : Lacks b'/' name
  pub plain_suffix : HasNoWild suffix
  pub split_off : (suffix ≡ []) ⊎ ((s : Bytes) × (suffix ≡ b'/' ∷ s))

abbrev pub pattern_path : Bytes → Bytes → Bytes → Bytes
pattern_path prefix name suffix = prefix ++ (b':' ∷ (name ++ suffix))

pattern-counts :
    (prefix name suffix : Bytes)
    → IsPattern prefix name suffix
    → (count b':' (pattern_path prefix name suffix) ≡ 1)
      × (count b'*' (pattern_path prefix name suffix) ≡ 0)
      × (index_byte b':' (pattern_path prefix name suffix) ≡ some (length prefix))
pattern-counts prefix name suffix w = (
  counted b':' w.plain_prefix.0 w.plain_name.0 w.plain_suffix.0,
  counted b'*' w.plain_prefix.1 w.plain_name.1 w.plain_suffix.1,
  index_byte-append b':' prefix (name ++ suffix) w.plain_prefix.0,
)
  where
    counted :
        (c : ℕ)
        → Lacks c prefix
        → Lacks c name
        → Lacks c suffix
        → count c (pattern_path prefix name suffix) ≡ (if b':' == c then 1 else 0)
    counted c p n s = ground (
      arith,
      count-append c prefix (b':' ∷ (name ++ suffix)),
      count-append c name suffix,
      count-Lacks c prefix p,
      count-Lacks c name n,
      count-Lacks c suffix s,
    )

module _ {H : Type 0} (method : Bytes) (handler : H) where
  abbrev route_of : Bytes → Bytes → Bytes → ParamRoute H
  route_of prefix name suffix = record {
    method = method;
    prefix = prefix;
    suffix = suffix;
    param_name = name;
    handler = handler;
    prefix_len = length prefix;
    has_wildcard = false;
  }

  -- `Add` takes the path apart at its parameter.
  one_param-pattern :
      (prefix name suffix : Bytes)
      → IsPattern prefix name suffix
      → one_param method (pattern_path prefix name suffix) handler (length prefix)
        ≡ route_of prefix name suffix
  one_param-pattern prefix name suffix w = elim w.split_off [
    | inl e ↦ at_the_end e
    | inr (s, e) ↦ inside s e
  ]
    where
      cut : drop (length prefix) (pattern_path prefix name suffix) ≡ b':' ∷ (name ++ suffix)
      cut = drop-append (length prefix) prefix (b':' ∷ (name ++ suffix)) refl

      front : take (length prefix) (pattern_path prefix name suffix) ≡ prefix
      front = take-append (length prefix) prefix (b':' ∷ (name ++ suffix)) refl

      past : drop (length prefix + 1) (pattern_path prefix name suffix) ≡ name ++ suffix
      past = drop_past prefix b':' (name ++ suffix)

      behind : drop (length prefix + suc (length name)) (pattern_path prefix name suffix) ≡ suffix
      behind =
          sym (drop-drop (length prefix) (suc (length name)) (pattern_path prefix name suffix))
          ∙ ap (drop (suc (length name))) cut
          ∙ drop-append (length name) name suffix refl

      at_the_end :
          suffix ≡ []
          → one_param method (pattern_path prefix name suffix) handler (length prefix)
            ≡ route_of prefix name suffix
      at_the_end e = ground (
        arith,
        e,
        cut,
        front,
        past,
        append-nil name,
        index_byte-Lacks b'/' (b':' ∷ name) (omega arith, w.one_segment),
      )

      inside :
          (s : Bytes)
          → suffix ≡ b'/' ∷ s
          → one_param method (pattern_path prefix name suffix) handler (length prefix)
            ≡ route_of prefix name suffix
      inside s e = ground (
        arith,
        e,
        cut,
        front,
        past,
        behind,
        take-append (length name) name suffix refl,
        index_byte-append b'/' (b':' ∷ name) s (omega arith, w.one_segment),
      )

  param_value-pattern :
      (prefix name suffix value : Bytes)
      → Lacks b'/' value
      → (suffix ≡ []) ⊎ ((s : Bytes) × (suffix ≡ b'/' ∷ s))
      → param_value (route_of prefix name suffix) method (prefix ++ (value ++ suffix)) ≡ some value
  param_value-pattern prefix name suffix value v (inl e) = ground (
    arith,
    e,
    bytes_eq_refl method,
    has_prefix-append prefix (value ++ suffix),
    length-append prefix (value ++ suffix),
    drop-append (length prefix) prefix (value ++ suffix) refl,
    take-length value,
    append-nil value,
  )
  param_value-pattern prefix name suffix value v (inr (s, e)) = ground (
    arith,
    e,
    bytes_eq_refl method,
    has_prefix-append prefix (value ++ suffix),
    length-append prefix (value ++ suffix),
    drop-append (length prefix) prefix (value ++ suffix) refl,
    index-suffix value s v,
    has_suffix-append (prefix ++ value) suffix,
    append_assoc prefix value suffix,
    take-append (length value) value suffix refl,
  )

not_known :
    (p : Bytes)
    → count b':' p ≡ 1
    → (bytes_eq p health_path ≡ false) × (bytes_eq p ping_path ≡ false)
not_known p e = (unlike health_path refl, unlike ping_path refl)
  where
    unlike : (q : Bytes) → count b':' q ≡ 0 → bytes_eq p q ≡ false
    unlike q z = ground (arith, e, z, ap (count b':') ((bytes_eq_iff p q).0 _))

module _ {H : Type 0} where
  -- A known route that is switched on has its handler.
  pub record IsReady (r : FastRouter H) : Type 0 where
    pub health : r.has_health_check ≡ true → r.health_handler ≢ none
    pub ping : r.has_ping ≡ true → r.ping_handler ≢ none

  pub new_fast_router-IsReady : IsReady new_fast_router
  new_fast_router-IsReady = record { health = λ e. cc; ping = λ e. cc }

  -- `Add` keeps the known routes ready.
  pub add-IsReady :
      (method path : Bytes) (handler : H) (r u : FastRouter H)
      → IsReady r
      → add method path handler r ≡ added u
      → IsReady u
  unfolding add
  add-IsReady method path handler r u w e = record {
    health = λ h n. ground (arith, w.health, w.ping, e);
    ping = λ h n. ground (arith, w.health, w.ping, e);
  }

  find_param_route-append :
      (routes : List (ParamRoute H)) (route : ParamRoute H) (method path : Bytes)
      → find_param_route routes method path ≡ missing
      → find_param_route (routes ++ route ∷ []) method path
        ≡ find_param_route (route ∷ []) method path
  unfolding find_param_route
  find_param_route-append [] route method path e = refl
  find_param_route-append (s ∷ routes) route method path e =
      ground (arith, find_param_route-append routes route method path)

  -- A request that the router does not know reaches a route that takes it.
  find-append_route :
      (r : FastRouter H) (route : ParamRoute H) (method path value : Bytes)
      → IsReady r
      → find r method path ≡ missing
      → param_value route method path ≡ some value
      → find (append_route r route) method path
        ≡ found route.handler ((route.param_name, value) ∷ [])
  unfolding find find_param_route
  find-append_route r route method path value w e v =
      ground
        (arith, w.health, w.ping, e, v, find_param_route-append r.param_routes route method path)

  add-pattern :
      (r : FastRouter H) (method prefix name suffix : Bytes) (handler : H)
      → IsPattern prefix name suffix
      → add method (pattern_path prefix name suffix) handler r
        ≡ added (append_route r (route_of method handler prefix name suffix))
  unfolding add
  add-pattern r method prefix name suffix handler w = ground (
    arith,
    not_known (pattern_path prefix name suffix),
    pattern-counts prefix name suffix w,
    one_param-pattern method handler prefix name suffix w,
  )

  -- A path of a pattern, whose value has no slash, reaches the handler with that value, if the
  -- router, whose known routes have handlers, knew no answer to it before.
  pub find-add :
      (r : FastRouter H) (method prefix name suffix value : Bytes) (handler : H)
      → IsReady r
      → IsPattern prefix name suffix
      → Lacks b'/' value
      → find r method (prefix ++ (value ++ suffix)) ≡ missing
      → (u : FastRouter H) × (add method (pattern_path prefix name suffix) handler r ≡ added u)
        × (find u method (prefix ++ (value ++ suffix)) ≡ found handler ((name, value) ∷ []))
  find-add r method prefix name suffix value handler w p v e = (
    append_route r (route_of method handler prefix name suffix),
    add-pattern r method prefix name suffix handler p,
    find-append_route r _ method _ value w e
        (param_value-pattern method handler prefix name suffix value v p.split_off),
  )
