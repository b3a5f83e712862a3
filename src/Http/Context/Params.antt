-- ===== src/Http/Context/Params.antt =====
-- core/http/context_fd.go: the parameters of a route.
use fast_server.Base.{
  Bool, Bool-cases, Bytes, List, [], arith, bytes_eq, false, get_or, if◌then◌else◌, inl, inr,
  length, length-set, lookup-insert, ltb, none, not, refl, set, some, suc, true, zero, ℕ, ◌&&◌, ◌+◌,
  ◌<◌, ◌==◌, ◌∷◌, ◌≡◌, ◌≤◌, bytes_key,
}
use fast_server.Http.Request.{Request}
use fast_server.Http.Request.Headers.{clear_lem}
use fast_server.Http.Context.{
  Context, find_param, new_context, param, reset_context, set_param, slots,
}

-- Four slots, of which the first `param_count` are in use.
pub record HasSlots (c : Context) : Type 0 where
  pub keys : length c.param_keys ≡ 4
  pub values : length c.param_values ≡ 4
  pub count : c.param_count ≤ 4

pub new_context-HasSlots : (fd : ℕ) (req : Request) → HasSlots (new_context fd req)
unfolding new_context
new_context-HasSlots fd req = record { keys = refl; values = refl; count = omega arith }

get_or-set :
    {A : Type 0} (xs : List A) (i j : ℕ) (v d : A)
    → i < length xs
    → get_or (set xs i v) j d ≡ (if i == j then v else get_or xs j d)
get_or-set [] i j v d h = absurd (omega arith)
get_or-set (x ∷ xs) zero zero v d h = refl
get_or-set (x ∷ xs) zero (suc j) v d h = ground arith
get_or-set (x ∷ xs) (suc i) zero v d h = ground arith
get_or-set (x ∷ xs) (suc i) (suc j) v d h = ground (arith, get_or-set xs i j v d (omega arith))

-- One slot more.
find_param-suc :
    (n i : ℕ) (key : Bytes) (keys values : List Bytes)
    → find_param (suc n) i key keys values ≡ elim (find_param n i key keys values) [
      | some v ↦ some v
      | none ↦
          if bytes_eq (get_or keys (i + n) []) key then some (get_or values (i + n) []) else none
    ]
unfolding find_param
find_param-suc zero i key keys values = let e : i + 0 ≡ i = omega arith in rw e refl
find_param-suc (suc n) i key keys values =
    let e : i + suc n ≡ i + 1 + n = omega arith in
    ground (arith, e, find_param-suc n (i + 1) key keys values)

-- A slot behind those that are searched does not count.
find_param-set :
    (n i m : ℕ) (key k v : Bytes) (keys values : List Bytes)
    → m < length keys
    → length keys ≡ length values
    → i + n ≤ m
    → find_param n i key (set keys m k) (set values m v) ≡ find_param n i key keys values
unfolding find_param
find_param-set zero i m key k v keys values h e le = refl
find_param-set (suc n) i m key k v keys values h e le = ground (
  arith,
  find_param-set n (i + 1) m key k v keys values h e (omega arith),
  get_or-set keys m i k [] h,
  get_or-set values m i v [] (omega (arith, e, h)),
)

-- The slot that is filled next.
pub find_param-next :
    (n : ℕ) (j k v : Bytes) (keys values : List Bytes)
    → n < length keys
    → length keys ≡ length values
    → find_param (n + 1) 0 j (set keys n k) (set values n v) ≡ elim (find_param n 0 j keys values) [
      | some u ↦ some u
      | none ↦ if bytes_eq k j then some v else none
    ]
find_param-next n j k v keys values h e = ground (
  arith,
  find_param-suc n 0 j (set keys n k) (set values n v),
  find_param-set n 0 n j k v keys values h e (omega arith),
  get_or-set keys n n k [] h,
  get_or-set values n n v [] (omega (arith, e, h)),
)

pub set_param-HasSlots : (k v : Bytes) (c : Context) → HasSlots c → HasSlots (set_param k v c)
unfolding set_param
set_param-HasSlots k v c w = record {
  keys = ground (arith, w.keys, length-set c.param_keys c.param_count k);
  values = ground (arith, w.values, length-set c.param_values c.param_count v);
  count = ground (arith, w.count);
}

-- Whether a key is in one of the slots.
abbrev pub in_slots : Bytes → Context → Bool
in_slots key c = elim (find_param (slots c) 0 key c.param_keys c.param_values) [
  | some v ↦ true
  | none ↦ false
]

-- Setting a parameter changes what is read under its own name only, and not even that where the
-- name is in one of the four slots already, of which the first counts. The context stays well
-- formed.
pub param-set_param :
    (k j v : Bytes) (c : Context)
    → HasSlots c
    → (HasSlots (set_param k v c))
      × (param j (set_param k v c) ≡ (if bytes_eq k j && not (in_slots j c) then v else param j c))
unfolding param set_param
param-set_param k j v c w = (
  set_param-HasSlots k v c w,
  elim (Bool-cases (ltb c.param_count 4)) [
    | inl room ↦ ground (
      arith,
      room,
      find_param-next c.param_count j k v c.param_keys c.param_values (ground (arith, w.keys))
          (omega (arith, w.keys, w.values)),
    )
    | inr full ↦ ground (arith, full, lookup-insert k j v c.param_overflow)
  ],
)

-- A context that is used again is to its handler as a new one: the same request, no parameter, no
-- response header, nothing in the buffer, status 200 and not aborted.
pub reset_context-new_context :
    (fd : ℕ) (req : Request) (c : Context) (key : Bytes)
    → HasSlots c
    → let d = reset_context fd req c in
      let n = new_context fd req in
      HasSlots d
      × (param key d ≡ param key n)
      × (d.request ≡ n.request)
      × (d.response_headers ≡ n.response_headers)
      × (d.response_buf ≡ n.response_buf)
      × (d.status_code ≡ n.status_code)
      × (d.aborted ≡ n.aborted)
unfolding reset_context new_context param find_param
reset_context-new_context fd req c key w = (
  record { keys = w.keys; values = w.values; count = omega arith },
  ground (arith, clear_lem c.param_overflow),
  refl,
  clear_lem c.response_headers,
  refl,
  refl,
  refl,
)
