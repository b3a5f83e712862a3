-- ===== src/Pools/BytePool/Classes.antt =====
-- core/pools/byte_pool.go: the buffers of a class have its size.
use fast_server.Base.{
  All, Bool-cases, List, Option, [], arith, inl, inr, leb, none, refl, some, suc, zero, ℕ, ◌==◌,
  ◌∷◌, ◌≡◌, ◌≤◌,
}
use fast_server.Pools.BytePool.{
  Buffer, Class, get_buffer, get_bytes, new_byte_pool, pool_get, put_bytes,
}

-- All buffers that wait in a class have the capacity of the class.
abbrev pub IsSorted : List Class → Type 0
IsSorted = All (λ c. All (λ cap. cap ≡ c.size) c.idle)

pub new_byte_pool-IsSorted : (sizes : List ℕ) → IsSorted (new_byte_pool sizes)
new_byte_pool-IsSorted [] = tt
new_byte_pool-IsSorted (size ∷ sizes) = (tt, new_byte_pool-IsSorted sizes)

pool_get-size :
    (size : ℕ) (pick : Option ℕ) (idle : List ℕ)
    → All (λ cap. cap ≡ size) idle
    → ((pool_get size pick idle).0 ≡ size) × All (λ cap. cap ≡ size) (pool_get size pick idle).1
unfolding pool_get
pool_get-size size none idle w = (refl, w)
pool_get-size size (some i) [] w = (refl, tt)
pool_get-size size (some zero) (cap ∷ idle) w = w
pool_get-size size (some (suc i)) (cap ∷ idle) w =
    let r = pool_get-size size (some i) idle w.1 in (r.0, (w.0, r.1))

-- A buffer for a size, and the classes that are left.
abbrev pub Fits : ℕ → Buffer × List Class → Type 0
Fits size r = (r.0.len ≤ r.0.capacity) × (size ≤ r.0.capacity) × IsSorted r.1

Fits-eq :
    (size : ℕ) {r : Buffer × List Class} (s : Buffer × List Class)
    → s ≡ r
    → Fits size s
    → Fits size r
Fits-eq size s e w = rw (← e) w

get_buffer-Fits :
    (size : ℕ) (pick : Option ℕ) (cs : List Class)
    → IsSorted cs
    → Fits size (get_buffer size pick cs)
unfolding get_buffer
get_buffer-Fits size pick [] w = (omega arith, omega arith, tt)
get_buffer-Fits size pick (c ∷ cs) w =
    let r = get_buffer-Fits size pick cs w.1 in
    let p = pool_get-size c.size pick c.idle w.0 in
    let got = pool_get c.size pick c.idle in
    elim (Bool-cases (leb size c.size)) [
      | inl fits ↦
          Fits-eq size (record { len = got.0; capacity = got.0 }, record c { idle = got.1 } ∷ cs)
            (ground (arith, fits)) (omega arith, ground (arith, fits, p.0), (p.1, w.1))
      | inr small ↦
          Fits-eq size ((get_buffer size pick cs).0, c ∷ (get_buffer size pick cs).1)
            (ground (arith, small)) (r.0, r.1, (w.0, r.2))
    ]

IsSorted-eq : {cs : List Class} (ds : List Class) → ds ≡ cs → IsSorted ds → IsSorted cs
IsSorted-eq ds e w = rw (← e) w

put_bytes-IsSorted : (buf : Buffer) (cs : List Class) → IsSorted cs → IsSorted (put_bytes buf cs)
unfolding put_bytes
put_bytes-IsSorted buf [] w = tt
put_bytes-IsSorted buf (c ∷ cs) w = elim (Bool-cases (buf.capacity == c.size)) [
  | inl same ↦
      IsSorted-eq (record c { idle = buf.capacity ∷ c.idle } ∷ cs) (ground (arith, same))
        ((ground (arith, same), w.0), w.1)
  | inr other ↦
      IsSorted-eq (c ∷ put_bytes buf cs) (ground (arith, other))
        (w.0, put_bytes-IsSorted buf cs w.1)
]

-- From classes whose buffers have the capacity of their class, whatever the pools give, Get and GetBuffer
-- give a buffer in which the size asked for has room, Get with that length, and every buffer, from the
-- pool or not, can be put back: the classes stay as they were in this respect.
pub get_bytes-Fits :
    (size : ℕ) (pick : Option ℕ) (cs : List Class) (buf : Buffer)
    → IsSorted cs
    → (Fits size (get_buffer size pick cs))
      × (Fits size (get_bytes size pick cs))
      × ((get_bytes size pick cs).0.len ≡ size)
      × (IsSorted (put_bytes buf (get_bytes size pick cs).1))
unfolding get_bytes
get_bytes-Fits size pick cs buf w =
    let r = get_buffer-Fits size pick cs w in
    (r, (r.1, r.1, r.2), refl, put_bytes-IsSorted buf (get_buffer size pick cs).1 r.2)
