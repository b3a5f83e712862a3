-- ===== src/Pools/BytePool.antt =====
-- core/pools/byte_pool.go: `BytePool`. A buffer is its length and its capacity, and a class has the capacities
-- of the buffers that its `sync.Pool` holds; `pick` is the buffer that the pool gives, `none` if it makes a
-- new one. Sizes are not negative.
pub mod Classes
mod Tests
use fast_server.Base.{List, Option, [], if◌then◌else◌, leb, none, some, suc, zero, ℕ, ◌==◌, ◌∷◌}

pub record Buffer : Type 0 where
  pub len : ℕ
  pub capacity : ℕ

pub record Class : Type 0 where
  pub size : ℕ
  pub idle : List ℕ

abbrev pub default_sizes : List ℕ
default_sizes = 512 ∷ 2048 ∷ 8192 ∷ 32768 ∷ []

-- `NewBytePoolWithSizes`
abbrev pub new_byte_pool : List ℕ → List Class
new_byte_pool [] = []
new_byte_pool (size ∷ sizes) = record { size = size; idle = [] } ∷ new_byte_pool sizes

-- The capacity that a pool gives, and what it holds then.
pub pool_get : ℕ → Option ℕ → List ℕ → ℕ × List ℕ
pool_get size none idle = (size, idle)
pool_get size (some i) [] = (size, [])
pool_get size (some zero) (cap ∷ idle) = (cap, idle)
pool_get size (some (suc i)) (cap ∷ idle) = let r = pool_get size (some i) idle in (r.0, cap ∷ r.1)

-- `GetBuffer`, with the capacity as the length, and `Get`, which cuts it to the size asked for.
pub get_buffer : ℕ → Option ℕ → List Class → Buffer × List Class
get_buffer size pick [] = (record { len = size; capacity = size }, [])
get_buffer size pick (c ∷ cs) =
    let r = get_buffer size pick cs in
    let p = pool_get c.size pick c.idle in
    if leb size c.size
    then (record { len = p.0; capacity = p.0 }, record c { idle = p.1 } ∷ cs)
    else (r.0, c ∷ r.1)

pub get_bytes : ℕ → Option ℕ → List Class → Buffer × List Class
get_bytes size pick cs = let r = get_buffer size pick cs in (record r.0 { len = size }, r.1)

-- `Put`, by the capacity.
pub put_bytes : Buffer → List Class → List Class
put_bytes buf [] = []
put_bytes buf (c ∷ cs) =
    let rest = put_bytes buf cs in
    if buf.capacity == c.size then record c { idle = buf.capacity ∷ c.idle } ∷ cs else c ∷ rest
