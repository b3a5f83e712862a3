-- ===== src/Pools/BytePool/Tests.antt =====
-- core/pools/byte_pool.go: a buffer goes back and forth.
use fast_server.Base.{List, [], refl, some, ◌∷◌, ◌≡◌}
use fast_server.Pools.BytePool.{Buffer, Class, get_buffer, get_bytes, pool_get, put_bytes}
use fast_server.Pools.BytePool.Classes.{Fits, IsSorted, get_bytes-Fits}

abbrev used : List Class
used = record { size = 512; idle = 512 ∷ [] } ∷ record { size = 2048; idle = [] } ∷ []

abbrev odd : Buffer
odd = record { len = 0; capacity = 100 }

get_bytes-Fits_example :
    (Fits 300 (get_buffer 300 (some 0) used))
    × (Fits 300 (get_bytes 300 (some 0) used))
    × ((get_bytes 300 (some 0) used).0.len ≡ 300)
    × (IsSorted (put_bytes odd (get_bytes 300 (some 0) used).1))
get_bytes-Fits_example = get_bytes-Fits 300 (some 0) used odd ((refl, tt), (tt, tt))

back_again : put_bytes (get_bytes 300 (some 0) used).0 (get_bytes 300 (some 0) used).1 ≡ used
unfolding get_bytes get_buffer pool_get put_bytes
back_again = refl
