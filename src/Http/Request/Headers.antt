-- ===== src/Http/Request/Headers.antt =====
-- core/http/request.go: reading back a header that was set, and reusing a released request.
use fast_server.Base.{
  Bytes, List, [], arith, bytes_eq, bytes_eq_iff, codes, if◌then◌else◌, lookup-insert, refl, ◌∷◌,
  ◌≡◌, bytes_key,
}
use fast_server.Http.Request.{Request, clear, header, new_request, reset, set_header}

pub clear_lem : (m : List (Bytes × Bytes)) → clear m ≡ []
unfolding clear
clear_lem [] = refl
clear_lem (e ∷ m) = clear_lem m

-- A released request is as a new one: nothing of its former use is left.
pub reset-new_request : (r : Request) → reset r ≡ new_request
unfolding reset
reset-new_request r = rw (clear_lem r.extra_headers, clear_lem r.query)

-- Setting one header changes what is read under that name, predefined or not, and under no other.
pub header-set_header :
    (k j v : Bytes) (r : Request)
    → header j (set_header k v r) ≡ (if bytes_eq k j then v else header j r)
unfolding header set_header
header-set_header k j v r = ground (
  arith,
  bytes_eq_iff k j,
  lookup-insert k j v r.extra_headers,
  bytes_eq_iff k (codes "Content-Type"),
  bytes_eq_iff j (codes "Content-Type"),
  bytes_eq_iff k (codes "Content-Length"),
  bytes_eq_iff j (codes "Content-Length"),
  bytes_eq_iff k (codes "User-Agent"),
  bytes_eq_iff j (codes "User-Agent"),
  bytes_eq_iff k (codes "Accept"),
  bytes_eq_iff j (codes "Accept"),
  bytes_eq_iff k (codes "Host"),
  bytes_eq_iff j (codes "Host"),
  bytes_eq_iff k (codes "Connection"),
  bytes_eq_iff j (codes "Connection"),
)
