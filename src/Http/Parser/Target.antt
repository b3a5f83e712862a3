-- ===== src/Http/Parser/Target.antt =====
-- core/http/parser.go: `parseQuery` on the target of a request.
use fast_server.Base.{
  All, All-append, Bytes, Lacks, List, [], arith, drop_past, index_byte-Lacks, index_byte-append,
  insert, length, refl, split, split-Lacks, split-append, take-append, ◌++◌, ◌∷◌, ◌≡◌, ◌≢◌,
  bytes_key,
}
use fast_server.Http.Request.{Request}
use fast_server.Http.Parser.{add_pair, add_pairs, parse_query, parse_target}

abbrev pair : Bytes × Bytes → Bytes
pair (k, v) = k ++ (b'=' ∷ v)

-- "?k=v&k=v", and nothing where there is no parameter.
abbrev pub pairs : List (Bytes × Bytes) → Bytes
pairs [] = []
pairs (p ∷ []) = pair p
pairs (p ∷ q ∷ ps) = pair p ++ (b'&' ∷ pairs (q ∷ ps))

abbrev pub target : Bytes → List (Bytes × Bytes) → Bytes
target path [] = path
target path (p ∷ ps) = path ++ (b'?' ∷ pairs (p ∷ ps))

pub record IsPair (p : Bytes × Bytes) : Type 0 where
  pub key_name : Lacks b'=' p.0
  pub key_part : Lacks b'&' p.0
  pub value_part : Lacks b'&' p.1

abbrev pub set_pairs : List (Bytes × Bytes) → List (Bytes × Bytes) → List (Bytes × Bytes)
set_pairs [] m = m
set_pairs ((k, v) ∷ ps) m = set_pairs ps (insert k v m)

add_pair-pair :
    (p : Bytes × Bytes) (m : List (Bytes × Bytes))
    → IsPair p
    → add_pair (pair p) m ≡ insert p.0 p.1 m
unfolding add_pair
add_pair-pair p m w = ground (
  arith,
  index_byte-append b'=' p.0 p.1 w.key_name,
  take-append (length p.0) p.0 (b'=' ∷ p.1) refl,
  drop_past p.0 b'=' p.1,
)

Lacks-pair : (p : Bytes × Bytes) → IsPair p → Lacks b'&' (pair p)
Lacks-pair p w = All-append (λ b. b ≢ b'&') p.0 (b'=' ∷ p.1) w.key_part (omega arith, w.value_part)

add_pairs-pairs :
    (p : Bytes × Bytes) (ps m : List (Bytes × Bytes))
    → All IsPair (p ∷ ps)
    → add_pairs (split b'&' (pairs (p ∷ ps))) m ≡ set_pairs (p ∷ ps) m
unfolding add_pairs
add_pairs-pairs p [] m w = rw (split-Lacks b'&' (pair p) (Lacks-pair p w.0), add_pair-pair p m w.0)
add_pairs-pairs p (q ∷ ps) m w = ground (
  arith,
  split-append b'&' (pair p) (pairs (q ∷ ps)) (Lacks-pair p w.0),
  add_pair-pair p m w.0,
  add_pairs-pairs q ps (insert p.0 p.1 m) w.1,
)

-- A target is split at its first question mark, and its parameters are stored in order: of two
-- with one key the later wins.
pub parse_target-target :
    (path : Bytes) (ps : List (Bytes × Bytes)) (req : Request)
    → Lacks b'?' path
    → All IsPair ps
    → req.path ≡ target path ps
    → parse_target req ≡ record req { path = path; query = set_pairs ps req.query }
unfolding parse_target parse_query
parse_target-target path [] req h w e = ground (arith, e, index_byte-Lacks b'?' path h)
parse_target-target path (p ∷ ps) req h w e = ground (
  arith,
  e,
  index_byte-append b'?' path (pairs (p ∷ ps)) h,
  take-append (length path) path (b'?' ∷ pairs (p ∷ ps)) refl,
  drop_past path b'?' (pairs (p ∷ ps)),
  add_pairs-pairs p ps req.query w,
)
