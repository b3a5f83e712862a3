-- ===== src/Sendfile/FileCache/Tests.antt =====
-- core/sendfile/sendfile.go: a cache of one file.
use fast_server.Base.{
  Bool, [], arith, bytes_eq, codes, delete, false, insert, lookup, refl, some, true, ℕ, ◌∷◌, ◌≡◌,
  bytes_key,
}
use fast_server.Sendfile.FileCache.{
  FileCache, evict, get, new_file_cache, send_file, stopped, took, again, failed,
}
use fast_server.Sendfile.FileCache.Evict.{IsSound}
use fast_server.Sendfile.FileCache.Sound.{get-IsSound}

abbrev shut : ℕ → Bool
shut f = false

abbrev empty : FileCache
empty = new_file_cache 1 shut

empty-IsSound : IsSound empty
unfolding lookup
empty-IsSound = record {
  some_file = omega arith;
  distinct = tt;
  same = λ p. refl;
  apart = λ p q f h k. absurd (ground (arith, h));
  opens = λ p f h. absurd (ground (arith, h));
  few = omega arith;
}

get-IsSound_example :
    IsSound (get (codes "a") (some 3) empty).1
    × ((f : ℕ)
        → (get (codes "a") (some 3) empty).0 ≡ some f
        → (lookup (codes "a") (get (codes "a") (some 3) empty).1.cache ≡ some f)
          × ((get (codes "a") (some 3) empty).1.is_open f ≡ true))
get-IsSound_example = get-IsSound (codes "a") (some 3) empty empty-IsSound (λ f e. refl)

-- The second file takes the place of the first, which is closed.
evicted : (get (codes "b") (some 4) (get (codes "a") (some 3) empty).1).1.is_open 3 ≡ false
unfolding get evict insert delete lookup bytes_eq
evicted = refl

-- A cache without room closes the file that it gives.
no_room : (get (codes "a") (some 3) (new_file_cache 0 shut)).1.is_open 3 ≡ false
unfolding get evict insert lookup bytes_eq
no_room = refl

sent : send_file 0 5 (took 2 ∷ again ∷ failed ∷ []) ≡ (2, stopped)
unfolding send_file
sent = refl
