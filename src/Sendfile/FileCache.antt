-- ===== src/Sendfile/FileCache.antt =====
-- core/sendfile/sendfile.go: `FileCache`, one call at a time, and the loop of `SendFile`. A file is a number;
-- `is_open` tells which are open. What `os.Open` gives is an argument, `none` an error.
pub mod Recency
pub mod Evict
pub mod Sound
mod Tests
use fast_server.Base.{
  Bool, Bytes, List, Option, [], bytes_eq, delete, false, if◌then◌else◌, insert, length, lookup,
  ltb, none, some, true, ℕ, ◌+◌, ◌-◌, ◌==◌, ◌∷◌, bytes_key,
}

-- An entry's element is the one with its path in the list, the most recently used path first.
pub record FileCache : Type 0 where
  pub cache : List (Bytes × ℕ)
  pub lru_list : List Bytes
  pub max_files : ℕ
  pub is_open : ℕ → Bool

-- `NewFileCache`
abbrev pub new_file_cache : ℕ → (ℕ → Bool) → FileCache
new_file_cache max_files is_open = record {
  cache = [];
  lru_list = [];
  max_files = max_files;
  is_open = is_open;
}

abbrev pub set_open : ℕ → Bool → (ℕ → Bool) → ℕ → Bool
set_open file state is_open f = if f == file then state else is_open f

-- `Remove` of the element with a path.
pub remove : Bytes → List Bytes → List Bytes
remove path [] = []
remove path (p ∷ ps) = if bytes_eq p path then ps else p ∷ remove path ps

abbrev pub move_to_front : Bytes → List Bytes → List Bytes
move_to_front path ps = path ∷ remove path ps

-- `Back` of a list with a first element, and the list without its back.
abbrev pub back : Bytes → List Bytes → Bytes
back p [] = p
back p (q ∷ ps) = back q ps

abbrev pub without_back : Bytes → List Bytes → List Bytes
without_back p [] = []
without_back p (q ∷ ps) = p ∷ without_back q ps

-- The oldest file is closed and its entry deleted, if the list is too long.
pub evict : Bytes → List Bytes → FileCache → FileCache
evict p ps fc =
    if ltb fc.max_files (length (p ∷ ps))
    then elim (lookup (back p ps) fc.cache) [
      | none ↦ record fc { lru_list = without_back p ps }
      | some file ↦ record fc {
        cache = delete (back p ps) fc.cache;
        lru_list = without_back p ps;
        is_open = set_open file false fc.is_open;
      }
    ]
    else record fc { lru_list = p ∷ ps }

-- `Get`: the file, `none` for an error, and the cache.
pub get : Bytes → Option ℕ → FileCache → Option ℕ × FileCache
get path opened fc = elim (lookup path fc.cache) [
  | some file ↦ (some file, record fc { lru_list = move_to_front path fc.lru_list })
  | none ↦ elim opened [
    | none ↦ (none, fc)
    | some file ↦ (
      some file,
      evict path fc.lru_list (record fc {
        cache = insert path file fc.cache;
        is_open = set_open file true fc.is_open;
      }),
    )
  ]
]

-- The loop of `Close` over the entries.
pub close_all : List (Bytes × ℕ) → (ℕ → Bool) → ℕ → Bool
close_all [] is_open = is_open
close_all ((path, file) ∷ entries) is_open = close_all entries (set_open file false is_open)

pub close : FileCache → FileCache
close fc = record fc { cache = []; lru_list = []; is_open = close_all fc.cache fc.is_open }

-- What `syscall.Sendfile` answers: a number of bytes, EAGAIN or EINTR, or another error.
pub data Answer : Type 0 where
  took : ℕ → Answer
  again failed : Answer

pub data Sending : Type 0 where
  done stopped waiting : Sending

-- The loop of `SendFile` by these answers: what was written, and how it ended; `waiting` is a loop that
-- goes on.
pub send_file : ℕ → ℕ → List Answer → ℕ × Sending
send_file written count [] = (written, if ltb written count then waiting else done)
send_file written count (answer ∷ answers) = elim (ltb written count) [
  | false ↦ (written, done)
  | true ↦ elim answer [
    | again ↦ send_file written count answers
    | failed ↦ (written, stopped)
    | took n ↦ elim (n == 0) [
      | true ↦ (written, done)
      | false ↦ send_file (written + n) count answers
    ]
  ]
]
