-- ===== src/Config/Manager.antt =====
-- config/manager.go: the values and watchers of the manager, and the two ways to load values. `V` is the
-- type of values (`interface{}`), and a watcher is a number; `started` has the calls of watchers that
-- `Set` has started, each with the key and the value that it is given.
pub mod Nested
pub mod Environment
mod Tests
use fast_server.Base.{
  All, ◌<◌, ◌≡◌, Bytes, List, Option, [], delete, drop, has_prefix, if◌then◌else◌, index_byte,
  insert, leb, length, lookup, map, none, some, take, ℕ, ◌&&◌, ◌++◌, ◌+◌, ◌==◌, ◌∷◌, bytes_key,
}

pub record Manager (V : Type 0) : Type 0 where
  pub values : List (Bytes × V)
  pub watchers : List (Bytes × List ℕ)
  pub started : List (ℕ × Bytes × V)

-- A value of a JSON object; an object is a list of entries, in the order in which the loop meets them.
mutual
  pub data Tree (V : Type 0) : Type 0 where
    leaf : V → Tree V
    branch : Entries V → Tree V

  pub data Entries (V : Type 0) : Type 0 where
    no_entry : Entries V
    entry : Bytes → Tree V → Entries V → Entries V

abbrev underscore : ℕ
underscore = 95

abbrev dot : ℕ
dot = 46

-- `prefix + "." + key`, or the key alone.
abbrev pub full_key : Bytes → Bytes → Bytes
full_key [] key = key
full_key (b ∷ prefix) key = (b ∷ prefix) ++ (dot ∷ key)

module _ {V : Type 0} where
  -- `NewManager`
  abbrev pub new_manager : Manager V
  new_manager = record { values = []; watchers = []; started = [] }

  abbrev pub watchers_of : Bytes → Manager V → List ℕ
  watchers_of key m = elim (lookup key m.watchers) [ none ↦ [] | some ws ↦ ws ]

  -- `Set`
  pub set_value : Bytes → V → Manager V → Manager V
  set_value key v m = record m {
    values = insert key v m.values;
    started = m.started ++ map (λ w. (w, key, v)) (watchers_of key m);
  }

  -- `Get`
  abbrev pub get_value : Bytes → Manager V → Option V
  get_value key m = lookup key m.values

  -- `Watch`
  pub watch : Bytes → ℕ → Manager V → Manager V
  watch key callback m = record m {
    watchers = insert key (watchers_of key m ++ callback ∷ []) m.watchers;
  }

  -- `Delete` and `Clear`
  pub delete_value : Bytes → Manager V → Manager V
  delete_value key m = record m { values = delete key m.values }

  pub clear : Manager V → Manager V
  clear m = record m { values = [] }

  unfoldable mutual
    -- `loadFromMap`, for a value under its full key and for the entries of an object.
    pub load_tree : Bytes → Tree V → Manager V → Manager V
    load_tree full (leaf v) m = set_value full v m
    load_tree full (branch es) m = load_from_map full es m

    pub load_from_map : Bytes → Entries V → Manager V → Manager V
    load_from_map prefix no_entry m = m
    load_from_map prefix (entry key t es) m =
        load_from_map prefix es (load_tree (full_key prefix key) t m)

-- `strings.ToLower` on a byte of ASCII.
abbrev pub lower_byte : ℕ → ℕ
lower_byte b = if leb b'A' b && leb b b'Z' then b + 32 else b

-- What the program relies on of `strings.ToLower`: on ASCII text it lowers the letters.
abbrev pub LowersAscii : (Bytes → Bytes) → Type 0
LowersAscii lower = (s : Bytes) → All (λ b. b < 128) s → lower s ≡ map lower_byte s

-- `ReplaceAll` of '_' by '.', byte by byte.
abbrev pub dotted : ℕ → ℕ
dotted b = if b == underscore then dot else b

-- The key of a name in ASCII.
abbrev pub ascii_key : Bytes → Bytes
ascii_key s = map dotted (map lower_byte s)

-- `TrimPrefix` of one underscore.
abbrev pub trim_underscore : Bytes → Bytes
trim_underscore [] = []
trim_underscore (b ∷ s) = if b == underscore then s else b ∷ s

-- The key of a variable of the environment, if it has the prefix; `lower` is `strings.ToLower`.
pub env_key : (Bytes → Bytes) → Bytes → Bytes → Option Bytes
env_key lower prefix name =
    if length prefix == 0
    then some (map dotted (lower name))
    else if has_prefix prefix name
    then some (map dotted (lower (trim_underscore (drop (length prefix) name))))
    else none

module _ {V : Type 0} (lower : Bytes → Bytes) (text : Bytes → V) where
  -- One round of `LoadFromEnv`; `SplitN` on the first '='. `text` makes a string a value.
  pub load_variable : Bytes → Bytes → Manager V → Manager V
  load_variable prefix variable m = elim (index_byte b'=' variable) [
    | none ↦ m
    | some i ↦ elim (env_key lower prefix (take i variable)) [
      | none ↦ m
      | some key ↦ set_value key (text (drop (i + 1) variable)) m
    ]
  ]

  -- `LoadFromEnv`, on what `os.Environ` returns.
  pub load_from_env : Bytes → List Bytes → Manager V → Manager V
  load_from_env prefix [] m = m
  load_from_env prefix (variable ∷ environ) m =
      load_from_env prefix environ (load_variable prefix variable m)
