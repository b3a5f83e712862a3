-- ===== src/Config/Manager/Environment.antt =====
-- config/manager.go: variables of the environment become keys.
use fast_server.Config.Manager.{
  Manager, env_key, get_value, LowersAscii, ascii_key, load_variable, set_value,
}
use fast_server.Base.{
  All, ◌<◌, All-append, Bytes, Lacks, [], arith, bytes_eq, drop-append, drop_past, has_prefix,
  if◌then◌else◌, index_byte-append, length, lookup-insert, refl, some, take-append, true, ◌++◌, ◌∷◌,
  ◌≡◌, ◌≢◌, bytes_key,
}

has_prefix_front : (s t : Bytes) → has_prefix s (s ++ t) ≡ true
unfolding has_prefix
has_prefix_front [] t = refl
has_prefix_front (b ∷ s) t = ground (arith, has_prefix_front s t)

env_key-prefix :
    (lower : Bytes → Bytes) (prefix name : Bytes)
    → LowersAscii lower
    → All (λ b. b < 128) name
    → prefix ≢ []
    → env_key lower prefix (prefix ++ (b'_' ∷ name)) ≡ some (ascii_key name)
unfolding env_key
env_key-prefix lower [] name q a n = absurd (n refl)
env_key-prefix lower (b ∷ prefix) name q a n = ground (
  arith,
  q name a,
  has_prefix_front (b ∷ prefix) (b'_' ∷ name),
  drop-append (length (b ∷ prefix)) (b ∷ prefix) (b'_' ∷ name) refl,
)

-- A variable that is the prefix, an underscore and a name in ASCII, none with '=', sets the name's key, in lower
-- case and with dots for underscores, to all that follows the first '=', and no other key.
pub load_variable-prefix :
    {V : Type 0} (lower : Bytes → Bytes) (text : Bytes → V) (prefix name value key : Bytes)
    (m : Manager V)
    → LowersAscii lower
    → All (λ b. b < 128) name
    → prefix ≢ []
    → Lacks b'=' prefix
    → Lacks b'=' name
    → get_value key
        (load_variable lower text prefix ((prefix ++ (b'_' ∷ name)) ++ (b'=' ∷ value)) m)
      ≡ (if bytes_eq (ascii_key name) key then some (text value) else get_value key m)
unfolding load_variable set_value
load_variable-prefix lower text prefix name value key m q a n lp ln =
    let front = prefix ++ (b'_' ∷ name) in
    let lacks : Lacks b'=' front =
      All-append (λ b. b ≢ b'=') prefix (b'_' ∷ name) lp (omega arith, ln) in
    ground (
      arith,
      index_byte-append b'=' front value lacks,
      take-append (length front) front (b'=' ∷ value) refl,
      drop_past front b'=' value,
      env_key-prefix lower prefix name q a n,
      lookup-insert (ascii_key name) key (text value) m.values,
    )
