-- ===== src/Config/Manager/Tests.antt =====
-- config/manager.go: runs of the manager.
use fast_server.Config.Manager.{
  Entries, Manager, branch, entry, env_key, get_value, leaf, lower_byte, load_from_map,
  load_variable, new_manager, no_entry, set_value,
}
use fast_server.Config.Manager.Nested.{AreKeyed, entry_at, load_from_map-entry_at, or_else, tail}
use fast_server.Base.{
  Bytes, [], arith, bytes_eq, codes, has_prefix, index_byte, insert, lookup, map, refl, some, ◌++◌,
  ◌∷◌, ◌≡◌, bytes_key,
}

abbrev none_yet : Manager Bytes
none_yet = new_manager

-- {"db": {"host": "h"}, "env": "dev"}
abbrev object : Entries Bytes
object =
    entry (codes "db") (branch (entry (codes "host") (leaf (codes "h")) no_entry))
      (entry (codes "env") (leaf (codes "dev")) no_entry)

object-AreKeyed : AreKeyed object
unfolding AreKeyed bytes_eq
object-AreKeyed =
    (cc, omega arith, (cc, omega arith, tt, tt, tt), (refl, tt), (cc, omega arith, tt, tt, tt))

load_from_map-entry_at_example :
    get_value (codes "db" ++ tail (codes "host" ∷ [])) (load_from_map [] object none_yet)
    ≡ or_else
        (entry_at (codes "db") (codes "host" ∷ []) object)
        (get_value (codes "db" ++ tail (codes "host" ∷ [])) none_yet)
load_from_map-entry_at_example =
    load_from_map-entry_at object (codes "db") (codes "host" ∷ []) none_yet object-AreKeyed
      (omega arith) (omega arith)

-- A name that only begins with the letters of the prefix is loaded, too.
longer_name :
    get_value
      (codes "le")
      (load_variable (map lower_byte) (λ s. s) (codes "APP") (codes "APPLE=1") none_yet)
    ≡ some (codes "1")
unfolding load_variable env_key set_value index_byte has_prefix insert lookup bytes_eq
longer_name = refl
