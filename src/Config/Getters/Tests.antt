-- ===== src/Config/Getters/Tests.antt =====
-- config/manager.go: runs of the getters.
use fast_server.Base.{
  [], arith, codes, map, none, refl, some, ℕ, ◌∷◌, ◌≡◌, ◌↔◌, ◌⊎◌, bytes_key, true,
}
use fast_server.Http.Context.Digits.{decimal}
use fast_server.Config.Manager.{Manager, ascii_key, lower_byte, new_manager}
use fast_server.Config.Getters.{
  Numbers, Value, atoi, digits_value, get_bool, get_int, get_string, get_string_slice, negsuc, pos,
}
use fast_server.Config.Getters.Typed.{joined, loaded, loaded-typed}

-- Numbers without fractions stand for the floats.
abbrev whole : Numbers ℕ
whole = record {
  parse_float = λ s. none;
  parse_duration = λ s. none;
  float_of_int = λ i. elim i [ pos n ↦ n | negsuc n ↦ 0 ];
  int_of_float = pos;
  zero_float = 0;
}

abbrev none_yet : Manager (Value ℕ)
none_yet = new_manager

loaded-typed_example :
    (get_string
        (ascii_key (codes "DB_PORT"))
        []
        (loaded (map lower_byte) (codes "APP") (codes "DB_PORT") none_yet (codes "8080"))
      ≡ codes "8080")
    × (get_int whole
          (ascii_key (codes "DB_PORT"))
          []
          (loaded (map lower_byte) (codes "APP") (codes "DB_PORT") none_yet (decimal 8080))
        ≡ pos 8080)
    × (get_string_slice (ascii_key (codes "DB_PORT")) [] (
          loaded
            (map lower_byte)
            (codes "APP")
            (codes "DB_PORT")
            none_yet
            (joined (codes "a") (codes "b" ∷ [])))
        ≡ codes "a" ∷ codes "b" ∷ [])
    × ((get_bool
            (ascii_key (codes "DB_PORT"))
            []
            (loaded (map lower_byte) (codes "APP") (codes "DB_PORT") none_yet (codes "8080"))
          ≡ true)
        ↔ ((codes "8080" ≡ codes "true")
            ⊎ ((codes "8080" ≡ codes "yes") ⊎ (codes "8080" ≡ codes "1"))))
loaded-typed_example =
    loaded-typed (map lower_byte) (codes "APP") (codes "DB_PORT") none_yet whole (codes "8080")
      (codes "a") (codes "b" ∷ []) 8080 [] [] [] [] (λ s w. refl) (omega arith) (cc) (omega arith)
      (omega arith) (omega arith) (omega arith)

signed : atoi (codes "-42") ≡ some (negsuc 41)
unfolding atoi digits_value
signed = refl
