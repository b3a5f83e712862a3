-- ===== src/Rpc/Registry.antt =====
-- core/rpc/registry/service.go: the services by name. What reflection tells of a service is a list
-- of candidates, and a type is a number; `V` is the type of the values that methods take and give.
-- The context is the background one.
pub mod Laws
use fast_server.Base.{
  Bool, Bytes, List, Option, [], bytes_eq, if◌then◌else◌, inl, inr, insert, lookup, none, not, some,
  ℕ, ◌==◌, ◌||◌, ◌∷◌, ◌⊎◌, bytes_key,
}

-- A method of a Go type, as `Register` looks at it: the element types are there for pointers only.
pub record Candidate (V : Type 0) : Type 0 where
  pub name : Bytes
  pub pkg_path : Bytes
  pub num_in : ℕ
  pub num_out : ℕ
  pub takes_context : Bool
  pub arg_elem : Option ℕ
  pub reply_elem : Option ℕ
  pub returns_error : Bool
  -- a reply, or the text of an error
  pub func : V → V → V ⊎ Bytes

pub record Method (V : Type 0) : Type 0 where
  pub name : Bytes
  pub func : V → V → V ⊎ Bytes
  pub arg_type : ℕ
  pub reply_type : ℕ

pub record Service (V : Type 0) : Type 0 where
  pub name : Bytes
  pub value : V
  pub methods : List (Bytes × Method V)

abbrev pub Registry : Type 0 → Type 0
Registry V = List (Bytes × Service V)

pub data LookupError : Type 0 where
  service_not_found method_not_found : LookupError

module _ {V : Type 0} where
  -- The checks of `Register`, in its order.
  unfoldable pub accept : Candidate V → Option (Method V)
  accept c =
      if not (bytes_eq c.pkg_path [])
      then none
      else if not (c.num_in == 3) || not (c.num_out == 2)
      then none
      else if not c.takes_context
      then none
      else elim c.arg_elem [
        | none ↦ none
        | some arg ↦ elim c.reply_elem [
          | none ↦ none
          | some reply ↦
              if not c.returns_error
              then none
              else some
                  (record { name = c.name; func = c.func; arg_type = arg; reply_type = reply })
        ]
      ]

  unfoldable pub scan : List (Candidate V) → List (Bytes × Method V) → List (Bytes × Method V)
  scan [] ms = ms
  scan (c ∷ cs) ms = elim (accept c) [ none ↦ scan cs ms | some m ↦ scan cs (insert c.name m ms) ]

  -- `Register`
  unfoldable pub register : Bytes → V → List (Candidate V) → Registry V → Registry V
  register name value cs r =
      insert name (record { name = name; value = value; methods = scan cs [] }) r

  -- `GetService`
  unfoldable pub get_service : Bytes → Registry V → LookupError ⊎ Service V
  get_service name r = elim (lookup name r) [ none ↦ inl service_not_found | some s ↦ inr s ]

  -- `GetMethod`
  unfoldable pub get_method : Bytes → Bytes → Registry V → LookupError ⊎ (Service V × Method V)
  get_method service name r = elim (get_service service r) [
    | inl e ↦ inl e
    | inr s ↦ elim (lookup name s.methods) [ none ↦ inl method_not_found | some m ↦ inr (s, m) ]
  ]

-- Why a call fails.
pub data CallError : Type 0 where
  not_found : LookupError → CallError
  invalid_argument : (expected : ℕ) → CallError
  returned : Bytes → CallError

-- `Call`; `elem_type` is the type that an argument points to, if it is a pointer.
unfoldable pub call : {V : Type 0} → (V → Option ℕ) → Bytes → Bytes → V → Registry V → CallError ⊎ V
call elem_type service name arg r = elim (get_method service name r) [
  | inl e ↦ inl (not_found e)
  | inr (s, m) ↦ elim (elem_type arg) [
    | none ↦ inl (invalid_argument m.arg_type)
    | some t ↦
        if not (t == m.arg_type)
        then inl (invalid_argument m.arg_type)
        else elim (m.func s.value arg) [ inl reply ↦ inr reply | inr e ↦ inl (returned e) ]
  ]
]
