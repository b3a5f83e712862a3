-- ===== src/Rpc/Registry/Laws.antt =====
-- core/rpc/registry/service.go: what is found after a registration.
use fast_server.Base.{
  Bytes, List, Option, Option-cases, [], arith, bytes_eq, if◌then◌else◌, inl, inr, insert, lookup,
  lookup-insert, none, refl, some, ◌∷◌, ◌≡◌, ◌⊎◌, bytes_key,
}
use fast_server.Rpc.Registry.{
  Candidate, LookupError, Method, Registry, Service, accept, get_method, get_service,
  method_not_found, register, scan,
}

module _ {V : Type 0} where
  -- The last candidate of a name that `Register` accepts.
  pub last_accepted : Bytes → List (Candidate V) → Option (Method V) → Option (Method V)
  last_accepted name [] found = found
  last_accepted name (c ∷ cs) found = elim (accept c) [
    | none ↦ last_accepted name cs found
    | some m ↦ last_accepted name cs (if bytes_eq c.name name then some m else found)
  ]

  lookup-scan :
      (name : Bytes) (cs : List (Candidate V)) (ms : List (Bytes × Method V))
      → lookup name (scan cs ms) ≡ last_accepted name cs (lookup name ms)
  unfolding scan last_accepted
  lookup-scan name [] ms = refl
  lookup-scan name (c ∷ cs) ms = elim (Option-cases (accept c)) [
    | inl e ↦ ground (arith, e, lookup-scan name cs ms)
    | inr (m, e) ↦
        ground (arith, e, lookup-scan name cs (insert c.name m ms), lookup-insert c.name name m ms)
  ]

  -- What `GetMethod` finds in a service just registered.
  abbrev pub found_in : V → Option (Method V) → LookupError ⊎ (V × Method V)
  found_in value none = inl method_not_found
  found_in value (some m) = inr (value, m)

  -- The service without its table of methods.
  abbrev pub receiver : LookupError ⊎ (Service V × Method V) → LookupError ⊎ (V × Method V)
  receiver (inl e) = inl e
  receiver (inr (s, m)) = inr (s.value, m)

  -- After a registration, `GetMethod` finds under the service's name the last method that has the
  -- signature which `Register` asks for, with the new value as its receiver, and nothing of an
  -- earlier service of that name; other services are as before.
  pub get_method-register :
      (name service method : Bytes) (value : V) (cs : List (Candidate V)) (r : Registry V)
      → receiver (get_method service method (register name value cs r)) ≡ (
          if bytes_eq name service
          then found_in value (last_accepted method cs none)
          else receiver (get_method service method r))
  unfolding get_method get_service register lookup
  get_method-register name service method value cs r = ground (
    arith,
    lookup-insert name service (record { name = name; value = value; methods = scan cs [] }) r,
    lookup-scan method cs [],
  )
