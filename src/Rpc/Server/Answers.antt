-- ===== src/Rpc/Server/Answers.antt =====
-- core/rpc/server/server.go with core/rpc/registry/service.go and core/rpc/protocol/frame.go: the
-- answers to requests.
use fast_server.Base.{
  All, Bytes, List, Option, Option-cases, [], append-nil, arith, bytes_eq_iff, if◌then◌else◌, inl,
  inr, insert, length, lookup, lookup-insert, refl, some, ℕ, ◌++◌, ◌<◌, ◌==◌, ◌||◌, ◌∷◌, ◌≡◌, ◌⊎◌,
  bytes_key,
}
use fast_server.Rpc.Protocol.{Frame, header_size, new_frame}
use fast_server.Rpc.Protocol.Wire.{Fits}
use fast_server.Rpc.Protocol.Stream.{concat, eof, handle_conn-concat, receive}
use fast_server.Rpc.Registry.{
  CallError, Candidate, Method, Registry, Service, accept, call, get_method, get_service, register,
  returned, scan,
}
use fast_server.Rpc.Server.{
  Codec, answer, answers, finish, handle_ping, handle_request, serve, type_ping, type_request,
}

module _ {V : Type 0} where
  -- Each service and each method has the name under which it is filed.
  abbrev MethodsNamed : List (Bytes × Method V) → Type 0
  MethodsNamed ms = (name : Bytes) (m : Method V) → lookup name ms ≡ some m → m.name ≡ name

  abbrev pub IsNamed : Registry V → Type 0
  IsNamed r =
      (name : Bytes) (s : Service V)
      → lookup name r ≡ some s
      → (s.name ≡ name) × (MethodsNamed s.methods)

  accept-name : (c : Candidate V) (m : Method V) → accept c ≡ some m → m.name ≡ c.name
  unfolding accept
  accept-name c m e = ground (arith, e)

  scan-MethodsNamed :
      (cs : List (Candidate V)) (ms : List (Bytes × Method V))
      → MethodsNamed ms
      → MethodsNamed (scan cs ms)
  unfolding scan
  scan-MethodsNamed [] ms w = w
  scan-MethodsNamed (c ∷ cs) ms w = elim (Option-cases (accept c)) [
    | inl e ↦ λ name m. ground (arith, e, scan-MethodsNamed cs ms w name m)
    | inr (n, e) ↦ λ name m. ground (
      arith,
      e,
      scan-MethodsNamed cs (insert c.name n ms)
          (λ i k.
            ground
              (arith, lookup-insert c.name i n ms, bytes_eq_iff c.name i, accept-name c n e, w i k))
          name m,
    )
  ]

  -- Registering a service keeps the names in order.
  pub register-IsNamed :
      (name : Bytes) (value : V) (cs : List (Candidate V)) (r : Registry V)
      → IsNamed r
      → IsNamed (register name value cs r)
  unfolding register
  register-IsNamed name value cs r w = λ i s e. ground (
    arith,
    e,
    lookup-insert name i (record { name = name; value = value; methods = scan cs [] }) r,
    bytes_eq_iff name i,
    w i s,
    scan-MethodsNamed cs [] (unfold lookup in λ i m. cc),
  )

  get_method-IsNamed :
      (service method : Bytes) (r : Registry V) (s : Service V) (m : Method V)
      → IsNamed r
      → get_method service method r ≡ inr (s, m)
      → (s.name ≡ service) × (m.name ≡ method)
  unfolding get_method get_service
  get_method-IsNamed service method r s m w e =
      ground (arith, e, w service s, (w service s _).1 method m)

  -- The result of a method as `Call` passes it on.
  abbrev pub passed_on : V ⊎ Bytes → CallError ⊎ V
  passed_on (inl reply) = inr reply
  passed_on (inr e) = inl (returned e)

  call-found :
      (elem_type : V → Option ℕ) (service method : Bytes) (arg : V) (r : Registry V) (s : Service V)
      (m : Method V)
      → get_method service method r ≡ inr (s, m)
      → elem_type arg ≡ some m.arg_type
      → call elem_type service method arg r ≡ passed_on (m.func s.value arg)
  unfolding call
  call-found elem_type service method arg r s m e t = ground (arith, e, t)

-- The ids of the frames that ask for an answer.
abbrev pub asked_ids : List Frame → List ℕ
asked_ids [] = []
asked_ids (f ∷ fs) =
    if f.kind == type_request || f.kind == type_ping
    then f.request_id ∷ asked_ids fs
    else asked_ids fs

abbrev pub ids : List Frame → List ℕ
ids [] = []
ids (f ∷ fs) = f.request_id ∷ ids fs

module _ {V : Type 0} (codec : Codec V) (r : Registry V) where
  -- A request for a method that is registered, with an argument that decodes to a value of the
  -- method's type, is answered with what the method returns for it: its reply, encoded, or its
  -- error. Services and methods are filed under their names, as registration leaves them.
  pub handle_request-found :
      (f : Frame) (service method : Bytes) (s : Service V) (m : Method V) (arg : V)
      → IsNamed r
      → codec.parse_metadata f.metadata ≡ some (service, method)
      → get_method service method r ≡ inr (s, m)
      → codec.decode_arg m.arg_type f.payload ≡ some arg
      → codec.elem_type arg ≡ some m.arg_type
      → handle_request codec r f ≡ finish codec f.request_id (passed_on (m.func s.value arg))
  unfolding handle_request
  handle_request-found f service method s m arg w meta found' decoded typed =
      let names = get_method-IsNamed service method r s m w found' in
      ground (
        arith,
        meta,
        found',
        decoded,
        names,
        call-found codec.elem_type service method arg r s m found' typed,
      )

  handle_request-request_id : (f : Frame) → (handle_request codec r f).request_id ≡ f.request_id
  unfolding handle_request new_frame
  handle_request-request_id f = ground arith

  ids-answers : (fs : List Frame) → ids (answers codec r fs) ≡ asked_ids fs
  unfolding answers answer handle_ping new_frame
  ids-answers [] = refl
  ids-answers (f ∷ fs) = ground (arith, handle_request-request_id f, ids-answers fs)

  -- A client that sends frames, and then perhaps a part of a header, before it closes reads back one
  -- answer for each request and each ping, in their order and with their ids, whatever the methods
  -- return and whatever the flags are (also that of a one-way call), as long as the metadata and payload of every frame, the answers included, are shorter
  -- than 2 ^ 16 bytes.
  pub serve-answers :
      (fs : List Frame) (tail : Bytes)
      → All Fits fs
      → length tail < header_size
      → All Fits (answers codec r fs)
      → (receive (serve codec r (concat fs ++ tail)) ≡ (answers codec r fs, some eof))
        × (ids (answers codec r fs) ≡ asked_ids fs)
  unfolding serve
  serve-answers fs tail w h fits = (
    cc (
      (handle_conn-concat fs tail w h).0,
      (handle_conn-concat (answers codec r fs) [] fits (omega arith)).1,
      append-nil (concat (answers codec r fs)),
    ),
    ids-answers fs,
  )
