-- ===== src/Rpc/Server/Tests.antt =====
-- core/rpc/server/server.go: a service with one method, on which the theorems about the server are
-- run. Metadata is the service and the method, one byte each, and values are byte strings.
use fast_server.Base.{
  All, Bytes, [], ap, arith, bytes_eq, codes, drop, inl, inr, insert, lookup, refl, some, take,
  true, ◌++◌, ◌∷◌, ◌≡◌, bytes_key,
}
use fast_server.Rpc.Protocol.{Frame, new_frame}
use fast_server.Rpc.Protocol.Wire.{Fits}
use fast_server.Rpc.Protocol.Stream.{concat, eof, receive}
use fast_server.Rpc.Registry.{
  Candidate, Method, Registry, Service, accept, get_method, get_service, register, scan,
}
use fast_server.Rpc.Server.{Codec, answer, answers, serve, type_request, type_response}
use fast_server.Rpc.Server.Answers.{
  IsNamed, asked_ids, handle_request-found, ids, register-IsNamed, serve-answers,
}

abbrev codec : Codec Bytes
codec = record {
  parse_metadata = λ s. some (take 1 s, drop 1 s);
  decode_arg = λ t s. some s;
  encode_reply = some;
  elem_type = λ s. some 0;
  text = λ e. [];
}

-- It returns its argument twice.
abbrev twice : Candidate Bytes
twice = record {
  name = codes "t";
  pkg_path = [];
  num_in = 3;
  num_out = 2;
  takes_context = true;
  arg_elem = some 0;
  reply_elem = some 0;
  returns_error = true;
  func = λ self arg. inl (arg ++ arg);
}

abbrev services : Registry Bytes
services = register (codes "s") [] (twice ∷ []) []

services-IsNamed : IsNamed services
services-IsNamed = register-IsNamed (codes "s") [] (twice ∷ []) [] (unfold lookup in λ i m. cc)

abbrev question : Frame
question = record (new_frame type_request 7) { metadata = codes "st"; payload = 1 ∷ [] }

abbrev twice_method : Method Bytes
twice_method = record { name = codes "t"; func = twice.func; arg_type = 0; reply_type = 0 }

abbrev service : Service Bytes
service = record { name = codes "s"; value = []; methods = (codes "t", twice_method) ∷ [] }

get_method_test : get_method (codes "s") (codes "t") services ≡ inr (service, twice_method)
unfolding get_method get_service register scan accept lookup insert bytes_eq
get_method_test = refl

question-Fits : Fits question
unfolding new_frame
question-Fits = record {
  magic = refl;
  version = refl;
  request_id = omega arith;
  metadata = omega arith;
  payload = omega arith;
}

answers_test :
    answers codec services (question ∷ [])
    ≡ (record (new_frame type_response 7) { payload = 1 ∷ 1 ∷ [] }) ∷ []
unfolding answers answer new_frame
answers_test =
    ap (λ a. a ∷ [])
      (handle_request-found codec services question (codes "s") (codes "t") service twice_method
        (1 ∷ []) services-IsNamed refl get_method_test refl refl)

answers-Fits : All Fits (answers codec services (question ∷ []))
unfolding new_frame
answers-Fits = rw answers_test (
  record {
    magic = refl;
    version = refl;
    request_id = omega arith;
    metadata = omega arith;
    payload = omega arith;
  },
  tt,
)

serve-answers_example :
    (receive (serve codec services (concat (question ∷ []) ++ []))
      ≡ (answers codec services (question ∷ []), some eof))
    × (ids (answers codec services (question ∷ [])) ≡ asked_ids (question ∷ []))
serve-answers_example =
    serve-answers codec services (question ∷ []) [] (question-Fits, tt) (omega arith) answers-Fits
