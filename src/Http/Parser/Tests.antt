-- ===== src/Http/Parser/Tests.antt =====
-- core/http/parser.go and core/http/request.go: messages on which the theorems about the parser are run.
use fast_server.Base.{[], arith, codes, refl, skip_spaces, ◌∷◌, ◌≡◌}
use fast_server.Http.Request.{Request, new_request, reset}
use fast_server.Http.Parser.{parse_request, parsed}
use fast_server.Http.Parser.HeaderLines.{IsHeader}
use fast_server.Http.Parser.RoundTrip.{IsWire, Wire, parse_request-print, print, received}

-- A request after use.
abbrev used : Request
used = record new_request { method = codes "GET"; query = (codes "a", codes "b") ∷ [] }

abbrev message : Wire
message = record {
  method = codes "POST";
  path = codes "/u";
  params = (codes "id", codes "7") ∷ [];
  proto = codes "HTTP/1.1";
  first = (codes "Host", codes "h");
  more = (codes "X", codes "y") ∷ [];
  body = codes "hi";
}

host-IsHeader : IsHeader (codes "Host", codes "h")
unfolding skip_spaces
host-IsHeader = record {
  named = cc;
  key = omega arith;
  key_line = omega arith;
  value_line = omega arith;
  key_trimmed = (refl, refl);
  value_trimmed = (refl, refl);
}

x-IsHeader : IsHeader (codes "X", codes "y")
unfolding skip_spaces
x-IsHeader = record {
  named = cc;
  key = omega arith;
  key_line = omega arith;
  value_line = omega arith;
  key_trimmed = (refl, refl);
  value_trimmed = (refl, refl);
}

message-IsWire : IsWire message
message-IsWire = record {
  method_word = omega arith;
  method_line = omega arith;
  path_part = omega arith;
  pairs = (record { key_name = omega arith; key_part = omega arith; value_part = omega arith }, tt);
  target_word = omega arith;
  target_line = omega arith;
  proto_line = omega arith;
  headers = (host-IsHeader, (x-IsHeader, tt));
}

parse_request-print_example : parse_request (reset used) (print message) ≡ parsed (received message)
parse_request-print_example = parse_request-print message used message-IsWire
