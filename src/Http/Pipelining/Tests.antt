-- ===== src/Http/Pipelining/Tests.antt =====
-- core/http/pipelining.go: connections on which the theorems are run.
use fast_server.Base.{
  Bytes, List, Option, [], none, ℕ, bytes_eq, codes, has_prefix, index, index_byte, refl,
  skip_spaces, trim_space, ◌++◌, ◌∷◌, ◌≡◌,
}
use fast_server.Http.Request.{Request, new_request, set_header}
use fast_server.Http.Parser.{
  first_line, header_line, parse_headers, parse_line, parse_request, parse_rest, parse_target,
  parsed, strip_cr, take_body,
}

abbrev line_feed : Bytes
line_feed = 13 ∷ 10 ∷ []

abbrev get : Bytes
get = codes "GET / HTTP/1.1" ++ (line_feed ++ (codes "Host: h" ++ (line_feed ++ line_feed)))

abbrev got_it : Request
got_it = record new_request {
  method = codes "GET";
  path = codes "/";
  proto = codes "HTTP/1.1";
  host = codes "h";
}

-- Of two requests in one read the second becomes the body of the first.
swallowed : parse_request new_request (get ++ get) ≡ parsed (record got_it { body = get })
unfolding parse_request first_line strip_cr parse_line parse_target parse_rest parse_headers
    header_line set_header take_body index_byte index has_prefix trim_space skip_spaces bytes_eq
swallowed = refl

-- A request that asks for the end of the connection.
abbrev last_get : Bytes
last_get =
    codes "GET / HTTP/1.1" ++ (line_feed ++ (codes "Connection: close" ++ (line_feed ++ line_feed)))

abbrev got_last : Request
got_last = record new_request {
  method = codes "GET";
  path = codes "/";
  proto = codes "HTTP/1.1";
  connection = codes "close";
}

abbrev unused : ℕ → Option Request
unused k = none

abbrev handler : Request → Bytes
handler r = r.method

abbrev both : List (Bytes × Request)
both = (last_get, got_last) ∷ (get, got_it) ∷ []
