-- ===== src/Http/Pipelining/Order.antt =====
-- core/http/pipelining.go: requests that arrive one by one are answered one by one.
use fast_server.Http.Pipelining.{PipelineHandler, buf_size, released}
use fast_server.Base.{Bytes, List, Option, [], bytes_eq, codes, false, length, ℕ, ◌≡◌, ◌≢◌, ◌≤◌}
use fast_server.Http.Request.{Request, new_request}
use fast_server.Http.Parser.{parse_request, parsed}

-- A read that brings just one request.
pub record IsWhole (arrival : Bytes × Request) : Type 0 where
  pub some_bytes : arrival.0 ≢ []
  pub fits : length arrival.0 ≤ buf_size
  pub parses : parse_request new_request arrival.0 ≡ parsed arrival.1

-- What is left to read.
abbrev pub behind : List Bytes → PipelineHandler → PipelineHandler
behind rest ph = record ph { buffered = []; arrivals = rest }

-- No released request is used again, before the test of `Connection`, for one that asks for the end.
abbrev pub GoesOn : (ℕ → Option Request) → Type 0
GoesOn reuse =
    (k : ℕ) (r : Request) → bytes_eq (released (reuse k) r).connection (codes "close") ≡ false
