-- ===== src/Http/Request.antt =====
-- core/http/request.go, and the request accessors of core/http/context_fd.go.
-- A nil map and an empty one answer every lookup alike, so both are the empty list.
pub mod Headers
use fast_server.Base.{
  Bytes, List, Option, [], bytes_eq, codes, if◌then◌else◌, insert, lookup, none, some, ◌∷◌,
  bytes_key,
}

pub record Request : Type 0 where
  pub method : Bytes
  pub path : Bytes
  pub proto : Bytes
  pub content_type : Bytes
  pub content_length : Bytes
  pub user_agent : Bytes
  pub accept : Bytes
  pub host : Bytes
  pub connection : Bytes
  pub extra_headers : List (Bytes × Bytes)
  pub query : List (Bytes × Bytes)
  pub body : Bytes

-- `requestPool.New`
abbrev pub new_request : Request
new_request = record {
  method = [];
  path = [];
  proto = [];
  content_type = [];
  content_length = [];
  user_agent = [];
  accept = [];
  host = [];
  connection = [];
  extra_headers = [];
  query = [];
  body = [];
}

-- `for k := range m { delete(m, k) }`
pub clear : List (Bytes × Bytes) → List (Bytes × Bytes)
clear [] = []
clear (e ∷ m) = clear m

unfoldable pub reset : Request → Request
unfolding clear
reset r = record r {
  method = [];
  path = [];
  proto = [];
  content_type = [];
  content_length = [];
  user_agent = [];
  accept = [];
  host = [];
  connection = [];
  extra_headers = clear r.extra_headers;
  query = clear r.query;
  body = [];
}

unfoldable pub set_header : Bytes → Bytes → Request → Request
set_header key value r =
    if bytes_eq key (codes "Content-Type")
    then record r { content_type = value }
    else if bytes_eq key (codes "Content-Length")
    then record r { content_length = value }
    else if bytes_eq key (codes "User-Agent")
    then record r { user_agent = value }
    else if bytes_eq key (codes "Accept")
    then record r { accept = value }
    else if bytes_eq key (codes "Host")
    then record r { host = value }
    else if bytes_eq key (codes "Connection")
    then record r { connection = value }
    else record r { extra_headers = insert key value r.extra_headers }

-- A map read yields "" where the key is missing.
abbrev pub or_empty : Option Bytes → Bytes
or_empty none = []
or_empty (some v) = v

-- `FDContext.Header`
unfoldable pub header : Bytes → Request → Bytes
header key r =
    if bytes_eq key (codes "Content-Type")
    then r.content_type
    else if bytes_eq key (codes "Content-Length")
    then r.content_length
    else if bytes_eq key (codes "User-Agent")
    then r.user_agent
    else if bytes_eq key (codes "Accept")
    then r.accept
    else if bytes_eq key (codes "Host")
    then r.host
    else if bytes_eq key (codes "Connection")
    then r.connection
    else or_empty (lookup key r.extra_headers)

-- `FDContext.Query`
pub query_value : Bytes → Request → Bytes
query_value key r = or_empty (lookup key r.query)
