-- ===== src/Http/Standard.antt =====
-- core/http/context.go: `StandardContext`, the context on a `net.Conn`. Writes succeed; lengths and codes
-- are not negative. `conn` has what was written to the connection, `none` is nil, and a write to nil
-- panics, which is `none` as a result.
pub mod Slots
pub mod Files
mod Tests
use fast_server.Base.{
  Bytes, List, Option, [], bytes_eq, codes, if◌then◌else◌, insert, length, lookup, ltb, none, set,
  some, take, ℕ, ◌++◌, ◌+◌, ◌==◌, ◌||◌, ◌∷◌, bytes_key,
}
use fast_server.Http.Request.{Request, clear, or_empty}
use fast_server.Http.Context.{append_int, find_param, status_text}
use fast_server.Http.Context.Respond.{line_end}

pub record StandardContext : Type 0 where
  pub param_keys : List Bytes
  pub param_values : List Bytes
  pub param_count : ℕ
  pub param_overflow : List (Bytes × Bytes)
  pub request : Option Request
  pub conn : Option Bytes
  pub response_buf : Bytes

-- `AcquireContext` and `AcquireContextForConn`, on what the pool gives.
abbrev pub acquire_context : Request → StandardContext → StandardContext
acquire_context req c = record c {
  conn = none;
  request = some req;
  param_count = 0;
  param_overflow = [];
}

abbrev pub acquire_context_for_conn : Bytes → Request → StandardContext → StandardContext
acquire_context_for_conn conn req c = record c {
  conn = some conn;
  request = some req;
  param_count = 0;
  param_overflow = [];
}

-- `ReleaseContext`: what goes back to the pool.
abbrev pub release_context : StandardContext → StandardContext
release_context c = record c {
  request = none;
  conn = none;
  param_count = 0;
  param_overflow = clear c.param_overflow;
}

-- `SetParam`
pub set_param : Bytes → Bytes → StandardContext → StandardContext
set_param key value c =
    if ltb c.param_count 4
    then record c {
      param_keys = set c.param_keys c.param_count key;
      param_values = set c.param_values c.param_count value;
      param_count = c.param_count + 1;
    }
    else record c { param_overflow = insert key value c.param_overflow }

-- `Param`, with the loop of the other context.
pub param : Bytes → StandardContext → Bytes
param key c =
    elim (find_param (if ltb c.param_count 4 then c.param_count else 4) 0 key c.param_keys
      c.param_values) [ some v ↦ v | none ↦ or_empty (lookup key c.param_overflow) ]

-- `c.conn.Write`
abbrev pub write_conn : Bytes → StandardContext → Option StandardContext
write_conn s c = elim c.conn [ none ↦ none | some out ↦ some (record c { conn = some (out ++ s) }) ]

-- `Data`: the buffer is emptied and filled.
pub data_bytes : ℕ → Bytes → Bytes → Bytes
data_bytes code content_type body =
    append_int
      (append_int (codes "HTTP/1.1 ") code
        ++ (b' ' ∷ status_text code
            ++ (line_end
                ++ (codes "Content-Type: "
                    ++ (content_type ++ (line_end ++ codes "Content-Length: "))))))
      (length body)
    ++ (line_end ++ (line_end ++ body))

abbrev pub send_data : ℕ → Bytes → Bytes → StandardContext → Option StandardContext
send_data code content_type body c =
    let buf = data_bytes code content_type body in write_conn buf (record c { response_buf = buf })

-- `String`, `Bytes`, and `JSON` on what `json.Marshal` makes of the value.
abbrev pub send_string : ℕ → Bytes → StandardContext → Option StandardContext
send_string code s = send_data code (codes "text/plain") s

abbrev pub send_bytes : ℕ → Bytes → StandardContext → Option StandardContext
send_bytes code body = send_data code (codes "application/octet-stream") body

abbrev pub send_json : ℕ → Option Bytes → StandardContext → Option StandardContext
send_json code (some body) = send_data code (codes "application/json") body
send_json code none = send_string 500 (codes "JSON marshal error")

-- `filepath.Ext`: from the last dot of the last element on; `found` is from the last dot so far.
pub ext : Bytes → Bytes → Bytes
ext found [] = found
ext found (b ∷ s) = if b == b'/' then ext [] s else if b == b'.' then ext (b ∷ s) s else ext found s

-- `getContentType`
pub get_content_type : Bytes → Bytes
get_content_type filename =
    let e = ext [] filename in
    if bytes_eq e (codes ".html") || bytes_eq e (codes ".htm")
    then codes "text/html"
    else if bytes_eq e (codes ".css")
    then codes "text/css"
    else if bytes_eq e (codes ".js")
    then codes "application/javascript"
    else if bytes_eq e (codes ".json")
    then codes "application/json"
    else if bytes_eq e (codes ".png")
    then codes "image/png"
    else if bytes_eq e (codes ".jpg") || bytes_eq e (codes ".jpeg")
    then codes "image/jpeg"
    else if bytes_eq e (codes ".gif")
    then codes "image/gif"
    else if bytes_eq e (codes ".svg")
    then codes "image/svg+xml"
    else if bytes_eq e (codes ".txt")
    then codes "text/plain"
    else codes "application/octet-stream"

-- What opening and measuring a file comes to.
pub data File : Type 0 where
  missing unmeasured : File
  found : Bytes → File

-- The connection: on TCP `syscall.Sendfile` takes a number of bytes or fails; another kind of connection,
-- or TCP without a file of its own, has `copyFileData`, which copies nothing.
pub data Link : Type 0 where
  tcp : Option ℕ → Link
  other : Link

abbrev sent : Link → Bytes → Bytes
sent (tcp (some n)) content = take n content
sent (tcp none) content = []
sent other content = []

abbrev pub file_head : Bytes → ℕ → Bytes
file_head content_type size =
    append_int
      (codes "HTTP/1.1 200 OK"
        ++ (line_end
            ++ (codes "Content-Type: "
                ++ (content_type ++ (line_end ++ codes "Content-Length: ")))))
      size
    ++ (line_end ++ line_end)

-- `ServeFile`, but for the error that it returns.
pub serve_file : File → Link → Bytes → StandardContext → Option StandardContext
serve_file missing link path c = send_string 404 (codes "File not found") c
serve_file unmeasured link path c = send_string 500 (codes "Internal server error") c
serve_file (found content) link path c =
    let buf = file_head (get_content_type path) (length content) in
    elim (write_conn buf (record c { response_buf = buf })) [
      | none ↦ none
      | some d ↦ write_conn (sent link content) d
    ]
