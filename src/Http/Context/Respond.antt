-- ===== src/Http/Context/Respond.antt =====
-- core/http/context_fd.go: the responses, and how they are written to the socket.
use fast_server.Base.{Bytes, List, Option, [], codes, drop, length, none, some, take, ℕ, ◌++◌, ◌∷◌}
use fast_server.Http.Context.{Context, append_int, status_text}

abbrev pub line_end : Bytes
line_end = 13 ∷ 10 ∷ []

-- What `String`, `JSON`, `Bytes` and `Data` put into an empty buffer.
unfoldable pub response : ℕ → Bytes → Bytes → Bytes
response code content_type body =
    append_int
      (append_int (codes "HTTP/1.1 ") code
        ++ (b' ' ∷ status_text code
            ++ (line_end
                ++ (codes "Content-Type: "
                    ++ (content_type ++ (line_end ++ codes "Content-Length: "))))))
      (length body)
    ++ (line_end ++ (line_end ++ body))

unfoldable pub data_response : ℕ → Bytes → Bytes → Context → Context
data_response code content_type body c = record c { response_buf = response code content_type body }

pub string_response : ℕ → Bytes → Context → Context
string_response code s = data_response code (codes "text/plain") s

pub bytes_response : ℕ → Bytes → Context → Context
bytes_response code body = data_response code (codes "application/octet-stream") body

-- `JSON` and `Error`: what `json.Marshal` makes of the value, and of an error's code and message.
pub json_response : (ℕ → Bytes → Bytes) → ℕ → Option Bytes → Context → Context
json_response error_json code (some body) = data_response code (codes "application/json") body
json_response error_json code none =
    data_response 500 (codes "application/json") (error_json 500 (codes "Failed to marshal JSON"))

-- What `syscall.Write` answers: a number of bytes that it took, EAGAIN, or another error.
pub data Answer : Type 0 where
  wrote : ℕ → Answer
  again failed : Answer

pub data Status : Type 0 where
  done failed waiting : Status

-- The loop of `writeResponse`, by the answers of the kernel, of which none takes more than it was
-- given; `waiting` is a loop that goes on. What went out, and how it ended.
unfoldable pub write_response : Bytes → List Answer → Bytes × Status
write_response [] as' = ([], done)
write_response (b ∷ s) [] = ([], waiting)
write_response (b ∷ s) (failed ∷ as') = ([], failed)
write_response (b ∷ s) (again ∷ as') = write_response (b ∷ s) as'
write_response (b ∷ s) (wrote n ∷ as') =
    let (out, status) = write_response (drop n (b ∷ s)) as' in (take n (b ∷ s) ++ out, status)
