-- ===== src/Http/Standard/Files.antt =====
-- core/http/context.go: files, and the responses of the two contexts.
use fast_server.Base.{
  Bytes, ap, append_assoc, arith, codes, length, none, refl, some, take_all, ℕ, ◌++◌, ◌∙◌, ◌≡◌, ◌≤◌,
}
use fast_server.Http.Context.{Context, append_int, count_digits, fill, push_zeros, status_text}
use fast_server.Http.Context.Respond.{data_response, line_end, response}
use fast_server.Http.Standard.{StandardContext, file_head, found, get_content_type, serve_file, tcp}

status_ok : append_int (codes "HTTP/1.1 ") 200 ≡ codes "HTTP/1.1 200"
unfolding append_int count_digits fill push_zeros
status_ok = refl

text_ok : status_text 200 ≡ codes "OK"
unfolding status_text
text_ok = refl

file_head-response :
    (type' content : Bytes)
    → file_head type' (length content) ++ content ≡ response 200 type' content
unfolding response
file_head-response type' content =
    rw (status_ok, text_ok)
      (append_assoc
        (append_int
          (codes "HTTP/1.1 200 OK"
            ++ (line_end
                ++ (codes "Content-Type: " ++ (type' ++ (line_end ++ codes "Content-Length: ")))))
          (length content))
        (line_end ++ line_end) content)

-- A file that TCP takes at once is sent as its content would be with status 200, and what goes out is
-- what the context of the engine has in its buffer for it; without a connection there is a panic.
pub serve_file-response :
    (content path : Bytes) (n : ℕ) (c : StandardContext) (d : Context)
    → length content ≤ n
    → (c.conn ≡ none → serve_file (found content) (tcp (some n)) path c ≡ none)
      × ((out : Bytes)
          → c.conn ≡ some out
          → (e : StandardContext) × (serve_file (found content) (tcp (some n)) path c ≡ some e)
            × (e.conn
                ≡ some (out ++ (data_response 200 (get_content_type path) content d).response_buf)))
unfolding serve_file data_response
serve_file-response content path n c d l = (
  λ e. ground (arith, e),
  λ out e.
      let buf = file_head (get_content_type path) (length content) in
      (
        record c { conn = some ((out ++ buf) ++ content); response_buf = buf },
        ground (arith, e, take_all n content l),
        ap some (
            append_assoc out buf content
            ∙ ap (λ s. out ++ s) (file_head-response (get_content_type path) content)),
      ),
)
