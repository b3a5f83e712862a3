-- ===== src/Http/Context/Tests.antt =====
-- core/http/context_fd.go: contexts on which the theorems are run.
use fast_server.Base.{arith, codes, index, length, refl, some, ◌++◌, ◌≡◌, bytes_key}
use fast_server.Http.Request.{new_request}
use fast_server.Http.Parser.Lines.{blank}
use fast_server.Http.Context.{Context, append_int, count_digits, fill, new_context, push_zeros}
use fast_server.Http.Context.Digits.{decimal, value}
use fast_server.Http.Context.Respond.{response}
use fast_server.Http.Context.Framing.{head, response-head}

abbrev fresh : Context
fresh = new_context 3 new_request

five_test : append_int (codes "n=") 1205 ≡ codes "n=1205"
unfolding append_int count_digits push_zeros fill
five_test = refl

response-head_example :
    (response 200 (codes "a/b") (codes "hi")
      ≡ head 200 (codes "a/b") (codes "hi") ++ (blank ++ codes "hi"))
    × (index blank (response 200 (codes "a/b") (codes "hi"))
        ≡ some (length (head 200 (codes "a/b") (codes "hi"))))
    × (value (decimal (length (codes "hi"))) ≡ length (codes "hi"))
response-head_example = response-head 200 (codes "a/b") (codes "hi") (omega arith)
