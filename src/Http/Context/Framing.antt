-- ===== src/Http/Context/Framing.antt =====
-- core/http/context_fd.go: what a client finds in a response, and what reaches the socket.
use fast_server.Base.{
  All-append, Bool, Bool-cases, Bytes, Lacks, List, [], ap, append_assoc, arith, codes, drop, false,
  if◌then◌else◌, index, inl, inr, length, length-append, refl, some, suc, take, take-append-drop,
  true, zero, ℕ, ◌%◌, ◌++◌, ◌+◌, ◌/◌, ◌==◌, ◌∙◌, ◌∷◌, ◌≡◌, ◌≢◌,
}
use fast_server.Http.Parser.{crlf, lf}
use fast_server.Http.Parser.Lines.{blank, index-blank_here, index-blank_later}
use fast_server.Http.Context.{count_digits, status_text}
use fast_server.Http.Context.Digits.{
  append_int-decimal, append_int_lem, decimal, last_digits, value,
}
use fast_server.Http.Context.Respond.{Answer, again, done, failed, response, write_response, wrote}

abbrev status_line : ℕ → Bytes
status_line code = codes "HTTP/1.1 " ++ (decimal code ++ (b' ' ∷ status_text code))

abbrev type_line : Bytes → Bytes
type_line content_type = codes "Content-Type: " ++ content_type

abbrev length_line : Bytes → Bytes
length_line body = codes "Content-Length: " ++ decimal (length body)

-- The lines in front of the blank one.
abbrev pub head : ℕ → Bytes → Bytes → Bytes
head code content_type body =
    status_line code ++ (crlf ++ (type_line content_type ++ (crlf ++ length_line body)))

Lacks-last_digits : (n i : ℕ) → Lacks lf (last_digits n i)
Lacks-last_digits zero i = tt
Lacks-last_digits (suc n) i =
    All-append (λ b. b ≢ lf) (last_digits n (i / 10)) ((b'0' + i % 10) ∷ [])
      (Lacks-last_digits n (i / 10)) (omega arith)

pub Lacks-decimal : (i : ℕ) → Lacks lf (decimal i)
Lacks-decimal i = elim (Bool-cases (i == 0)) [
  | inl e ↦ rw e (omega arith)
  | inr e ↦ rw e (Lacks-last_digits (count_digits i i) i)
]

Lacks-if : (b : Bool) (x y : Bytes) → Lacks lf x → Lacks lf y → Lacks lf (if b then x else y)
Lacks-if true x y v w = v
Lacks-if false x y v w = w

Lacks-status_text : (code : ℕ) → Lacks lf (status_text code)
unfolding status_text
Lacks-status_text code = Lacks-if (code == 200) (codes "OK") _ (omega arith) (
    Lacks-if (code == 201) (codes "Created") _ (omega arith) (
      Lacks-if (code == 400) (codes "Bad Request") _ (omega arith) (
        Lacks-if (code == 404) (codes "Not Found") _ (omega arith)
          (Lacks-if (code == 500) (codes "Internal Server Error") _ (omega arith) (omega arith)))))

response_lem :
    (code : ℕ) (content_type body : Bytes)
    → response code content_type body ≡ head code content_type body ++ (blank ++ body)
unfolding response
response_lem code content_type body = simp (append_int_lem, append_assoc)

index-head :
    (code : ℕ) (content_type body : Bytes)
    → Lacks lf content_type
    → index blank (head code content_type body ++ (blank ++ body))
      ≡ some (length (head code content_type body))
index-head code content_type body w =
    let ends = length_line body ++ (blank ++ body) in
    let typed = type_line content_type ++ (crlf ++ ends) in
    let lines : head code content_type body ++ (blank ++ body)
        ≡ status_line code ++ (crlf ++ typed) =
      simp append_assoc in
    let last = index-blank_here (length_line body) body (
      All-append (λ b. b ≢ lf) (codes "Content-Length: ") (decimal (length body)) (omega arith)
        (Lacks-decimal (length body))) in
    let second =
      index-blank_later (type_line content_type) b'C' (drop 1 ends)
        (All-append (λ b. b ≢ lf) (codes "Content-Type: ") content_type (omega arith) w)
        (omega arith) last in
    let first =
      index-blank_later (status_line code) b'C' (drop 1 typed)
        (All-append (λ b. b ≢ lf) (codes "HTTP/1.1 ") (decimal code ++ (b' ' ∷ status_text code))
          (omega arith)
          (All-append (λ b. b ≢ lf) (decimal code) (b' ' ∷ status_text code) (Lacks-decimal code)
            (omega arith, Lacks-status_text code)))
        (omega arith) second in
    ap (index blank) lines
    ∙ first
    ∙ ap some (
        omega (
          arith,
          length-append (status_line code)
              (crlf ++ (type_line content_type ++ (crlf ++ length_line body))),
          length-append (type_line content_type) (crlf ++ length_line body),
        ))

-- A response to a content type without a line feed is three lines, a blank line and the body; the
-- first blank line is the one in front of the body, and the last of the lines gives the length of
-- the body in decimal.
pub response-head :
    (code : ℕ) (content_type body : Bytes)
    → Lacks lf content_type
    → (response code content_type body ≡ head code content_type body ++ (blank ++ body))
      × (index blank (response code content_type body)
          ≡ some (length (head code content_type body)))
      × (value (decimal (length body)) ≡ length body)
response-head code content_type body w = (
  response_lem code content_type body,
  ap (index blank) (response_lem code content_type body) ∙ index-head code content_type body w,
  (append_int-decimal [] (length body)).1,
)

-- Whatever the kernel answers, what has gone out is the front of the buffer, no byte left out or
-- sent twice, and all of it when the loop is done.
pub write_response-front :
    (s : Bytes) (as' : List Answer)
    → (rest : Bytes) × ((write_response s as').0 ++ rest ≡ s)
      × ((write_response s as').1 ≡ done → rest ≡ [])
unfolding write_response
write_response-front [] as' = ([], refl, λ e. refl)
write_response-front (b ∷ s) [] = (b ∷ s, refl, λ e. cc)
write_response-front (b ∷ s) (failed ∷ as') = (b ∷ s, refl, λ e. cc)
write_response-front (b ∷ s) (again ∷ as') = write_response-front (b ∷ s) as'
write_response-front (b ∷ s) (wrote n ∷ as') =
    let (rest, e, d) = write_response-front (drop n (b ∷ s)) as' in
    (
      rest,
      append_assoc (take n (b ∷ s)) (write_response (drop n (b ∷ s)) as').0 rest
          ∙ rw e (take-append-drop n (b ∷ s)),
      d,
    )
