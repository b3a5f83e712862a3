-- ===== src/Http/Context.antt =====
-- core/http/context_fd.go, with `appendInt` and `statusText` of core/http/context.go. Status codes
-- and lengths are not negative. The JSON of a value is a parameter of the functions that send it.
pub mod Digits
pub mod Params
pub mod Respond
pub mod Framing
mod Tests
use fast_server.Base.{
  Bool, Bytes, List, Option, [], bytes_eq, codes, false, get_or, if◌then◌else◌, insert, length,
  lookup, ltb, none, set, some, suc, true, zero, ℕ, ◌%◌, ◌++◌, ◌+◌, ◌/◌, ◌==◌, ◌∷◌, bytes_key,
}
use fast_server.Http.Request.{Request, clear, or_empty}

pub record Context : Type 0 where
  pub fd : ℕ
  pub request : Request
  pub param_keys : List Bytes
  pub param_values : List Bytes
  pub param_count : ℕ
  pub param_overflow : List (Bytes × Bytes)
  pub response_buf : Bytes
  pub response_headers : List (Bytes × Bytes)
  pub status_code : ℕ
  pub aborted : Bool

-- `[4]string`
abbrev four : List Bytes
four = [] ∷ [] ∷ [] ∷ [] ∷ []

-- `NewFDContext`
unfoldable pub new_context : ℕ → Request → Context
new_context fd req = record {
  fd = fd;
  request = req;
  param_keys = four;
  param_values = four;
  param_count = 0;
  param_overflow = [];
  response_buf = [];
  response_headers = [];
  status_code = 200;
  aborted = false;
}

-- The loop of `Param`: `n` slots from slot `i` on.
unfoldable pub find_param : ℕ → ℕ → Bytes → List Bytes → List Bytes → Option Bytes
find_param zero i key keys values = none
find_param (suc n) i key keys values =
    if bytes_eq (get_or keys i []) key
    then some (get_or values i [])
    else find_param n (i + 1) key keys values

-- The slots that are in use.
abbrev pub slots : Context → ℕ
slots c = if ltb c.param_count 4 then c.param_count else 4

-- `Param`
unfoldable pub param : Bytes → Context → Bytes
param key c = elim (find_param (slots c) 0 key c.param_keys c.param_values) [
  | some v ↦ v
  | none ↦ or_empty (lookup key c.param_overflow)
]

-- `SetParam`
unfoldable pub set_param : Bytes → Bytes → Context → Context
set_param key value c =
    if ltb c.param_count 4
    then record c {
      param_keys = set c.param_keys c.param_count key;
      param_values = set c.param_values c.param_count value;
      param_count = c.param_count + 1;
    }
    else record c { param_overflow = insert key value c.param_overflow }

-- `SetHeader`, `Status` and `Abort`
unfoldable pub set_response_header : Bytes → Bytes → Context → Context
set_response_header key value c = record c {
  response_headers = insert key value c.response_headers;
}

pub set_status : ℕ → Context → Context
set_status code c = record c { status_code = code }

pub abort : Context → Context
abort c = record c { aborted = true }

-- `Reset`
unfoldable pub reset_context : ℕ → Request → Context → Context
reset_context fd req c = record c {
  fd = fd;
  request = req;
  param_count = 0;
  param_overflow = clear c.param_overflow;
  response_headers = clear c.response_headers;
  response_buf = [];
  status_code = 200;
  aborted = false;
}

-- The number of decimal digits, on fuel.
unfoldable pub count_digits : ℕ → ℕ → ℕ
count_digits zero i = 0
count_digits (suc fuel) i = let rest = count_digits fuel (i / 10) in if i == 0 then 0 else suc rest

unfoldable pub push_zeros : ℕ → Bytes → Bytes
push_zeros zero b = b
push_zeros (suc n) b = push_zeros n (b ++ (b'0' ∷ []))

-- The digits from right to left, the last of them at `start + j`.
unfoldable pub fill : ℕ → ℕ → ℕ → Bytes → Bytes
fill start zero i b = b
fill start (suc j) i b = fill start j (i / 10) (set b (start + j) (b'0' + i % 10))

-- `appendInt`
unfoldable pub append_int : Bytes → ℕ → Bytes
append_int b i =
    let digits = count_digits i i in
    if i == 0 then b ++ (b'0' ∷ []) else fill (length b) digits i (push_zeros digits b)

-- `statusText`
unfoldable pub status_text : ℕ → Bytes
status_text code =
    if code == 200
    then codes "OK"
    else if code == 201
    then codes "Created"
    else if code == 400
    then codes "Bad Request"
    else if code == 404
    then codes "Not Found"
    else if code == 500
    then codes "Internal Server Error"
    else codes "Unknown"
