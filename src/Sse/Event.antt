-- ===== src/Sse/Event.antt =====
-- core/sse/broker.go: `Event`, its text, and the clients that receive it.
pub mod Format
use fast_server.Base.{
  Bool, Bytes, List, [], codes, false, if◌then◌else◌, length, ltb, true, ℕ, ◌++◌, ◌==◌, ◌∷◌,
}
use fast_server.Http.Context.Digits.{decimal, value}

-- `Retry` is not negative.
pub record Event : Type 0 where
  pub id : Bytes
  pub event : Bytes
  pub data_text : Bytes
  pub retry : ℕ

abbrev pub lf : ℕ
lf = 10

abbrev pub is_empty : Bytes → Bool
is_empty [] = true
is_empty (b ∷ s) = false

-- "name: value" and a line end, where there is a value.
unfoldable pub field : Bytes → Bytes → Bytes → Bytes
field name value buf =
    if is_empty value then buf else buf ++ (name ++ (b':' ∷ b' ' ∷ value ++ (lf ∷ [])))

-- `FormatEvent`; `%d` prints the decimal digits.
unfoldable pub format_event : Event → Bytes
format_event e =
    let with_id = field (codes "id") e.id [] in
    let with_event = field (codes "event") e.event with_id in
    let with_retry =
      field (codes "retry") (if ltb 0 e.retry then decimal e.retry else []) with_event in
    field (codes "data") e.data_text with_retry ++ (lf ∷ [])

-- `Client`: the events that wait in its channel, of the size `buffer_size`.
pub record Client : Type 0 where
  pub client_id : Bytes
  pub channel : List Event
  pub buffer_size : ℕ
  pub closed : Bool

-- `NewClient`; a size that is not positive is 0 here.
unfoldable pub new_client : Bytes → ℕ → Client
new_client client_id buffer_size = record {
  client_id = client_id;
  channel = [];
  buffer_size = if buffer_size == 0 then 100 else buffer_size;
  closed = false;
}

-- `Close`: what is in the channel can still be received.
unfoldable pub close : Client → Client
close c = record c { closed = true }

-- What a send comes to: the client with what `Send` returns, or the panic of a send on a closed channel.
pub data SendOutcome : Type 0 where
  sent : Client → Bool → SendOutcome
  panicked : SendOutcome

-- `Send`, the `select`.
abbrev pub push_event : Event → Client → SendOutcome
push_event e c =
    if c.closed
    then panicked
    else if ltb (length c.channel) c.buffer_size
    then sent (record c { channel = c.channel ++ (e ∷ []) }) true
    else sent c false

-- `Send`; `closes` says whether a `Close` runs between its look at `closeCh` and the `select`.
abbrev pub send_beside : Bool → Event → Client → SendOutcome
send_beside closes e c =
    if c.closed
    then sent c false
    else push_event e (if closes then record c { closed = true } else c)

-- `Send` where no `Close` runs inside it.
unfoldable pub send : Event → Client → Client × Bool
send e c = elim (send_beside false e c) [ sent d ok ↦ (d, ok) | panicked ↦ (c, false) ]
