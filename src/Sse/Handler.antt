-- ===== src/Sse/Handler.antt =====
-- core/sse/handler.go: `HandleConnection` of one client, whom others send events to and close meanwhile.
-- `onEvent` gets the bytes one event at a time; `written` is all that it took.
pub mod Delivery
mod Tests
use fast_server.Base.{
  Bool, Bytes, List, Option, [], codes, false, if◌then◌else◌, none, some, true, ◌&&◌, ◌++◌, ◌||◌,
  ◌∷◌, ◌≡◌, bytes_key,
}
use fast_server.Sse.Event.{Client, Event, close, format_event, new_client, send}

pub data Result : Type 0 where
  running returned_nil write_failed : Result

pub record Connection : Type 0 where
  pub client : Client
  pub written : Bytes
  pub result : Result
  pub unsubscribed : Bool

pub connected_event : Bytes → Event
connected_event client_id = record {
  id = [];
  event = codes "connected";
  data_text = codes "client_id:" ++ client_id;
  retry = 0;
}

-- The leave_with, with the deferred `Unsubscribe` (which may have to wait for the broker).
abbrev pub leave_with : Result → Connection → Connection
leave_with r c = record c { result = r; unsubscribed = true }

-- A call of `onEvent`, which takes the event or fails.
unfoldable pub on_event : Bool → Event → Connection → Connection
on_event writes e c =
    if writes then record c { written = c.written ++ format_event e } else leave_with write_failed c

-- The client of `Subscribe`, and the first event.
pub connect : Bool → Bytes → Connection
connect writes client_id = on_event writes (connected_event client_id) (record {
  client = new_client client_id 100;
  written = [];
  result = running;
  unsubscribed = false;
})

abbrev pub has_none : List Event → Bool
has_none [] = true
has_none (e ∷ es) = false

-- The loop's `select`; `none` while it waits. A closed client is ready in both cases, of which Go takes
-- any: `prefers_close` says which. A receive from the channel, closed with nothing left, returns too.
pub select : Bool → Bool → Connection → Option Connection
select prefers_close writes c =
    if c.client.closed && (prefers_close || has_none c.client.channel)
    then some (leave_with returned_nil c)
    else elim c.client.channel [
      | [] ↦ none
      | e ∷ rest ↦
          some (on_event writes e (record c { client = record (c.client) { channel = rest } }))
    ]

-- A step of the loop while it runs.
pub loop_step : Bool → Bool → Connection → Option Connection
loop_step prefers_close writes c = elim c.result [
  | running ↦ select prefers_close writes c
  | returned_nil ↦ none
  | write_failed ↦ none
]

-- A run of the connection among calls of others, by the events that `Send` took. The first
-- index says whether a `select` of it preferred the closing.
pub data Run (c : Connection) : Bool → List Event → Connection → Type 0 where
  begins : Run c false [] c
  sends :
      {h : Bool} {es : List Event} {d : Connection} (e : Event)
      → Run c h es d
      → (send e d.client).1 ≡ true
      → Run c h (es ++ e ∷ []) (record d { client = (send e d.client).0 })
  closes :
      {h : Bool} {es : List Event} {d : Connection}
      → Run c h es d
      → Run c h es (record d { client = close d.client })
  loops :
      {h : Bool} {es : List Event} {d u : Connection} (prefers_close writes : Bool)
      → Run c h es d
      → loop_step prefers_close writes d ≡ some u
      → Run c (h || prefers_close) es u
