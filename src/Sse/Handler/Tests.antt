-- ===== src/Sse/Handler/Tests.antt =====
-- core/sse/handler.go: a client that gets two events and is closed, with what is lost of them.
use fast_server.Base.{
  List, Option, [], arith, codes, false, none, refl, some, true, ◌++◌, ◌∷◌, ◌≡◌, ◌≢◌,
}
use fast_server.Sse.Event.{Event, close, new_client, send}
use fast_server.Sse.Event.Format.{IsPlain, read_events}
use fast_server.Sse.Handler.{
  Connection, Run, begins, closes, connect, connected_event, loop_step, loops, on_event,
  returned_nil, select, sends, write_failed,
}
use fast_server.Sse.Handler.Delivery.{read_events-Run}

abbrev tick : Event
tick = record { id = codes "7"; event = []; data_text = codes "a: b"; retry = 250 }

abbrev or_self : Connection → Option Connection → Connection
or_self c none = c
or_self c (some d) = d

abbrev opened : Connection
opened = connect true (codes "c")

abbrev with_one : Connection
with_one = record opened { client = (send tick opened.client).0 }

abbrev with_two : Connection
with_two = record with_one { client = (send tick with_one.client).0 }

abbrev took_one : Connection
took_one = or_self with_two (loop_step false true with_two)

abbrev closed_two : Connection
closed_two = record took_one { client = close took_one.client }

abbrev ended : Connection
ended = or_self closed_two (loop_step true true closed_two)

to_ended : Run opened true (tick ∷ tick ∷ []) ended
unfolding connect on_event new_client send close loop_step select
to_ended =
    loops true true (closes (loops false true (sends tick (sends tick begins refl) refl) refl)) refl

-- The second event was taken by `Send`, and is not written.
one_lost : (ended.result ≡ returned_nil) × (ended.client.channel ≡ tick ∷ [])
unfolding connect on_event new_client send close loop_step select
one_lost = (refl, refl)

ended-result : ended.result ≢ write_failed
unfolding connect on_event new_client send close loop_step select
ended-result = cc

tick-IsPlain : IsPlain tick
tick-IsPlain = ((omega arith, omega arith), omega arith, (tt, tt), (omega arith, omega arith), (cc))

read_events-Run_example :
    (taken : List Event) × (read_events ended.written ≡ connected_event (codes "c") ∷ taken)
    × (tick ∷ tick ∷ [] ≡ taken ++ ended.client.channel)
    × (ended.result ≡ returned_nil
        → (ended.unsubscribed ≡ true)
          × (ended.client.closed ≡ true)
          × (true ≡ false → ended.client.channel ≡ []))
read_events-Run_example =
    read_events-Run (codes "c") true true (tick ∷ tick ∷ []) ended (omega arith, omega arith)
      (tick-IsPlain, (tick-IsPlain, tt)) to_ended ended-result
