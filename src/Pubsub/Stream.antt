-- ===== src/Pubsub/Stream.antt =====
-- StreamingPull of internal/grpcsvc/pubsub/pubsub.go: the select loop of one stream, as a step for
-- each event that it can take. A goroutine hands the client's requests to the loop one by one.
pub mod Interleaving
pub mod Deliveries
use kiri_gcp.Prelude.{
  ℕ, Bool, true, false, ◌||◌, Option, none, some, List, [], ◌∷◌, ◌++◌, if◌then◌else◌,
}
use kiri_gcp.Text.{Text, text_eq}
use kiri_gcp.Pubsub.{
  ReceivedMessage, Backend, PullResult, no_subscription, panics, pulled, pull, acknowledge,
}

pub data StreamEvent : Type 0 where
  -- stream.Context() is done, with its error.
  context_done : (error : Text) → StreamEvent
  -- RecvMsg failed: the client closed its side.
  receive_failed : StreamEvent
  requested : (subscription : Text) (acks : List Text) → StreamEvent
  -- The ticker, with the error that SendMsg would have.
  tick : (send_error : Option Text) → StreamEvent

-- The loop goes on, or the handler has returned, or it panicked.
pub data Phase : Type 0 where
  running : Phase
  returned : (error : Option Text) → Phase
  crashed : Phase

pub record Stream : Type 0 where
  pub phase : Phase
  pub subscription : Text
  -- The messages of each response that was sent.
  pub sent : List (List ReceivedMessage)

unfoldable pub new_stream : Stream
new_stream = record { phase = running; subscription = []; sent = [] }

send_pulled : Option Text → PullResult → Stream → Stream
send_pulled error no_subscription s = s
send_pulled error panics s = record s { phase = crashed }
send_pulled error (pulled []) s = s
send_pulled none (pulled (m ∷ ms)) s = record s { sent = s.sent ++ (m ∷ ms) ∷ [] }
send_pulled (some e) (pulled (m ∷ ms)) s = record s { phase = returned (some e) }

-- if req.Subscription != "" { subscription = req.Subscription }
abbrev pub subscribe : Text → Stream → Stream
subscribe subscription s =
    if text_eq subscription [] then s else record s { subscription = subscription }

acknowledge_requested : List Text → Stream → Backend → Backend
acknowledge_requested [] s b = b
acknowledge_requested (a ∷ acks) s b =
    if text_eq s.subscription [] then b else (acknowledge s.subscription (a ∷ acks) b).0

poll : Option Text → Stream → Backend → Stream × Backend
unfolding send_pulled
poll error s b =
    if text_eq s.subscription []
    then (s, b)
    else (send_pulled error (pull s.subscription b).1 s, (pull s.subscription b).0)

-- An event that the select takes.
take_event : StreamEvent → Stream → Backend → Stream × Backend
unfolding poll acknowledge_requested
take_event (context_done error) s b = (record s { phase = returned (some error) }, b)
take_event receive_failed s b = (record s { phase = returned none }, b)
take_event (requested subscription acks) s b =
    (subscribe subscription s, acknowledge_requested acks (subscribe subscription s) b)
take_event (tick error) s b = poll error s b

stream_from : Phase → StreamEvent → Stream → Backend → Stream × Backend
unfolding take_event
stream_from running e s b = take_event e s b
stream_from (returned error) e s b = (s, b)
stream_from crashed e s b = (s, b)

-- Once the handler has returned, it takes no event.
unfoldable pub stream_step : StreamEvent → Stream → Backend → Stream × Backend
unfolding stream_from
stream_step e s b = stream_from s.phase e s b
