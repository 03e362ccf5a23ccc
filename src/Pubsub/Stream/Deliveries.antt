-- ===== src/Pubsub/Stream/Deliveries.antt =====
-- What the ticker of a stream sends.
use kiri_gcp.Prelude.{ℕ, ◌≡◌, ◌≢◌, refl, ap, ◌∙◌, Bool, none, some, List, [], ◌∷◌, ◌++◌, map, All}
use kiri_gcp.Text.{Text}
use kiri_gcp.Text.Laws.{text_eq-false}
use kiri_gcp.GoMap.{GoMap, get}
use kiri_gcp.Sort.Laws.{IsDistinct}
use kiri_gcp.Pubsub.{Message, Backend, assign_ids, ids_of, publish, receive, PullResult, pull}
use kiri_gcp.Pubsub.Delivery.Once.{IsUnhanded, handed_to, after_pull, pull-publish-pull}
use kiri_gcp.Pubsub.Stream.{
  tick, running, Stream, send_pulled, poll, take_event, stream_from, stream_step,
}

stream_step-tick :
    (s : Stream) (b : Backend)
    → s.phase ≡ running
    → s.subscription ≢ []
    → (stream_step (tick none) s b).0 ≡ send_pulled none (pull s.subscription b).1 s
unfolding stream_step stream_from take_event poll
stream_step-tick s b h n = rw h (rw (text_eq-false s.subscription [] n) refl)

-- A stream that goes on has polled its subscription, which is there and has its map of handed-out
-- ids; then messages are published on the topic, at
-- least one, with ids that differ from one another and were not handed out to the subscription
-- before. With a send that does not fail, the next tick sends one response, with exactly these
-- messages in the order of the publish call.
pub tick-publish :
    (random : ℕ → List ℕ) (topic : Text) (handed : GoMap Bool) (m : Message) (ms : List Message)
    (s : Stream) (b : Backend)
    → s.phase ≡ running
    → s.subscription ≢ []
    → get s.subscription b.subscriptions ≡ some topic
    → get s.subscription b.acked ≡ some handed
    → All
        (IsUnhanded (handed_to s.subscription (after_pull s.subscription b)))
        (assign_ids random 0 (m ∷ ms))
    → IsDistinct (ids_of (assign_ids random 0 (m ∷ ms)))
    → (stream_step
        (tick none)
        s
        (publish random topic (m ∷ ms) (after_pull s.subscription b)).0).0.sent
      ≡ s.sent ++ map receive (assign_ids random 0 (m ∷ ms)) ∷ []
unfolding send_pulled assign_ids
tick-publish random topic handed m ms s b h n sub ack fresh distinct =
    let c = (publish random topic (m ∷ ms) (after_pull s.subscription b)).0 in
    ap (λ (t : Stream). t.sent) (stream_step-tick s c h n)
    ∙ ap (λ (r : PullResult). (send_pulled none r s).sent)
        (pull-publish-pull random s.subscription topic handed (m ∷ ms) b sub ack fresh distinct)
