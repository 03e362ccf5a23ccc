-- ===== src/Tests/Streams.antt =====
-- The theorems on the gRPC services (internal/grpcsvc/pubsub/pubsub.go) at concrete inputs.
use kiri_gcp.Prelude.{◌≡◌, refl, ◌≢◌, none, List, [], ◌∷◌, map, arith}
use kiri_gcp.Text.{str, text_eq}
use kiri_gcp.GoMap.{get, put}
use kiri_gcp.Http.{blank, id, hex_encode}
use kiri_gcp.Pubsub.{assign_ids, publish, receive, pull, new_backend}
use kiri_gcp.Pubsub.Delivery.Once.{after_pull}
use kiri_gcp.Pubsub.Sound.{IsSound}
use kiri_gcp.Pubsub.Rest.Calls.{post_sub_at}
use kiri_gcp.Pubsub.Rpc.{
  publish_rpc, create_topic_rpc, create_subscription_rpc, pull_rpc, panic, call_rpc,
}
use kiri_gcp.Pubsub.Stream.{requested, tick, running, crashed, Stream, new_stream, stream_step}
use kiri_gcp.Pubsub.Stream.Interleaving.{Action, rest, rpc, event, act_all, act_all_calm}
use kiri_gcp.Pubsub.Stream.Deliveries.{tick-publish}
use kiri_gcp.Tests.Samples.{
  counting, orders, billing, store, request, text_message, two_messages, no_type_error,
}

abbrev actions : List Action
actions =
    rpc counting (create_topic_rpc orders)
    ∷ rpc counting (create_subscription_rpc billing orders)
    ∷ event (requested billing [])
    ∷ rpc counting (publish_rpc orders two_messages)
    ∷ event (tick none)
    ∷ rest post_sub_at (request (str "billing:pull") blank)
    ∷ []

act_all_calm_example :
    IsSound (act_all no_type_error actions new_stream new_backend).1
    × ((act_all no_type_error actions new_stream new_backend).0.phase ≢ crashed)
    × ((call_rpc counting
          (pull_rpc billing)
          (act_all no_type_error actions new_stream new_backend).1).1
        ≢ panic)
act_all_calm_example = act_all_calm no_type_error actions counting billing

abbrev stream : Stream
stream = record { phase = running; subscription = billing; sent = [] }

tick-publish_example :
    (stream_step
      (tick none)
      stream
      (publish counting orders two_messages (after_pull billing store)).0).0.sent
    ≡ map receive (assign_ids counting 0 two_messages) ∷ []
unfolding get put text_eq str assign_ids id hex_encode pull
tick-publish_example =
    tick-publish counting orders [] (text_message (str "first")) (text_message (str "second") ∷ [])
      stream store refl (λ e. cc) refl refl (refl, (refl, tt))
      ((λ e. ground arith), ((λ e. absurd e), tt))
