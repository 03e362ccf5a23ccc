-- ===== src/Pubsub/Stream/Interleaving.antt =====
-- A stream beside REST and gRPC requests on the same store, in any order.
use kiri_gcp.Prelude.{ℕ, ◌≢◌, refl, inl, inr, Option, none, some, List, [], ◌∷◌, Bool-cases}
use kiri_gcp.Text.{Text, text_eq}
use kiri_gcp.Json.{Json}
use kiri_gcp.Http.{Request}
use kiri_gcp.Pubsub.{Backend, new_backend, PullResult, no_subscription, panics, pulled, pull}
use kiri_gcp.Pubsub.Sound.{
  pulling, acknowledging, step, run, run-IsSound, IsSound, pull-ne-panics_sound,
}
use kiri_gcp.Pubsub.Rest.Calls.{Endpoint, handler_of}
use kiri_gcp.Pubsub.Rest.Refinement.{AtMostOneCall, AtMostOneCall-IsSound, handler_of-AtMostOneCall}
use kiri_gcp.Pubsub.Rpc.{Rpc, call_rpc, panic, pull_rpc}
use kiri_gcp.Pubsub.Rpc.Requests.{call_rpc-AtMostOneCall, pull_rpc-ne-panic}
use kiri_gcp.Pubsub.Stream.{
  StreamEvent, context_done, receive_failed, requested, tick, Phase, running, returned, crashed,
  Stream, new_stream, send_pulled, subscribe, acknowledge_requested, poll, take_event, stream_from,
  stream_step,
}

-- A REST request, a gRPC request, or an event of the stream.
pub data Action : Type 0 where
  rest : (e : Endpoint) (r : Request) → Action
  rpc : (random : ℕ → List ℕ) (q : Rpc) → Action
  event : (e : StreamEvent) → Action

acknowledge_requested_one :
    (acks : List Text) (s : Stream) (b : Backend) → AtMostOneCall b (acknowledge_requested acks s b)
unfolding acknowledge_requested step
acknowledge_requested_one [] s b = inl refl
acknowledge_requested_one (a ∷ acks) s b = elim (Bool-cases (text_eq s.subscription [])) [
  | inl e ↦ rw e (inl refl)
  | inr e ↦ rw e (inr (acknowledging s.subscription (a ∷ acks), refl))
]

poll_one : (error : Option Text) (s : Stream) (b : Backend) → AtMostOneCall b (poll error s b).1
unfolding poll step
poll_one error s b = elim (Bool-cases (text_eq s.subscription [])) [
  | inl e ↦ rw e (inl refl)
  | inr e ↦ rw e (inr (pulling s.subscription, refl))
]

take_event_one : (e : StreamEvent) (s : Stream) (b : Backend) → AtMostOneCall b (take_event e s b).1
unfolding take_event
take_event_one (context_done error) s b = inl refl
take_event_one receive_failed s b = inl refl
take_event_one (requested subscription acks) s b =
    acknowledge_requested_one acks (subscribe subscription s) b
take_event_one (tick error) s b = poll_one error s b

stream_from_one :
    (p : Phase) (e : StreamEvent) (s : Stream) (b : Backend)
    → AtMostOneCall b (stream_from p e s b).1
unfolding stream_from
stream_from_one running e s b = take_event_one e s b
stream_from_one (returned error) e s b = inl refl
stream_from_one crashed e s b = inl refl

send_pulled-ne-crashed :
    (error : Option Text) (r : PullResult) (s : Stream)
    → r ≢ panics
    → s.phase ≢ crashed
    → (send_pulled error r s).phase ≢ crashed
unfolding send_pulled
send_pulled-ne-crashed error no_subscription s n h = h
send_pulled-ne-crashed error panics s n h = absurd (n refl)
send_pulled-ne-crashed error (pulled []) s n h = h
send_pulled-ne-crashed none (pulled (m ∷ ms)) s n h = h
send_pulled-ne-crashed (some e) (pulled (m ∷ ms)) s n h = λ q. cc

take_event-ne-crashed :
    (e : StreamEvent) (s : Stream) (b : Backend)
    → IsSound b
    → s.phase ≢ crashed
    → (take_event e s b).0.phase ≢ crashed
unfolding take_event poll
take_event-ne-crashed (context_done error) s b k h = λ q. cc
take_event-ne-crashed receive_failed s b k h = λ q. cc
take_event-ne-crashed (requested subscription acks) s b k h =
    elim (Bool-cases (text_eq subscription [])) [ inl e ↦ rw e h | inr e ↦ rw e h ]
take_event-ne-crashed (tick error) s b k h = elim (Bool-cases (text_eq s.subscription [])) [
  | inl e ↦ rw e h
  | inr e ↦ rw e (
      send_pulled-ne-crashed error (pull s.subscription b).1 s
        (pull-ne-panics_sound s.subscription b k) h)
]

stream_from-ne-crashed :
    (p : Phase) (e : StreamEvent) (s : Stream) (b : Backend)
    → IsSound b
    → s.phase ≢ crashed
    → (stream_from p e s b).0.phase ≢ crashed
unfolding stream_from
stream_from-ne-crashed running e s b k h = take_event-ne-crashed e s b k h
stream_from-ne-crashed (returned error) e s b k h = h
stream_from-ne-crashed crashed e s b k h = h

module _ (type_error : Json → Text) where
  pub act : Action → Stream → Backend → Stream × Backend
  act (rest e r) s b = (s, (handler_of type_error e r b).0)
  act (rpc random q) s b = (s, (call_rpc random q b).0)
  act (event e) s b = stream_step e s b

  pub act_all : List Action → Stream → Backend → Stream × Backend
  unfolding act
  act_all [] s b = (s, b)
  act_all (a ∷ actions) s b = act_all actions (act a s b).0 (act a s b).1

  act_keeps :
      (a : Action) (s : Stream) (b : Backend)
      → IsSound b
      → s.phase ≢ crashed
      → IsSound (act a s b).1 × ((act a s b).0.phase ≢ crashed)
  unfolding act stream_step
  act_keeps (rest e r) s b k h =
      (AtMostOneCall-IsSound b _ (handler_of-AtMostOneCall type_error e r b) k, h)
  act_keeps (rpc random q) s b k h =
      (AtMostOneCall-IsSound b _ (call_rpc-AtMostOneCall random q b) k, h)
  act_keeps (event e) s b k h = (
    AtMostOneCall-IsSound b _ (stream_from_one s.phase e s b) k,
    stream_from-ne-crashed s.phase e s b k h,
  )

  act_all_keeps :
      (actions : List Action) (s : Stream) (b : Backend)
      → IsSound b
      → s.phase ≢ crashed
      → IsSound (act_all actions s b).1 × ((act_all actions s b).0.phase ≢ crashed)
  unfolding act_all
  act_all_keeps [] s b k h = (k, h)
  act_all_keeps (a ∷ actions) s b k h =
      let (sound, calm) = act_keeps a s b k h in
      act_all_keeps actions (act a s b).0 (act a s b).1 sound calm

  empty-IsSound : IsSound new_backend
  unfolding run
  empty-IsSound = run-IsSound []

  begun : new_stream.phase ≢ crashed
  unfolding new_stream
  begun q = cc

  -- A new stream and an empty store, with REST requests, gRPC requests and events of the stream in
  -- any order: the store holds what Pubsub.Sound.IsSound says, the stream never panics, and a gRPC pull at the end does not
  -- panic either.
  pub act_all_calm :
      (actions : List Action) (random : ℕ → List ℕ) (subscription : Text)
      → IsSound (act_all actions new_stream new_backend).1
        × ((act_all actions new_stream new_backend).0.phase ≢ crashed)
        × ((call_rpc random (pull_rpc subscription) (act_all actions new_stream new_backend).1).1
            ≢ panic)
  act_all_calm actions random subscription =
      let (sound, calm) = act_all_keeps actions new_stream new_backend empty-IsSound begun in
      (sound, calm, pull_rpc-ne-panic random subscription _ sound)
