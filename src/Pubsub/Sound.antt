-- ===== src/Pubsub/Sound.antt =====
-- Runs of calls of the store, and what every state of a run satisfies.
use kiri_gcp.Prelude.{
  ℕ, ◌≡◌, ◌≢◌, inl, inr, Bool, true, Option, none, some, List, [], ◌∷◌, arith, Bool-cases, is_some,
}
use kiri_gcp.Text.{Text}
use kiri_gcp.Text.Laws.{text_eq_iff}
use kiri_gcp.GoMap.{GoMap, get, put, IsUnique}
use kiri_gcp.GoMap.Laws.{get-put, get-delete, put-IsUnique, delete-IsUnique}
use kiri_gcp.Pubsub.{
  Message, Backend, flag, messages_of, new_backend, publish, create_topic, delete_topic,
  create_subscription, delete_subscription, panics, finish_pull, pull_nil, pull_from, pull,
  acknowledge_from, acknowledge,
}

-- A call that may change the store.
pub data Call : Type 0 where
  publishing : (random : ℕ → List ℕ) (topic : Text) (ms : List Message) → Call
  creating_topic : (name : Text) → Call
  deleting_topic : (name : Text) → Call
  creating_subscription : (name topic : Text) → Call
  deleting_subscription : (name : Text) → Call
  pulling : (subscription : Text) → Call
  acknowledging : (subscription : Text) (acks : List Text) → Call

unfoldable pub step : Call → Backend → Backend
step (publishing random topic ms) b = (publish random topic ms b).0
step (creating_topic name) b = create_topic name b
step (deleting_topic name) b = (delete_topic name b).0
step (creating_subscription name topic) b = create_subscription name topic b
step (deleting_subscription name) b = (delete_subscription name b).0
step (pulling subscription) b = (pull subscription b).0
step (acknowledging subscription acks) b = (acknowledge subscription acks b).0

unfoldable pub run : List Call → Backend → Backend
run [] b = b
run (c ∷ cs) b = run cs (step c b)

pub record IsSound (b : Backend) : Type 0 where
  pub unique_topics : IsUnique b.topics
  pub unique_subscriptions : IsUnique b.subscriptions
  -- A subscription has a map of handed-out ids, and a topic a list of messages.
  pub has_acked :
      (s : Text) → is_some (get s b.subscriptions) ≡ true → is_some (get s b.acked) ≡ true
  pub has_messages :
      (t : Text) → is_some (get t b.topics) ≡ true → is_some (get t b.messages) ≡ true

-- A write of messages or of handed-out ids keeps the store sound.
put_messages-IsSound :
    (t : Text) (ms : List Message) (b : Backend)
    → IsSound b
    → IsSound (record b { messages = put t ms b.messages })
put_messages-IsSound t ms b h = record {
  unique_topics = h.unique_topics;
  unique_subscriptions = h.unique_subscriptions;
  has_acked = h.has_acked;
  has_messages = λ k e. ground (arith, get-put t k ms b.messages, h.has_messages k e);
}

put_acked-IsSound :
    (s : Text) (handed : GoMap Bool) (b : Backend)
    → IsSound b
    → IsSound (record b { acked = put s handed b.acked })
put_acked-IsSound s handed b h = record {
  unique_topics = h.unique_topics;
  unique_subscriptions = h.unique_subscriptions;
  has_acked = λ k e. ground (arith, get-put s k handed b.acked, h.has_acked k e);
  has_messages = h.has_messages;
}

create_topic-IsSound : (name : Text) (b : Backend) → IsSound b → IsSound (create_topic name b)
unfolding create_topic
create_topic-IsSound name b h = record {
  unique_topics = put-IsUnique name true b.topics h.unique_topics;
  unique_subscriptions = h.unique_subscriptions;
  has_acked = h.has_acked;
  has_messages = λ k e. ground (
    arith,
    get-put name k true b.topics,
    get-put name k [] b.messages,
    text_eq_iff name k,
    h.has_messages k,
  );
}

delete_topic-IsSound : (name : Text) (b : Backend) → IsSound b → IsSound (delete_topic name b).0
unfolding delete_topic
delete_topic-IsSound name b h = elim (Bool-cases (flag (get name b.topics))) [
  | inl t ↦ rw t (record {
    unique_topics = delete-IsUnique name b.topics h.unique_topics;
    unique_subscriptions = h.unique_subscriptions;
    has_acked = h.has_acked;
    has_messages = λ k e.
        ground (arith, get-delete name k b.topics, get-delete name k b.messages, h.has_messages k);
  })
  | inr f ↦ rw f h
]

create_subscription-IsSound :
    (name topic : Text) (b : Backend) → IsSound b → IsSound (create_subscription name topic b)
unfolding create_subscription
create_subscription-IsSound name topic b h = record {
  unique_topics = h.unique_topics;
  unique_subscriptions = put-IsUnique name topic b.subscriptions h.unique_subscriptions;
  has_acked = λ k e. ground (
    arith,
    get-put name k topic b.subscriptions,
    get-put name k [] b.acked,
    text_eq_iff name k,
    h.has_acked k,
  );
  has_messages = h.has_messages;
}

delete_subscription-IsSound :
    (name : Text) (b : Backend) → IsSound b → IsSound (delete_subscription name b).0
unfolding delete_subscription
delete_subscription-IsSound name b h = elim (Bool-cases (is_some (get name b.subscriptions))) [
  | inl t ↦ rw t (record {
    unique_topics = h.unique_topics;
    unique_subscriptions = delete-IsUnique name b.subscriptions h.unique_subscriptions;
    has_acked = λ k e. ground (arith, get-delete name k b.subscriptions, h.has_acked k);
    has_messages = h.has_messages;
  })
  | inr f ↦ rw f h
]

pull_nil-IsSound :
    (s t : Text) (ms : List Message) (b : Backend) → IsSound b → IsSound (pull_nil s t ms b).0
unfolding pull_nil
pull_nil-IsSound s t [] b h = put_messages-IsSound t [] b h
pull_nil-IsSound s t (m ∷ ms) b h = h

pull_from-IsSound :
    (s : Text) (o : Option Text) (handed : Option (GoMap Bool)) (b : Backend)
    → IsSound b
    → IsSound (pull_from s o handed b).0
unfolding pull_from finish_pull
pull_from-IsSound s none handed b h = h
pull_from-IsSound s (some t) none b h = pull_nil-IsSound s t (messages_of t b) b h
pull_from-IsSound s (some t) (some handed) b h =
    put_acked-IsSound s _ _ (put_messages-IsSound t _ b h)

acknowledge_from-IsSound :
    (o : Option Text) (acks : List Text) (b : Backend)
    → IsSound b
    → IsSound (acknowledge_from o acks b).0
unfolding acknowledge_from
acknowledge_from-IsSound none acks b h = h
acknowledge_from-IsSound (some t) acks b h = put_messages-IsSound t _ b h

pub step-IsSound : (c : Call) (b : Backend) → IsSound b → IsSound (step c b)
unfolding step publish pull acknowledge
step-IsSound (publishing random topic ms) b h = put_messages-IsSound topic _ b h
step-IsSound (creating_topic name) b h = create_topic-IsSound name b h
step-IsSound (deleting_topic name) b h = delete_topic-IsSound name b h
step-IsSound (creating_subscription name topic) b h = create_subscription-IsSound name topic b h
step-IsSound (deleting_subscription name) b h = delete_subscription-IsSound name b h
step-IsSound (pulling s) b h = pull_from-IsSound s _ _ b h
step-IsSound (acknowledging s acks) b h = acknowledge_from-IsSound _ acks b h

pub run_keeps : (cs : List Call) (b : Backend) → IsSound b → IsSound (run cs b)
unfolding run
run_keeps [] b h = h
run_keeps (c ∷ cs) b h = run_keeps cs (step c b) (step-IsSound c b h)

-- From an empty store, whatever the calls, each topic and each subscription is there once, every
-- subscription has its map of handed-out ids, and every topic its list of messages.
pub run-IsSound : (cs : List Call) → IsSound (run cs new_backend)
unfolding new_backend get
run-IsSound cs = run_keeps cs new_backend (record {
  unique_topics = tt;
  unique_subscriptions = tt;
  has_acked = λ s e. cc;
  has_messages = λ t e. cc;
})

pub pull-ne-panics_sound : (s : Text) (b : Backend) → IsSound b → (pull s b).1 ≢ panics
unfolding pull pull_from finish_pull
pull-ne-panics_sound s b h e = ground (arith, h.has_acked s)

-- From an empty store, whatever the calls, a pull never writes into a map that is nil.
pub pull-ne-panics : (cs : List Call) (s : Text) → (pull s (run cs new_backend)).1 ≢ panics
pull-ne-panics cs s = pull-ne-panics_sound s (run cs new_backend) (run-IsSound cs)
