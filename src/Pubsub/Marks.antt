-- ===== src/Pubsub/Marks.antt =====
-- The marks of what was handed out to a subscription: no call takes one back, so no message goes
-- to a subscription twice.
use kiri_gcp.Prelude.{
  ◌≡◌, ◌≢◌, refl, ap, ◌⊎◌, inl, inr, Bool, true, false, Option, none, some, List, [], ◌∷◌, arith,
  Bool-cases, Elem, Elem-append,
}
use kiri_gcp.Text.{Text}
use kiri_gcp.Text.Laws.{text_eq_iff}
use kiri_gcp.GoMap.{GoMap, get, put}
use kiri_gcp.GoMap.Laws.{get-put, get-put_self}
use kiri_gcp.Pubsub.{
  Message, ReceivedMessage, Backend, flag, slice, messages_of, publish, create_topic, delete_topic,
  create_subscription, delete_subscription, receive, Pulling, pull_step, pull_loop, PullResult,
  no_subscription, panics, pulled, finish_pull, pull_nil, pull_from, pull, acknowledge_from,
  acknowledge,
}
use kiri_gcp.Pubsub.Delivery.{pull_loop_marks}
use kiri_gcp.Pubsub.Delivery.Once.{start}
use kiri_gcp.Pubsub.Sound.{
  Call, publishing, creating_topic, deleting_topic, creating_subscription, deleting_subscription,
  pulling, acknowledging, step, run,
}

-- The message id is marked for the subscription.
abbrev pub marked : Text → Text → Backend → Bool
marked s name b = flag (get name (slice (get s b.acked)))

abbrev id_of : ReceivedMessage → Text
id_of r = r.message.message_id

abbrev AllMarked : Pulling → Type 0
AllMarked p = (r : ReceivedMessage) → Elem r p.received → flag (get (id_of r) p.handed) ≡ true

pull_step-AllMarked : (m : Message) (p : Pulling) → AllMarked p → AllMarked (pull_step m p)
unfolding pull_step
pull_step-AllMarked m p h r = elim (Bool-cases (flag (get m.message_id p.handed))) [
  | inl f ↦ rw f (h r)
  | inr f ↦ rw f λ e. elim ((Elem-append r p.received (receive m ∷ [])).0 e) [
    | inl old ↦ ground (arith, get-put m.message_id (id_of r) true p.handed, h r old)
    | inr (inl new) ↦ rw new (ap flag (get-put_self m.message_id true p.handed))
    | inr (inr none_left) ↦ absurd none_left
  ]
]

-- What the loop of Pull hands out is marked when it ends, and was not when it began.
pull_loop-AllMarked : (ms : List Message) (p : Pulling) → AllMarked p → AllMarked (pull_loop ms p)
unfolding pull_loop
pull_loop-AllMarked [] p h = h
pull_loop-AllMarked (m ∷ ms) p h =
    pull_loop-AllMarked ms (pull_step m p) (pull_step-AllMarked m p h)

received_step :
    (r : ReceivedMessage) (m : Message) (p : Pulling)
    → Elem r (pull_step m p).received
    → Elem r p.received ⊎ (flag (get (id_of r) p.handed) ≡ false)
unfolding pull_step
received_step r m p = elim (Bool-cases (flag (get m.message_id p.handed))) [
  | inl f ↦ rw f λ e. inl e
  | inr f ↦ rw f λ e. elim ((Elem-append r p.received (receive m ∷ [])).0 e) [
    | inl old ↦ inl old
    | inr (inl new) ↦ inr (rw new f)
    | inr (inr none_left) ↦ absurd none_left
  ]
]

received_loop :
    (r : ReceivedMessage) (ms : List Message) (p : Pulling)
    → Elem r (pull_loop ms p).received
    → Elem r p.received ⊎ (flag (get (id_of r) p.handed) ≡ false)
unfolding pull_loop
received_loop r [] p e = inl e
received_loop r (m ∷ ms) p e = elim (received_loop r ms (pull_step m p) e) [
  | inl old ↦ received_step r m p old
  | inr fresh ↦ inr (unmarked fresh)
]
  where
    unmarked :
        flag (get (id_of r) (pull_step m p).handed) ≡ false → flag (get (id_of r) p.handed) ≡ false
    unmarked f = unfold pull_step in ground (arith, get-put m.message_id (id_of r) true p.handed)

-- The messages of a pull that returns some.
abbrev pub handed_out : PullResult → List ReceivedMessage
handed_out no_subscription = []
handed_out panics = []
handed_out (pulled rs) = rs

pull_nil_empty :
    (s t : Text) (ms : List Message) (b : Backend) (r : ReceivedMessage)
    → Elem r (handed_out (pull_nil s t ms b).1)
    → ⊥
unfolding pull_nil
pull_nil_empty s t [] b r m = m
pull_nil_empty s t (x ∷ ms) b r m = m

-- What a pull hands out was not marked for the subscription before, and is marked after it.
pull_from_marks :
    (s : Text) (topic : Option Text) (handed : Option (GoMap Bool)) (b : Backend)
    (r : ReceivedMessage)
    → get s b.acked ≡ handed
    → Elem r (handed_out (pull_from s topic handed b).1)
    → (marked s (id_of r) b ≡ false) × (marked s (id_of r) (pull_from s topic handed b).0 ≡ true)
unfolding pull_from finish_pull
pull_from_marks s none handed b r a m = absurd m
pull_from_marks s (some t) none b r a m = absurd (pull_nil_empty s t (messages_of t b) b r m)
pull_from_marks s (some t) (some handed) b r a m =
    let p = pull_loop (messages_of t b) (start handed) in
    (
      elim (received_loop r (messages_of t b) (start handed) m) [
        | inl before ↦ absurd before
        | inr fresh ↦ rw a fresh
      ],
      rw (get-put_self s p.handed b.acked)
          (pull_loop-AllMarked (messages_of t b) (start handed) (λ x e. absurd e) r m),
    )

pull_marks :
    (s : Text) (b : Backend) (r : ReceivedMessage)
    → Elem r (handed_out (pull s b).1)
    → (marked s (id_of r) b ≡ false) × (marked s (id_of r) (pull s b).0 ≡ true)
unfolding pull
pull_marks s b r m = pull_from_marks s (get s b.subscriptions) (get s b.acked) b r refl m

-- A write of the marks of one subscription that takes none of them back.
put_acked_keeps :
    (s k other : Text) (handed : GoMap Bool) (b : Backend)
    → (marked other k b ≡ true → flag (get k handed) ≡ true)
    → marked s k b ≡ true
    → marked s k (record b { acked = put other handed b.acked }) ≡ true
put_acked_keeps s k other handed b h e =
    ground (arith, get-put other s handed b.acked, text_eq_iff other s, h)

pull_from_keeps :
    (s k other : Text) (topic : Option Text) (handed : Option (GoMap Bool)) (b : Backend)
    → get other b.acked ≡ handed
    → marked s k b ≡ true
    → marked s k (pull_from other topic handed b).0 ≡ true
unfolding pull_from finish_pull
pull_from_keeps s k other none handed b a h = h
pull_from_keeps s k other (some t) none b a h = nil_keeps (messages_of t b)
  where
    nil_keeps : (ms : List Message) → marked s k (pull_nil other t ms b).0 ≡ true
    nil_keeps [] = unfold pull_nil in h
    nil_keeps (x ∷ ms) = unfold pull_nil in h
pull_from_keeps s k other (some t) (some handed) b a h =
    put_acked_keeps s k other _ b
      (λ e. pull_loop_marks k (messages_of t b) (start handed) (rw a at e)) h

acknowledge_from_keeps :
    (s k : Text) (o : Option Text) (acks : List Text) (b : Backend)
    → marked s k b ≡ true
    → marked s k (acknowledge_from o acks b).0 ≡ true
unfolding acknowledge_from
acknowledge_from_keeps s k none acks b h = h
acknowledge_from_keeps s k (some t) acks b h = h

step_keeps :
    (c : Call) (s k : Text) (b : Backend) → marked s k b ≡ true → marked s k (step c b) ≡ true
unfolding step publish create_topic delete_topic create_subscription delete_subscription pull
    acknowledge
step_keeps (publishing random topic ms) s k b h = h
step_keeps (creating_topic name) s k b h = h
step_keeps (deleting_topic name) s k b h = ground arith
step_keeps (creating_subscription name topic) s k b h =
    ground (arith, get-put name s [] b.acked, text_eq_iff name s)
step_keeps (deleting_subscription name) s k b h = ground arith
step_keeps (pulling other) s k b h =
    pull_from_keeps s k other (get other b.subscriptions) (get other b.acked) b refl h
step_keeps (acknowledging other acks) s k b h =
    acknowledge_from_keeps s k (get other b.subscriptions) acks b h

run_keeps_marks :
    (cs : List Call) (s k : Text) (b : Backend) → marked s k b ≡ true → marked s k (run cs b) ≡ true
unfolding run
run_keeps_marks [] s k b h = h
run_keeps_marks (c ∷ cs) s k b h = run_keeps_marks cs s k (step c b) (step_keeps c s k b h)

-- No message goes to a subscription twice: whatever calls come between two pulls of it (also other
-- pulls, and calls that delete the subscription and create it again), no message that the later pull
-- hands out has the id of one that the earlier pull handed out.
pub pull-run_once :
    (s : Text) (b : Backend) (cs : List Call) (earlier later : ReceivedMessage)
    → Elem earlier (handed_out (pull s b).1)
    → Elem later (handed_out (pull s (run cs (pull s b).0)).1)
    → earlier.message.message_id ≢ later.message.message_id
pull-run_once s b cs earlier later m n same =
    let (_, given) = pull_marks s b earlier m in
    let (fresh, _) = pull_marks s (run cs (pull s b).0) later n in
    let kept = run_keeps_marks cs s (id_of earlier) (pull s b).0 given in cc (fresh, kept, same)
