-- ===== src/Pubsub/Delivery/Once.antt =====
-- A subscription gets each message once.
use kiri_gcp.Prelude.{
  ℕ, ◌≡◌, refl, ap, ◌∙◌, ◌⊎◌, inl, inr, Bool, true, false, some, List, [], ◌∷◌, ◌++◌, map, arith,
  Bool-cases, All, append-nil, append_assoc, Elem, All-of_Elem, All-Elem, Elem-append,
}
use kiri_gcp.Text.{Text, text_eq}
use kiri_gcp.Text.Laws.{text_eq_iff}
use kiri_gcp.GoMap.{GoMap, get, put}
use kiri_gcp.GoMap.Laws.{get-put, get-put_self}
use kiri_gcp.Sort.Laws.{IsDistinct}
use kiri_gcp.Pubsub.{
  Message, Backend, flag, slice, messages_of, ids_of, assign_ids, publish, receive, Pulling,
  pull_step, pull_loop, PullResult, pulled, messages_from_received, finish_pull, pull_from, pull,
}
use kiri_gcp.Pubsub.Delivery.{
  IsHanded, held, map-snoc, pull_loop-append, pull_loop_handed, pull_loop-IsHanded,
}

Elem-held_step :
    (x m : Message) (p : Pulling) → Elem x (held (pull_step m p)) → Elem x (held p) ⊎ (x ≡ m)
unfolding pull_step
Elem-held_step x m p = elim (Bool-cases (flag (get m.message_id p.handed))) [
  | inl e ↦ rw e λ h. elim ((Elem-append x (p.remaining ++ m ∷ []) given).0 h) [
    | inl r ↦ elim ((Elem-append x p.remaining (m ∷ [])).0 r) [
      | inl q ↦ inl ((Elem-append x p.remaining given).1 (inl q))
      | inr (inl q) ↦ inr q
      | inr (inr q) ↦ absurd q
    ]
    | inr r ↦ inl ((Elem-append x p.remaining given).1 (inr r))
  ]
  | inr e ↦
      rw (e, map-snoc)
        λ h. elim ((Elem-append x p.remaining (given ++ m ∷ [])).0 h) [
          | inl r ↦ inl ((Elem-append x p.remaining given).1 (inl r))
          | inr r ↦ elim ((Elem-append x given (m ∷ [])).0 r) [
            | inl q ↦ inl ((Elem-append x p.remaining given).1 (inr q))
            | inr (inl q) ↦ inr q
            | inr (inr q) ↦ absurd q
          ]
        ]
]
  where
    given : List Message
    given = messages_from_received p.received

Elem-held_loop :
    (x : Message) (ms : List Message) (p : Pulling)
    → Elem x (held (pull_loop ms p))
    → Elem x (held p) ⊎ Elem x ms
unfolding pull_loop
Elem-held_loop x [] p h = inl h
Elem-held_loop x (m ∷ ms) p h = elim (Elem-held_loop x ms (pull_step m p) h) [
  | inl e ↦ elim (Elem-held_step x m p e) [ inl q ↦ inl q | inr q ↦ inr (inl q) ]
  | inr e ↦ inr (inr e)
]

-- The variables of the loop of Pull before it.
abbrev pub start : GoMap Bool → Pulling
start handed = record { received = []; remaining = []; handed = handed }

-- All that is left in the store after a pull is marked as handed out.
held-IsHanded :
    (ms : List Message) (handed : GoMap Bool)
    → All (IsHanded (pull_loop ms (start handed)).handed) (held (pull_loop ms (start handed)))
held-IsHanded ms handed =
    let p = pull_loop ms (start handed) in
    All-of_Elem (IsHanded p.handed) (held p) λ x e. elim (Elem-held_loop x ms (start handed) e) [
      | inl none_yet ↦ absurd (nothing x none_yet)
      | inr there ↦ All-Elem (IsHanded p.handed) ms (pull_loop-IsHanded ms (start handed)) x there
    ]
  where
    nothing : (x : Message) → Elem x (held (start handed)) → ⊥
    nothing x e = unfold messages_from_received in e

abbrev pub IsUnhanded : GoMap Bool → Message → Type 0
IsUnhanded handed m = flag (get m.message_id handed) ≡ false

still-IsUnhanded :
    (m : Message) (ms : List Message) (handed : GoMap Bool)
    → ¬ Elem m.message_id (ids_of ms)
    → All (IsUnhanded handed) ms
    → All (IsUnhanded (put m.message_id true handed)) ms
still-IsUnhanded m [] handed d h = tt
still-IsUnhanded m (x ∷ ms) handed d h = (
  ground (arith, get-put m.message_id x.message_id true handed, other),
  still-IsUnhanded m ms handed (λ e. d (inr e)) h.1,
)
  where
    other : text_eq m.message_id x.message_id ≡ false
    other = elim (Bool-cases (text_eq m.message_id x.message_id)) [
      | inl e ↦ absurd (d (inl ((text_eq_iff m.message_id x.message_id).0 e)))
      | inr e ↦ e
    ]

-- Messages with new ids are handed out, all of them and in their order.
pull_loop_unhanded :
    (ms : List Message) (p : Pulling)
    → All (IsUnhanded p.handed) ms
    → IsDistinct (ids_of ms)
    → (pull_loop ms p).received ≡ p.received ++ map receive ms
unfolding pull_loop pull_step
pull_loop_unhanded [] p h d = rw append-nil refl
pull_loop_unhanded (m ∷ ms) p h d =
    rw (h.0, pull_loop)
      (pull_loop_unhanded ms
          (record p {
            received = p.received ++ receive m ∷ [];
            handed = put m.message_id true p.handed;
          })
          (still-IsUnhanded m ms p.handed d.0 h.1) d.1
        ∙ append_assoc p.received (receive m ∷ []) (map receive ms))

module _ (subscription topic : Text) where
  finished : Pulling → Backend → Backend
  finished p b = (finish_pull subscription topic p b).0

  pull_subscribed :
      (handed : GoMap Bool) (ms : List Message) (b : Backend)
      → get subscription b.subscriptions ≡ some topic
      → get subscription b.acked ≡ some handed
      → messages_of topic b ≡ ms
      → pull subscription b ≡ finish_pull subscription topic (pull_loop ms (start handed)) b
  unfolding pull pull_from
  pull_subscribed handed ms b sub ack here = rw (sub, ack, here) refl

  -- The next pull begins where the last one ended: it passes over what the store held, and goes on
  -- with what was added.
  pull-finished :
      (p : Pulling) (b c : Backend) (new : List Message)
      → All (IsHanded p.handed) (held p)
      → get subscription b.subscriptions ≡ some topic
      → c ≡ record (finished p b) { messages = put topic (held p ++ new) (finished p b).messages }
      → (pull subscription c).1
        ≡ pulled (pull_loop new (record (start p.handed) { remaining = held p })).received
  unfolding finished finish_pull
  pull-finished p b c new all sub same = rw same (
      ap (λ (r : Backend × PullResult). r.1)
        (pull_subscribed p.handed (held p ++ new) _ sub (get-put_self subscription p.handed b.acked)
          (ap slice (get-put_self topic (held p ++ new) _)))
      ∙ ap (λ (q : Pulling). pulled q.received)
          (pull_loop-append (held p) new (start p.handed)
            ∙ ap (pull_loop new) (pull_loop_handed (held p) (start p.handed) all)))

-- The store after a pull.
abbrev pub after_pull : Text → Backend → Backend
after_pull subscription b = (pull subscription b).0

-- The ids that were handed out to a subscription.
abbrev pub handed_to : Text → Backend → GoMap Bool
handed_to subscription b = slice (get subscription b.acked)

-- A subscription is there and has its map of handed-out ids, and it is pulled. Then messages are
-- published on its topic with ids that differ from one another and were not handed
-- out to the subscription before. Its next pull hands out exactly these messages, each once and in
-- the order of the publish call.
pub pull-publish-pull :
    (random : ℕ → List ℕ) (subscription topic : Text) (handed : GoMap Bool) (ms : List Message)
    (b : Backend)
    → get subscription b.subscriptions ≡ some topic
    → get subscription b.acked ≡ some handed
    → All (IsUnhanded (handed_to subscription (after_pull subscription b))) (assign_ids random 0 ms)
    → IsDistinct (ids_of (assign_ids random 0 ms))
    → (pull subscription (publish random topic ms (after_pull subscription b)).0).1
      ≡ pulled (map receive (assign_ids random 0 ms))
unfolding publish
pull-publish-pull random subscription topic handed ms b sub ack fresh distinct =
    let p = pull_loop (messages_of topic b) (start handed) in
    let stamped = assign_ids random 0 ms in
    let e : after_pull subscription b ≡ finished subscription topic p b =
      unfold finished in
      ap (λ (r : Backend × PullResult). r.0)
        (pull_subscribed subscription topic handed (messages_of topic b) b sub ack refl) in
    let store : messages_of topic (finished subscription topic p b) ≡ held p =
      unfold finished finish_pull in ap slice (get-put_self topic (held p) b.messages) in
    let marks : handed_to subscription (after_pull subscription b) ≡ p.handed =
      ap (handed_to subscription) e
      ∙ (unfold finished finish_pull in ap slice (get-put_self subscription p.handed b.acked)) in
    pull-finished subscription topic p b (publish random topic ms (after_pull subscription b)).0
      stamped (held-IsHanded (messages_of topic b) handed) sub
      (ap
          (λ (d : Backend). record d {
            messages = put topic (messages_of topic d ++ stamped) d.messages;
          })
          e
        ∙ ap
            (λ (l : List Message). record (finished subscription topic p b) {
              messages = put topic (l ++ stamped) (finished subscription topic p b).messages;
            })
            store)
    ∙ ap pulled (
        pull_loop_unhanded stamped (record (start p.handed) { remaining = held p })
          (rw marks at fresh) distinct)
