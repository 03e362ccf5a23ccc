-- ===== src/Pubsub/Drain.antt =====
-- What an acknowledgement removes.
use kiri_gcp.Prelude.{
  ℕ, ◌+◌, ◌-◌, ◌<◌, ◌≡◌, refl, sym, ap, ◌∙◌, ◌↔◌, inl, inr, Bool, true, false, not, some, List, [],
  ◌∷◌, ◌++◌, map, arith, Bool-cases, All, Elem, Elem-keep, length, length-append,
  take-length_append, drop-length_append, ltb,
}
use kiri_gcp.Text.{Text, str, text_eq}
use kiri_gcp.Text.Laws.{text_eq_iff, text_eq_refl}
use kiri_gcp.GoMap.{get}
use kiri_gcp.GoMap.Laws.{get-put_self}
use kiri_gcp.Pubsub.{
  Message, Backend, messages_of, ids_of, receive, strip_ack, in_ack_set, acknowledge_from,
  acknowledge,
}

abbrev IsNonempty : Message → Type 0
IsNonempty m = 0 < length m.message_id

length-ack : length (str "-ack") ≡ 4
unfolding str
length-ack = refl

-- The ack id of a message names that message.
strip_ack-append : (name : Text) → 0 < length name → strip_ack (name ++ str "-ack") ≡ name
unfolding strip_ack
strip_ack-append name h =
    rw (long, cut)
      (rw (drop-length_append name (str "-ack"), text_eq_refl)
        (take-length_append name (str "-ack")))
  where
    total : length (name ++ str "-ack") ≡ length name + 4
    total = length-append name (str "-ack") ∙ ap (λ (n : ℕ). length name + n) length-ack

    long : ltb 4 (length (name ++ str "-ack")) ≡ true
    long = ground (arith, total)

    cut : length (name ++ str "-ack") - 4 ≡ length name
    cut = omega (arith, total)

abbrev pub ack_ids : List Message → List Text
ack_ids ms = map (λ m. (receive m).ack_id) ms

in_ack_set-ack_ids :
    (name : Text) (ms : List Message)
    → All IsNonempty ms
    → (in_ack_set (ack_ids ms) name ≡ true) ↔ Elem name (ids_of ms)
unfolding in_ack_set
in_ack_set-ack_ids name [] h = (λ e. cc, λ e. absurd e)
in_ack_set-ack_ids name (m ∷ ms) h =
    let ih = in_ack_set-ack_ids name ms h.1 in
    rw (strip_ack-append m.message_id h.0) (elim (Bool-cases (text_eq m.message_id name)) [
      | inl e ↦ rw e (λ _. inl (sym ((text_eq_iff m.message_id name).0 e)), λ _. refl)
      | inr e ↦ rw e (
        λ t. inr (ih.0 t),
        λ t. elim t [
          | inl same ↦ cc (e, (text_eq_iff m.message_id name).1 (sym same))
          | inr later ↦ ih.1 later
        ],
      )
    ])

not-true : (b : Bool) → ¬ (b ≡ true) → not b ≡ true
not-true true h = absurd (h refl)
not-true false h = refl

-- Where the subscription is there and the messages have ids that are not empty, to acknowledge them
-- by the ack ids that a pull gives them removes from the topic exactly the messages with their ids:
-- what stays are the other messages of the topic.
pub acknowledge-receive :
    (subscription topic : Text) (given : List Message) (m : Message) (b : Backend)
    → get subscription b.subscriptions ≡ some topic
    → All IsNonempty given
    → Elem m (messages_of topic (acknowledge subscription (ack_ids given) b).0)
      ↔ (Elem m (messages_of topic b) × (¬ Elem m.message_id (ids_of given)))
unfolding acknowledge acknowledge_from
acknowledge-receive subscription topic given m b sub h =
    let set = in_ack_set-ack_ids m.message_id given h in
    let kept =
      Elem-keep (λ x. not (in_ack_set (ack_ids given) x.message_id)) m (messages_of topic b) in
    rw (sub, get-put_self)
      (
        λ e. let k = kept.0 e in (k.0, λ t. cc (k.1, set.1 t)),
        λ e. kept.1 (e.0, not-true _ (λ t. e.1 (set.0 t))),
      )
