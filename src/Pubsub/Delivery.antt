-- ===== src/Pubsub/Delivery.antt =====
-- What a pull hands out, and that it loses nothing.
pub mod Once
use mathlib.Core.List.Perm
use mathlib.Core.List.{Perm, perm_append_comm}
use kiri_gcp.Prelude.{
  ℕ, ◌≡◌, refl, sym, ap, ◌∙◌, inl, inr, Bool, true, false, ◌||◌, Option, none, some, List, [], ◌∷◌,
  ◌++◌, map, arith, if◌then◌else◌, Bool-cases, Option-cases, All, append-nil, append_assoc, Elem,
  All-of_Elem, Elem-append,
}
use kiri_gcp.Text.{Text, text_eq}
use kiri_gcp.Text.Laws.{text_eq_iff, text_eq_refl}
use kiri_gcp.GoMap.{GoMap, get, put}
use kiri_gcp.GoMap.Laws.{get-put}
use kiri_gcp.Pubsub.{
  Message, ReceivedMessage, Backend, flag, slice, messages_of, ids_of, assign_ids, publish, receive,
  Pulling, pull_step, pull_loop, PullResult, pulled, messages_from_received, finish_pull, pull_nil,
  pull_from, pull,
}

abbrev pub IsHanded : GoMap Bool → Message → Type 0
IsHanded handed m = flag (get m.message_id handed) ≡ true

pub pull_loop-append :
    (xs ys : List Message) (p : Pulling) → pull_loop (xs ++ ys) p ≡ pull_loop ys (pull_loop xs p)
unfolding pull_loop
pull_loop-append [] ys p = refl
pull_loop-append (x ∷ xs) ys p = pull_loop-append xs ys (pull_step x p)

abbrev pub held : Pulling → List Message
held p = p.remaining ++ messages_from_received p.received

pub map-snoc :
    (rs : List ReceivedMessage) (m : Message)
    → messages_from_received (rs ++ receive m ∷ []) ≡ messages_from_received rs ++ m ∷ []
unfolding messages_from_received
map-snoc [] m = refl
map-snoc (r ∷ rs) m = ap (λ t. r.message ∷ t) (map-snoc rs m)

pull_step-perm : (m : Message) (p : Pulling) → Perm (held (pull_step m p)) (held p ++ m ∷ [])
unfolding pull_step
pull_step-perm m p = elim (Bool-cases (flag (get m.message_id p.handed))) [
  | inl e ↦ rw e (
      let given = messages_from_received p.received in
      rw (append_assoc p.remaining (m ∷ []) given, append_assoc p.remaining given (m ∷ []))
        (Perm.append_left p.remaining (perm_append_comm (m ∷ []) given)))
  | inr e ↦ rw (e, map-snoc, append_assoc) (Perm.refl _)
]

pull_loop-perm : (ms : List Message) (p : Pulling) → Perm (held (pull_loop ms p)) (held p ++ ms)
unfolding pull_loop
pull_loop-perm [] p = rw append-nil (Perm.refl (held p))
pull_loop-perm (m ∷ ms) p =
    Perm.trans (pull_loop-perm ms (pull_step m p))
      (Perm.trans (Perm.append_right ms (pull_step-perm m p)) (rw append_assoc (Perm.refl _)))

pub messages_of-put :
    (t topic : Text) (ms : List Message) (b : Backend)
    → slice (get topic (put t ms b.messages))
      ≡ (if text_eq t topic then ms else messages_of topic b)
messages_of-put t topic ms b = ground (arith, get-put t topic ms b.messages)

put-perm :
    (t topic : Text) (ms : List Message) (b : Backend)
    → Perm ms (messages_of t b)
    → Perm (slice (get topic (put t ms b.messages))) (messages_of topic b)
put-perm t topic ms b same = elim (Bool-cases (text_eq t topic)) [
  | inl e ↦ rw (messages_of-put t topic ms b, e) (rw ((text_eq_iff t topic).0 e) at same)
  | inr e ↦ rw (messages_of-put t topic ms b, e) (Perm.refl _)
]

pull_nil-perm :
    (subscription t topic : Text) (ms : List Message) (b : Backend)
    → messages_of t b ≡ ms
    → Perm (messages_of topic (pull_nil subscription t ms b).0) (messages_of topic b)
unfolding pull_nil
pull_nil-perm subscription t topic [] b h = put-perm t topic [] b (rw h (Perm.refl []))
pull_nil-perm subscription t topic (m ∷ ms) b h = Perm.refl _

pull_from-perm :
    (subscription topic : Text) (o : Option Text) (handed : Option (GoMap Bool)) (b : Backend)
    → Perm (messages_of topic (pull_from subscription o handed b).0) (messages_of topic b)
unfolding pull_from
pull_from-perm subscription topic none handed b = Perm.refl _
pull_from-perm subscription topic (some t) none b =
    pull_nil-perm subscription t topic (messages_of t b) b refl
pull_from-perm subscription topic (some t) (some handed) b =
    put-perm t topic _ b
      (pull_loop-perm (messages_of t b) (record { received = []; remaining = []; handed = handed }))

-- No pull loses, adds or changes a message: of every topic, the store holds the same messages after
-- a pull as before it, each as often, whatever the pull returns.
pub pull-perm :
    (subscription topic : Text) (b : Backend)
    → Perm (messages_of topic (pull subscription b).0) (messages_of topic b)
unfolding pull
pull-perm subscription topic b =
    pull_from-perm subscription topic (get subscription b.subscriptions) (get subscription b.acked)
      b

-- Messages that were handed out are passed over.
pub pull_loop_handed :
    (ms : List Message) (p : Pulling)
    → All (IsHanded p.handed) ms
    → pull_loop ms p ≡ record p { remaining = p.remaining ++ ms }
unfolding pull_loop pull_step
pull_loop_handed [] p h = rw append-nil refl
pull_loop_handed (m ∷ ms) p h = rw h.0 (
    pull_loop_handed ms (record p { remaining = p.remaining ++ m ∷ [] }) h.1 ∙ rw append_assoc refl)

-- After the loop every message that it went through is marked, and no mark is taken back.
pub pull_loop_marks :
    (k : Text) (ms : List Message) (p : Pulling)
    → flag (get k p.handed) ≡ true
    → flag (get k (pull_loop ms p).handed) ≡ true
unfolding pull_loop pull_step
pull_loop_marks k [] p h = h
pull_loop_marks k (m ∷ ms) p h =
    pull_loop_marks k ms (pull_step m p) (ground (arith, get-put m.message_id k true p.handed))

pull_step-IsHanded : (m : Message) (p : Pulling) → IsHanded (pull_step m p).handed m
unfolding pull_step
pull_step-IsHanded m p =
    ground (arith, get-put m.message_id m.message_id true p.handed, text_eq_refl m.message_id)

pub pull_loop-IsHanded :
    (ms : List Message) (p : Pulling) → All (IsHanded (pull_loop ms p).handed) ms
unfolding pull_loop
pull_loop-IsHanded [] p = tt
pull_loop-IsHanded (m ∷ ms) p = (
  pull_loop_marks m.message_id ms (pull_step m p) (pull_step-IsHanded m p),
  pull_loop-IsHanded ms (pull_step m p),
)
