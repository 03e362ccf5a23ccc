-- ===== src/Service/Order.antt =====
-- All() lists each registered service once, in an order that the map's own order does not change.
use kiri_gcp.Prelude.{
  ◌≡◌, ◌<◌, ◌⊎◌, ◌==◌, true, List, sym, ◌∙◌, ap, ◌↔◌, inl, inr, false, none, some, [], ◌∷◌, arith,
  Bool-cases, All, Elem, All-of_Elem,
}
use kiri_gcp.Text.{Text, text_eq, text_lt}
use kiri_gcp.Text.Laws.{text_lt_irrefl, text_lt_trans, text_lt_connected, text_eq_iff, text_eq_refl}
use kiri_gcp.GoMap.{GoMap, get, IsUnique}
use kiri_gcp.GoMap.Laws.{get-put, put-IsUnique}
use kiri_gcp.Sort.{IsSorted, IsStrictOrder}
use kiri_gcp.Sort.Laws.{IsDistinct, Elem-sort_slice, sort_slice-IsSorted, sort_slice_unique}
use kiri_gcp.Service.{Service}
use kiri_gcp.Service.Registry.{Registry, register, rank, before, values, all}

module _ {H : Type 0} where
  -- Each service is there once, under its own name.
  pub record IsKeyed (r : Registry H) : Type 0 where
    pub unique : IsUnique r.services
    pub named : (n : Text) (svc : Service H) → get n r.services ≡ some svc → svc.name ≡ n

  abbrev pub IsRegistered : Registry H → Service H → Type 0
  IsRegistered r svc = get svc.name r.services ≡ some svc

  pub register-IsKeyed : (svc : Service H) (r : Registry H) → IsKeyed r → IsKeyed (register svc r)
  unfolding register
  register-IsKeyed svc r k = record {
    unique = put-IsUnique svc.name svc r.services k.unique;
    named = λ n s e.
        ground (arith, get-put svc.name n svc r.services, text_eq_iff svc.name n, k.named n s);
  }

  before-IsStrictOrder : (r : Registry H) → IsStrictOrder before (IsRegistered r)
  unfolding before
  before-IsStrictOrder r = record {
    irrefl = λ a. ground (arith, text_lt_irrefl a.name);
    trans = λ a b c p q. ground (arith, text_lt_trans a.name b.name c.name);
    connected = λ a b p q f g. cc (p, q, same_name a b f g);
  }
    where
      same_name : (a b : Service H) → before a b ≡ false → before b a ≡ false → a.name ≡ b.name
      same_name a b f g = ground (arith, text_lt_connected a.name b.name)

Elem-values :
    {V : Type 0} (m : GoMap V) (v : V)
    → IsUnique m
    → Elem v (values m)
    → (n : Text) × (get n m ≡ some v)
unfolding values get
Elem-values [] v u e = absurd e
Elem-values ((k, w) ∷ m) v u (inl e) = (k, rw (text_eq_refl k) (ap some (sym e)))
Elem-values ((k, w) ∷ m) v u (inr e) =
    let (n, g) = Elem-values m v u.1 e in (n, ground (arith, text_eq_iff k n))

get-Elem : {V : Type 0} (m : GoMap V) (n : Text) (v : V) → get n m ≡ some v → Elem v (values m)
unfolding values get
get-Elem [] n v e = cc
get-Elem ((k, w) ∷ m) n v e = elim (Bool-cases (text_eq k n)) [
  | inl t ↦ inl (ground arith)
  | inr f ↦ inr (get-Elem m n v (rw f at e))
]

get-tail :
    {V : Type 0} (k n : Text) (w v : V) (m : GoMap V)
    → get k m ≡ none
    → get n m ≡ some v
    → get n ((k, w) ∷ m) ≡ some v
unfolding get
get-tail k n w v m h e = ground (arith, text_eq_iff k n)

get-head : {V : Type 0} (k : Text) (w : V) (m : GoMap V) → get k ((k, w) ∷ m) ≡ some w
unfolding get
get-head k w m = rw (text_eq_refl k)

values-IsDistinct :
    {H : Type 0} (m : GoMap (Service H))
    → IsUnique m
    → ((n : Text) (svc : Service H) → get n m ≡ some svc → svc.name ≡ n)
    → IsDistinct (values m)
unfolding values
values-IsDistinct [] u h = tt
values-IsDistinct ((k, w) ∷ m) u h = (
  λ e.
      let (n, g) = Elem-values m w u.1 e in
      let here = h k w (get-head k w m) in
      let there = h n w (get-tail k n w w m u.0 g) in cc (u.0, g, here, there),
  values-IsDistinct m u.1 (λ n svc e. h n svc (get-tail k n w svc m u.0 e)),
)

module _ {H : Type 0} where
  own_name :
      (r : Registry H) (n : Text) (svc : Service H)
      → IsKeyed r
      → get n r.services ≡ some svc
      → IsRegistered r svc
  own_name r n svc k g = ap (λ (m : Text). get m r.services) (k.named n svc g) ∙ g

  Elem-all : (r : Registry H) (svc : Service H) → IsKeyed r → Elem svc (all r) ↔ IsRegistered r svc
  unfolding all
  Elem-all r svc k =
      let sorted = Elem-sort_slice before svc (values r.services) in
      (
        λ e. let (n, g) = Elem-values r.services svc k.unique (sorted.0 e) in own_name r n svc k g,
        λ e. sorted.1 (get-Elem r.services svc.name svc e),
      )

  values-IsRegistered : (r : Registry H) → IsKeyed r → All (IsRegistered r) (values r.services)
  values-IsRegistered r k =
      All-of_Elem (IsRegistered r) (values r.services)
        λ svc e. let (n, g) = Elem-values r.services svc k.unique e in own_name r n svc k g

  -- Of a higher state, or of the same one and with a name that comes first.
  abbrev pub Precedes : Service H → Service H → Type 0
  Precedes a b = (rank b < rank a) ⊎ ((rank a ≡ rank b) × (text_lt a.name b.name ≡ true))

  -- Each service precedes all that stand behind it.
  abbrev pub IsRanked : List (Service H) → Type 0
  IsRanked [] = Unit
  IsRanked (a ∷ services) = All (Precedes a) services × IsRanked services

  before-Precedes : (a b : Service H) → before a b ≡ true → Precedes a b
  unfolding before
  before-Precedes a b h = elim (Bool-cases (rank a == rank b)) [
    | inl e ↦ inr (ground arith, rw e at h)
    | inr f ↦ inl (ground arith)
  ]

  All-Precedes :
      (a : Service H) (services : List (Service H))
      → All (λ b. before a b ≡ true) services
      → All (Precedes a) services
  All-Precedes a [] h = tt
  All-Precedes a (b ∷ services) (h, hs) = (before-Precedes a b h, All-Precedes a services hs)

  IsSorted-IsRanked : (services : List (Service H)) → IsSorted before services → IsRanked services
  IsSorted-IsRanked [] h = tt
  IsSorted-IsRanked (a ∷ services) (h, hs) =
      (All-Precedes a services h, IsSorted-IsRanked services hs)

  pub all-IsSorted : (r : Registry H) → IsKeyed r → IsSorted before (all r)
  unfolding all
  all-IsSorted r k =
      sort_slice-IsSorted (before-IsStrictOrder r) (values r.services) (values-IsRegistered r k)
        (values-IsDistinct r.services k.unique k.named)

  -- Where each service is registered once and under its own name, All() lists exactly the registered
  -- services. Of any two in the list, the earlier one has a higher state than the later one, or the
  -- same state and a name that comes first.
  pub all_lem :
      (r : Registry H) (svc : Service H)
      → IsKeyed r
      → (Elem svc (all r) ↔ IsRegistered r svc) × IsRanked (all r)
  all_lem r svc k = (Elem-all r svc k, IsSorted-IsRanked (all r) (all-IsSorted r k))

  -- Where each service is registered once and under its own name, the list depends on nothing but
  -- which services are registered: it is the same whatever order the map's `range` takes.
  pub all_order :
      (r t : Registry H)
      → IsKeyed r
      → IsKeyed t
      → ((n : Text) → get n r.services ≡ get n t.services)
      → all r ≡ all t
  unfolding all
  all_order r t k l h =
      sort_slice_unique (before-IsStrictOrder r) (values r.services) (values t.services)
        (values-IsRegistered r k)
        (All-of_Elem (IsRegistered r) (values t.services) λ svc e.
          let (n, g) = Elem-values t.services svc l.unique e in h svc.name ∙ own_name t n svc l g)
        (values-IsDistinct r.services k.unique k.named)
        (values-IsDistinct t.services l.unique l.named)
        λ svc. (
          λ e.
              let (n, g) = Elem-values r.services svc k.unique e in
              get-Elem t.services n svc (sym (h n) ∙ g),
          λ e.
              let (n, g) = Elem-values t.services svc l.unique e in
              get-Elem r.services n svc (h n ∙ g),
        )
