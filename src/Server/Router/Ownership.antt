-- ===== src/Server/Router/Ownership.antt =====
-- Which service answers a pattern that several services register.
pub mod Taken
use kiri_gcp.Prelude.{
  ◌≡◌, refl, sym, ◌∙◌, ◌≤◌, ap, ◌≢◌, inl, inr, Bool, true, false, Option, none, some, List, [], ◌∷◌,
  ◌++◌, arith, if◌then◌else◌, Option-cases, Elem, All-Elem, is_some,
}
use kiri_gcp.Text.{Text, text_eq}
use kiri_gcp.Text.Laws.{text_eq_iff}
use kiri_gcp.GoMap.{GoMap, get}
use kiri_gcp.GoMap.Laws.{get-put}
use kiri_gcp.Sort.{IsSorted}
use kiri_gcp.Service.{Route, Service}
use kiri_gcp.Service.Registry.{rank, before}
use kiri_gcp.Server.Router.{
  Router, flag, new_router, route_key, handle, register_routes, register_services,
}

pub get-snoc :
    {V : Type 0} (k j : Text) (v : V) (m : GoMap V)
    → get k (m ++ (j, v) ∷ [])
      ≡ (if is_some (get k m) then get k m else if text_eq j k then some v else none)
unfolding get
get-snoc k j v [] = refl
get-snoc k j v ((i, w) ∷ m) = ground (arith, get-snoc k j v m)

module _ {H : Type 0} where
  -- The handler of the first route with the key.
  pub first_handler : Text → List (Route H) → Option H
  first_handler k [] = none
  first_handler k (rt ∷ rts) =
      if text_eq (route_key rt) k then some rt.handler else first_handler k rts

  pub all_routes : List (Service H) → List (Route H)
  all_routes [] = []
  all_routes (svc ∷ svcs) = svc.routes ++ all_routes svcs

  -- What the key will have after more routes: what it has, if it is registered.
  pub expected : Text → Router H → List (Route H) → Option H
  expected k r rts = if flag (get k r.registered) then get k r.mux else first_handler k rts

  abbrev pub IsTracked : Router H → Type 0
  IsTracked r = (k : Text) → flag (get k r.registered) ≡ false → get k r.mux ≡ none

module _ {H : Type 0} (accepts : List Text → Text → Bool) where
  pub handle-IsTracked :
      (rt : Route H) (r : Router H) → IsTracked r → IsTracked (handle accepts rt r)
  unfolding handle
  handle-IsTracked rt r h k = ground (
    arith,
    h k,
    get-put (route_key rt) k true r.registered,
    get-snoc k (route_key rt) rt.handler r.mux,
  )

  expected-handle :
      (k : Text) (rt : Route H) (rts : List (Route H)) (r : Router H) (v : H)
      → IsTracked r
      → expected k (handle accepts rt r) rts ≡ some v
      → expected k r (rt ∷ rts) ≡ some v
  unfolding expected handle first_handler
  expected-handle k rt rts r v h = ground (
    arith,
    h k,
    get-put (route_key rt) k true r.registered,
    get-snoc k (route_key rt) rt.handler r.mux,
    text_eq_iff (route_key rt) k,
  )

  pub expected-register_routes :
      (k : Text) (rts : List (Route H)) (r : Router H) (v : H)
      → IsTracked r
      → get k (register_routes accepts rts r).mux ≡ some v
      → expected k r rts ≡ some v
  unfolding register_routes
  expected-register_routes k [] r v h e = unfold expected in ground (arith, h k)
  expected-register_routes k (rt ∷ rts) r v h e =
      expected-handle k rt rts r v h
        (expected-register_routes k rts (handle accepts rt r) v (handle-IsTracked rt r h) e)

  register_routes-append :
      (xs ys : List (Route H)) (r : Router H)
      → register_routes accepts (xs ++ ys) r
        ≡ register_routes accepts ys (register_routes accepts xs r)
  unfolding register_routes
  register_routes-append [] ys r = refl
  register_routes-append (x ∷ xs) ys r = register_routes-append xs ys (handle accepts x r)

  pub register_services_lem :
      (svcs : List (Service H)) (r : Router H)
      → register_services accepts svcs r ≡ register_routes accepts (all_routes svcs) r
  unfolding register_services all_routes register_routes
  register_services_lem [] r = refl
  register_services_lem (svc ∷ svcs) r =
      register_services_lem svcs (register_routes accepts svc.routes r)
      ∙ sym (register_routes-append svc.routes (all_routes svcs) r)

  get-handle_ne :
      (k : Text) (rt : Route H) (r : Router H) (v : H)
      → route_key rt ≢ k
      → get k (handle accepts rt r).mux ≡ some v
      → get k r.mux ≡ some v
  unfolding handle
  get-handle_ne k rt r v other =
      ground (arith, get-snoc k (route_key rt) rt.handler r.mux, text_eq_iff (route_key rt) k)

  -- A route that is registered last has no say about another key.
  pub first_registered :
      (k : Text) (svcs : List (Service H)) (last : Route H) (v : H)
      → route_key last ≢ k
      → get k (handle accepts last (register_services accepts svcs new_router)).mux ≡ some v
      → first_handler k (all_routes svcs) ≡ some v
  first_registered k svcs last v other e =
      unfold expected new_router get in
      expected-register_routes k (all_routes svcs) new_router v
        (λ j _. unfold new_router get in refl)
        (rw register_services_lem at
          (get-handle_ne k last (register_services accepts svcs new_router) v other e))

module _ {H : Type 0} (k : Text) where
  first_handler-append :
      (xs ys : List (Route H))
      → first_handler k (xs ++ ys)
        ≡ (if is_some (first_handler k xs) then first_handler k xs else first_handler k ys)
  unfolding first_handler
  first_handler-append [] ys = refl
  first_handler-append (x ∷ xs) ys = ground (arith, first_handler-append xs ys)

  pub Elem-first_handler :
      (rt : Route H) (rts : List (Route H))
      → Elem rt rts
      → route_key rt ≡ k
      → is_some (first_handler k rts) ≡ true
  unfolding first_handler
  Elem-first_handler rt [] e h = absurd e
  Elem-first_handler rt (x ∷ xs) (inl e) h =
      rw ((text_eq_iff (route_key x) k).1 (ap route_key (sym e) ∙ h)) refl
  Elem-first_handler rt (x ∷ xs) (inr e) h = ground (arith, Elem-first_handler rt xs e h)

  before-rank : (a b : Service H) → before a b ≡ true → rank b ≤ rank a
  unfolding before
  before-rank a b h = ground arith

  pub first_of_sorted :
      (svcs : List (Service H)) (other : Service H) (rt : Route H) (v : H)
      → IsSorted before svcs
      → first_handler k (all_routes svcs) ≡ some v
      → Elem other svcs
      → Elem rt other.routes
      → route_key rt ≡ k
      → (svc : Service H) × Elem svc svcs
        × (first_handler k svc.routes ≡ some v)
        × (rank other ≤ rank svc)
  unfolding all_routes
  first_of_sorted [] other rt v s f e m h = absurd e
  first_of_sorted (x ∷ xs) other rt v s f e m h =
      let joined = first_handler-append x.routes (all_routes xs) in
      elim (Option-cases (first_handler k x.routes)) [
        | inl gone ↦ elim e [
          | inl same ↦ cc (gone, Elem-first_handler rt x.routes (rw (← same) m) h)
          | inr later ↦
              let (svc, a, b, c) =
                first_of_sorted xs other rt v s.1 (ground (arith, joined)) later m h in
              (svc, inr a, b, c)
        ]
        | inr (w, found) ↦ (
          x,
          inl refl,
          ground (arith, joined),
          elim e [
            | inl same ↦ rw same (omega arith)
            | inr later ↦ before-rank x other (All-Elem (λ y. before x y ≡ true) xs s.0 other later)
          ],
        )
      ]
