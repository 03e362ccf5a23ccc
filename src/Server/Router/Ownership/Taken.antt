-- ===== src/Server/Router/Ownership/Taken.antt =====
-- What the router of internal/server/router.go holds when the ServeMux takes each new
-- pattern.
use kiri_gcp.Prelude.{
  ◌≡◌, ◌⊎◌, ◌++◌, none, sym, refl, ap, ◌∙◌, inl, inr, Bool, true, some, List, [], ◌∷◌, arith,
  Bool-cases, Elem, Elem-append,
}
use kiri_gcp.Text.{Text, text_eq}
use kiri_gcp.Text.Laws.{text_eq_iff}
use kiri_gcp.GoMap.{GoMap, get, keys}
use kiri_gcp.GoMap.Laws.{get-put, Elem-keys}
use kiri_gcp.Service.{Route, Service}
use kiri_gcp.Server.Router.{
  Router, flag, new_router, route_key, handle, register_routes, register_services,
}
use kiri_gcp.Server.Router.Ownership.{
  get-snoc, first_handler, all_routes, expected, IsTracked, handle-IsTracked, register_services_lem,
}

module _ {H : Type 0} where
  pub first_handler-Elem :
      (k : Text) (rts : List (Route H)) (v : H)
      → first_handler k rts ≡ some v
      → (rt : Route H) × Elem rt rts × (route_key rt ≡ k) × (rt.handler ≡ v)
  unfolding first_handler
  first_handler-Elem k [] v h = cc
  first_handler-Elem k (x ∷ xs) v h = elim (Bool-cases (text_eq (route_key x) k)) [
    | inl e ↦ (x, inl refl, (text_eq_iff (route_key x) k).0 e, ground arith)
    | inr e ↦ let (rt, a, b, c) = first_handler-Elem k xs v (rw e at h) in (rt, inr a, b, c)
  ]

  pub Elem-all_routes :
      (rt : Route H) (svcs : List (Service H))
      → Elem rt (all_routes svcs)
      → (svc : Service H) × Elem svc svcs × Elem rt svc.routes
  unfolding all_routes
  Elem-all_routes rt [] e = absurd e
  Elem-all_routes rt (x ∷ xs) e = elim ((Elem-append rt x.routes (all_routes xs)).0 e) [
    | inl a ↦ (x, inl refl, a)
    | inr b ↦ let (svc, c, d) = Elem-all_routes rt xs b in (svc, inr c, d)
  ]

  pub all_routes-Elem :
      (rt : Route H) (svc : Service H) (svcs : List (Service H))
      → Elem svc svcs
      → Elem rt svc.routes
      → Elem rt (all_routes svcs)
  unfolding all_routes
  all_routes-Elem rt svc [] e m = absurd e
  all_routes-Elem rt svc (x ∷ xs) (inl e) m =
      (Elem-append rt x.routes (all_routes xs)).1 (inl (rw e at m))
  all_routes-Elem rt svc (x ∷ xs) (inr e) m =
      (Elem-append rt x.routes (all_routes xs)).1 (inr (all_routes-Elem rt svc xs e m))

  -- The ServeMux has patterns of these routes alone.
  abbrev pub IsFrom : List (Route H) → List Text → Type 0
  IsFrom rts taken = (p : Text) → Elem p taken → (rt : Route H) × Elem rt rts × (route_key rt ≡ p)

  -- The ServeMux takes the pattern of each route, where it has patterns of these routes alone and not
  -- yet this one.
  abbrev pub TakesNew : (List Text → Text → Bool) → List (Route H) → Type 0
  TakesNew accepts rts =
      (taken : List Text) (rt : Route H)
      → Elem rt rts
      → IsFrom rts taken
      → ¬ Elem (route_key rt) taken
      → accepts taken (route_key rt) ≡ true

Elem-keys-snoc :
    {V : Type 0} (p k : Text) (v : V) (m : GoMap V)
    → Elem p (keys (m ++ (k, v) ∷ []))
    → Elem p (keys m) ⊎ (p ≡ k)
unfolding keys
Elem-keys-snoc p k v [] e = elim e [ inl q ↦ inr q | inr n ↦ absurd n ]
Elem-keys-snoc p k v ((j, w) ∷ m) (inl q) = inl (inl q)
Elem-keys-snoc p k v ((j, w) ∷ m) (inr e) = elim (Elem-keys-snoc p k v m e) [
  | inl f ↦ inl (inr f)
  | inr q ↦ inr q
]

module _ {H : Type 0} (accepts : List Text → Text → Bool) (k : Text) where
  handle_taken :
      (rt : Route H) (rts : List (Route H)) (r : Router H)
      → (get (route_key rt) r.mux ≡ none → accepts (keys r.mux) (route_key rt) ≡ true)
      → IsTracked r
      → expected k (handle accepts rt r) rts ≡ expected k r (rt ∷ rts)
  unfolding expected handle first_handler
  handle_taken rt rts r takes h = ground (
    arith,
    h k,
    h (route_key rt),
    takes,
    get-put (route_key rt) k true r.registered,
    get-snoc k (route_key rt) rt.handler r.mux,
    text_eq_iff (route_key rt) k,
  )

  handle-IsFrom :
      (rt : Route H) (rts : List (Route H)) (r : Router H)
      → Elem rt rts
      → IsFrom rts (keys r.mux)
      → IsFrom rts (keys (handle accepts rt r).mux)
  unfolding handle
  handle-IsFrom rt rts r m from = elim (Bool-cases (flag (get (route_key rt) r.registered))) [
    | inl e ↦ rw e from
    | inr e ↦ rw e (elim (Bool-cases (accepts (keys r.mux) (route_key rt))) [
      | inr f ↦ rw f from
      | inl f ↦ rw f λ p q. elim (Elem-keys-snoc p (route_key rt) rt.handler r.mux q) [
        | inl old ↦ from p old
        | inr new ↦ (rt, m, sym new)
      ]
    ])
  ]

  -- The routes that are still to come are some of all.
  register_routes_taken :
      (whole rts : List (Route H)) (r : Router H)
      → TakesNew accepts whole
      → ((rt : Route H) → Elem rt rts → Elem rt whole)
      → IsTracked r
      → IsFrom whole (keys r.mux)
      → get k (register_routes accepts rts r).mux ≡ expected k r rts
  unfolding register_routes
  register_routes_taken whole [] r takes part h from =
      unfold expected first_handler in ground (arith, h k)
  register_routes_taken whole (rt ∷ rts) r takes part h from =
      register_routes_taken whole rts (handle accepts rt r) takes (λ x m. part x (inr m))
        (handle-IsTracked accepts rt r h) (handle-IsFrom rt whole r (part rt (inl refl)) from)
      ∙ handle_taken rt rts r
          (λ gone.
            takes (keys r.mux) rt (part rt (inl refl)) from
              (λ e. cc (gone, (Elem-keys (route_key rt) r.mux).0 e)))
          h

  pub register_services_taken :
      (svcs : List (Service H))
      → TakesNew accepts (all_routes svcs)
      → get k (register_services accepts svcs new_router).mux ≡ first_handler k (all_routes svcs)
  register_services_taken svcs takes =
      unfold expected new_router get in
      ap (λ (r : Router H). get k r.mux) (register_services_lem accepts svcs new_router)
      ∙ register_routes_taken (all_routes svcs) (all_routes svcs) new_router takes (λ x m. m)
          (λ j _. unfold new_router get in refl) (λ p e. absurd (unfold new_router keys in e))
