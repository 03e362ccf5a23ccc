-- ===== src/Server/Startup.antt =====
-- New of internal/server/server.go: the services that pass the filters are registered, and the
-- server's own route comes last.
use kiri_gcp.Prelude.{
  ◌≤◌, ◌≡◌, ◌≢◌, inl, inr, Bool, true, ◌&&◌, some, List, [], ◌∷◌, Bool-cases, Elem, Elem-keep,
  All-Elem, All-of_Elem, keep,
}
use kiri_gcp.Text.{Text, str}
use kiri_gcp.GoMap.{get}
use kiri_gcp.Sort.{IsSorted}
use kiri_gcp.Service.{Route, Service}
use kiri_gcp.Service.Registry.{Registry, rank, before, register, all}
use kiri_gcp.Service.Order.{IsKeyed, IsRegistered, all-IsSorted, all_lem}
use kiri_gcp.Server.Router.{Router, new_router, route_key, handle, register_services}
use kiri_gcp.Server.Router.Ownership.{first_handler, first_registered, first_of_sorted}
use kiri_gcp.Server.Filter.{match_fidelity, match_state}

-- The fields of Config that choose services.
pub record Config : Type 0 where
  pub fidelity : Text
  pub state : Text

pub record Server (H : Type 0) : Type 0 where
  pub router : Router H
  pub registry : Registry H

module _ {H : Type 0} where
  abbrev pub selected : Config → Service H → Bool
  selected config svc = match_fidelity svc config.fidelity && match_state svc config.state

  -- registry.Register(svc) for each service of the list.
  unfoldable pub register_each : List (Service H) → Registry H → Registry H
  register_each [] r = r
  register_each (svc ∷ svcs) r = register_each svcs (register svc r)

  module _ (accepts : List Text → Text → Bool) (root : H) where
    abbrev root_route : Route H
    root_route = record { method = str "GET"; pattern = str "/"; handler = root }

    -- The global registry is `services`; `root` is srv.handleRoot.
    unfoldable pub new_server : Config → Registry H → Server H
    unfolding register_each
    new_server config services =
        let taken = keep (selected config) (all services) in
        record {
          router = handle accepts root_route (register_services accepts taken new_router);
          registry = register_each taken (record { services = [] });
        }

keep-IsSorted :
    {A : Type 0} (less : A → A → Bool) (p : A → Bool) (xs : List A)
    → IsSorted less xs
    → IsSorted less (keep p xs)
keep-IsSorted less p [] s = tt
keep-IsSorted less p (x ∷ xs) s = elim (Bool-cases (p x)) [
  | inl e ↦ rw e (
    All-of_Elem (λ y. less x y ≡ true) (keep p xs)
        (λ y m. All-Elem (λ y. less x y ≡ true) xs s.0 y ((Elem-keep p y xs).0 m).0),
    keep-IsSorted less p xs s.1,
  )
  | inr e ↦ rw e (keep-IsSorted less p xs s.1)
]

-- Each service is registered once and under its own name, and one that passes the filters has a
-- route of a pattern other than the server's own, for which the router holds a handler. Then this
-- handler is the first one that some service has for the pattern, and that service is registered,
-- passes the filters, and has at least the implementation state of the former: where two services
-- claim a route, no less mature one has it.
pub owner_rank :
    {H : Type 0} (accepts : List Text → Text → Bool) (root : H) (config : Config) (r : Registry H)
    (other : Service H) (rt : Route H) (k : Text) (v : H)
    → IsKeyed r
    → str "GET /" ≢ k
    → get k (new_server accepts root config r).router.mux ≡ some v
    → IsRegistered r other
    → selected config other ≡ true
    → Elem rt other.routes
    → route_key rt ≡ k
    → (svc : Service H) × IsRegistered r svc
      × (selected config svc ≡ true)
      × (first_handler k svc.routes ≡ some v)
      × (rank other ≤ rank svc)
unfolding new_server
owner_rank accepts root config r other rt k v keyed ne answered reg sel m h =
    let listed = (all_lem r other keyed).0 in
    let sorted = all-IsSorted r keyed in
    let taken = keep (selected config) (all r) in
    let own : route_key (root_route accepts root) ≢ k = unfold route_key str in ne in
    let (svc, a, b, c) =
      first_of_sorted k taken other rt v (keep-IsSorted before (selected config) (all r) sorted)
        (first_registered accepts k taken (root_route accepts root) v own answered)
        ((Elem-keep (selected config) other (all r)).1 (listed.1 reg, sel)) m h in
    let kept = (Elem-keep (selected config) svc (all r)).0 a in
    (svc, (all_lem r svc keyed).0.0 kept.0, kept.1, b, c)
