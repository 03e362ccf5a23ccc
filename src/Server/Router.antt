-- ===== src/Server/Router.antt =====
-- internal/server/router.go and the registration loop of New in internal/server/server.go.
-- http.ServeMux is a table of patterns. Whether it takes one more pattern, or panics because that is
-- malformed or in conflict with those it has, is the parameter `accepts`.
pub mod Ownership
use kiri_gcp.Prelude.{
  ◌≡◌, refl, Bool, true, false, Option, none, some, List, [], ◌∷◌, ◌++◌, if◌then◌else◌,
}
use kiri_gcp.Text.{Text, str}
use kiri_gcp.GoMap.{GoMap, get, put, keys}
use kiri_gcp.Service.{Route, Service}

pub record Router (H : Type 0) : Type 0 where
  -- The patterns that the ServeMux took, with their handlers.
  pub mux : GoMap H
  pub registered : GoMap Bool

-- m[k] of a map of truth values: false where the key is missing.
abbrev pub flag : Option Bool → Bool
flag none = false
flag (some b) = b

module _ {H : Type 0} where
  unfoldable pub new_router : Router H
  new_router = record { mux = []; registered = [] }

  unfoldable pub route_key : Route H → Text
  route_key rt = rt.method ++ (str " " ++ rt.pattern)

module _ {H : Type 0} (accepts : List Text → Text → Bool) where
  -- Handle: a key that is registered is ignored; a panic of the ServeMux is swallowed.
  unfoldable pub handle : Route H → Router H → Router H
  handle rt r = if flag (get (route_key rt) r.registered) then r else record {
    mux =
        if accepts (keys r.mux) (route_key rt)
        then r.mux ++ (route_key rt, rt.handler) ∷ []
        else r.mux;
    registered = put (route_key rt) true r.registered;
  }

  -- svc.RegisterRoutes(router)
  unfoldable pub register_routes : List (Route H) → Router H → Router H
  unfolding handle
  register_routes [] r = r
  register_routes (rt ∷ rts) r = register_routes rts (handle rt r)

  -- The loop over the services that pass the filters.
  unfoldable pub register_services : List (Service H) → Router H → Router H
  unfolding register_routes
  register_services [] r = r
  register_services (svc ∷ svcs) r = register_services svcs (register_routes svc.routes r)
