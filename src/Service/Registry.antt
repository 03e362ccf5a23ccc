-- ===== src/Service/Registry.antt =====
-- internal/service/registry.go: the services by name, and the order in which the server takes them.
use kiri_gcp.Prelude.{ℕ, Bool, Option, none, some, List, [], ◌∷◌, ltb, ◌==◌, if◌then◌else◌}
use kiri_gcp.Text.{Text, text_lt}
use kiri_gcp.GoMap.{GoMap, get, put, keys}
use kiri_gcp.Sort.{sort_slice}
use kiri_gcp.Service.{Meta, Service, state_number}

pub record Registry (H : Type 0) : Type 0 where
  pub services : GoMap (Service H)

-- Meta().State, or the zero state of a service that is no Describer.
state_rank : Option Meta → ℕ
unfolding state_number
state_rank none = 0
state_rank (some m) = state_number m.state

-- for _, svc := range r.services
unfoldable pub values : {V : Type 0} → GoMap V → List V
values [] = []
values ((k, v) ∷ m) = v ∷ values m

module _ {H : Type 0} where
  unfoldable pub rank : Service H → ℕ
  unfolding state_rank
  rank svc = state_rank svc.meta

  unfoldable pub register : Service H → Registry H → Registry H
  register svc r = record r { services = put svc.name svc r.services }

  unfoldable pub lookup : Text → Registry H → Option (Service H)
  lookup name r = get name r.services

  -- The comparison of All(): the state descending, then the name ascending.
  unfoldable pub before : Service H → Service H → Bool
  unfolding rank
  before a b = if rank a == rank b then text_lt a.name b.name else ltb (rank b) (rank a)

  unfoldable pub all : Registry H → List (Service H)
  unfolding values
  all r = sort_slice before (values r.services)

  unfoldable pub names : Registry H → List Text
  names r = keys r.services
