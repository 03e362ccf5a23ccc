-- ===== src/Tests/Servers.antt =====
-- The theorems on the registry and the start of the server (internal/service/registry.go,
-- internal/server/server.go) at concrete inputs.
use kiri_gcp.Prelude.{◌≡◌, refl, ◌≤◌, ◌↔◌, inl, true, some, [], ◌∷◌, Elem, arith}
use kiri_gcp.Text.{Text, str, text_eq, text_lt}
use kiri_gcp.Text.Laws.{text_eq_iff}
use kiri_gcp.GoMap.{get, put, keys}
use kiri_gcp.Sort.{sort_slice}
use kiri_gcp.Service.{Route, Service, fidelity_b, state_behavioral, state_integrated}
use kiri_gcp.Service.Registry.{Registry, rank, register, before, all, values}
use kiri_gcp.Service.Order.{IsKeyed, IsRegistered, IsRanked, register-IsKeyed, all_lem}
use kiri_gcp.Server.Filter.{match_fidelity, match_state}
use kiri_gcp.Server.Router.{route_key, handle, register_services, new_router}
use kiri_gcp.Server.Router.Ownership.{first_handler}
use kiri_gcp.Server.Startup.{Config, selected, new_server, owner_rank}

-- Two services that claim the same route; a handler is the name of its service.
abbrev list_route : Text → Route Text
list_route handler = record { method = str "GET"; pattern = str "/v1/jobs"; handler = handler }

abbrev batch : Service Text
batch = record {
  name = str "batch";
  meta = some (record {
    display = str "Batch";
    category = str "Compute";
    description = [];
    fidelity = fidelity_b;
    state = state_behavioral;
  });
  routes = list_route (str "batch") ∷ [];
}

abbrev tasks : Service Text
tasks = record {
  name = str "tasks";
  meta = some (record {
    display = str "Tasks";
    category = str "Compute";
    description = [];
    fidelity = fidelity_b;
    state = state_integrated;
  });
  routes = list_route (str "tasks") ∷ [];
}

abbrev nothing_registered : Registry Text
nothing_registered = record { services = [] }

abbrev both : Registry Text
both = register tasks (register batch nothing_registered)

abbrev both_swapped : Registry Text
both_swapped = register batch (register tasks nothing_registered)

none-IsKeyed : IsKeyed nothing_registered
unfolding get
none-IsKeyed = record { unique = tt; named = λ n svc e. cc }

both-IsKeyed : IsKeyed both
both-IsKeyed = register-IsKeyed tasks _ (register-IsKeyed batch _ none-IsKeyed)

both_swapped-IsKeyed : IsKeyed both_swapped
both_swapped-IsKeyed = register-IsKeyed batch _ (register-IsKeyed tasks _ none-IsKeyed)

batch-IsRegistered : IsRegistered both batch
unfolding register get put text_eq str
batch-IsRegistered = refl

all_lem_example : (Elem batch (all both) ↔ IsRegistered both batch) × IsRanked (all both)
all_lem_example = all_lem both batch both-IsKeyed

swapped_services : (n : Text) → get n both.services ≡ get n both_swapped.services
unfolding register get put text_eq str
swapped_services n = ground (arith, text_eq_iff (str "batch") n, text_eq_iff (str "tasks") n)

abbrev config : Config
config = record { fidelity = []; state = [] }

owner_rank_example :
    (svc : Service Text) × IsRegistered both svc
    × (selected config svc ≡ true)
    × (first_handler (str "GET /v1/jobs") svc.routes ≡ some (str "tasks"))
    × (rank batch ≤ rank svc)
unfolding get put keys text_eq text_lt str register match_fidelity match_state route_key new_server
    handle register_services new_router all before rank sort_slice values
owner_rank_example =
    owner_rank (λ taken pattern. true) (str "root") config both batch (list_route (str "batch"))
      (str "GET /v1/jobs") (str "tasks") both-IsKeyed (λ e. ground arith) refl batch-IsRegistered
      refl (inl refl) refl
