-- ===== src/Collection/Fleet/Routes.antt =====
-- The routes of all collection services together, in the router of internal/server/router.go.
use kiri_gcp.Prelude.{◌≡◌}
use kiri_gcp.Text.{Text}
use kiri_gcp.Service.{Handler, Service}
use kiri_gcp.Collection.{State, routes}
use kiri_gcp.Collection.Routes.{IsSegment}

-- A service with the four routes of a collection, whose name is one path segment.
abbrev IsCollection : Service (Handler State) → Type 0
IsCollection svc = (svc.routes ≡ routes svc.name) × IsSegment svc.name
