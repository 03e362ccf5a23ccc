-- ===== src/Collection/Fleet.antt =====
-- The services whose files are internal/service/<name>/<name>.go and differ from
-- internal/service/agones/agones.go in the name and the catalogue entry alone.
pub mod Analytics
pub mod Databases
pub mod Infrastructure
pub mod Operations
pub mod Routes
use kiri_gcp.Prelude.{List, ◌++◌}
use kiri_gcp.Service.{Handler, Service}
use kiri_gcp.Collection.{State}
use kiri_gcp.Collection.Fleet.Analytics.{analytics}
use kiri_gcp.Collection.Fleet.Databases.{databases}
use kiri_gcp.Collection.Fleet.Infrastructure.{infrastructure}
use kiri_gcp.Collection.Fleet.Operations.{operations}

abbrev pub fleet : List (Service (Handler State))
fleet = analytics ++ (databases ++ (infrastructure ++ operations))
