-- ===== src/Collection/Fleet/Operations.antt =====
-- Collection services: the services of the other categories. Each definition is the service of one file.
use kiri_gcp.Prelude.{List, [], ◌∷◌}
use kiri_gcp.Text.{str}
use kiri_gcp.Service.{
  Handler, Service, fidelity_a, fidelity_b, fidelity_c, fidelity_d, state_behavioral,
}
use kiri_gcp.Collection.{State, collection_service}

abbrev pub agones : Service (Handler State)
agones = collection_service (str "agones") (record {
  display = str "Agones";
  category = str "Other Services";
  description = str "Game server hosting and scaling on GKE";
  fidelity = fidelity_d;
  state = state_behavioral;
})

abbrev pub artifactanalysis : Service (Handler State)
artifactanalysis = collection_service (str "artifactanalysis") (record {
  display = str "Artifact Analysis";
  category = str "Security";
  description = str "Vulnerability scanning for container images";
  fidelity = fidelity_c;
  state = state_behavioral;
})

abbrev pub assetinventory : Service (Handler State)
assetinventory = collection_service (str "assetinventory") (record {
  display = str "Cloud Asset Inventory";
  category = str "Management & Billing";
  description = str "Resource inventory and metadata history";
  fidelity = fidelity_c;
  state = state_behavioral;
})

abbrev pub backupdr : Service (Handler State)
backupdr = collection_service (str "backupdr") (record {
  display = str "Backup and DR";
  category = str "Management & Billing";
  description = str "Centralized backup and disaster recovery";
  fidelity = fidelity_c;
  state = state_behavioral;
})

abbrev pub cloudauditlogs : Service (Handler State)
cloudauditlogs = collection_service (str "cloudauditlogs") (record {
  display = str "Cloud Audit Logs";
  category = str "Monitoring & Logging";
  description = str "Admin activity and data access audit trail";
  fidelity = fidelity_a;
  state = state_behavioral;
})

abbrev pub cloudprofiler : Service (Handler State)
cloudprofiler = collection_service (str "cloudprofiler") (record {
  display = str "Cloud Profiler";
  category = str "Developer Tools";
  description = str "Continuous CPU and memory profiling";
  fidelity = fidelity_b;
  state = state_behavioral;
})

abbrev pub cloudquotas : Service (Handler State)
cloudquotas = collection_service (str "cloudquotas") (record {
  display = str "Cloud Quotas";
  category = str "Management & Billing";
  description = str "Service quota tracking and adjustment requests";
  fidelity = fidelity_b;
  state = state_behavioral;
})

abbrev pub cloudtrace : Service (Handler State)
cloudtrace = collection_service (str "cloudtrace") (record {
  display = str "Cloud Trace";
  category = str "Monitoring & Logging";
  description = str "Distributed request tracing";
  fidelity = fidelity_a;
  state = state_behavioral;
})

abbrev pub developerconnect : Service (Handler State)
developerconnect = collection_service (str "developerconnect") (record {
  display = str "Developer Connect";
  category = str "Developer Tools";
  description = str "Source repository connections for CI/CD";
  fidelity = fidelity_c;
  state = state_behavioral;
})

abbrev pub emailadapter : Service (Handler State)
emailadapter = collection_service (str "emailadapter") (record {
  display = str "Email Adapter";
  category = str "Messaging & Integration";
  description = str "Outbound transactional email delivery";
  fidelity = fidelity_c;
  state = state_behavioral;
})

abbrev pub emailadapterv2 : Service (Handler State)
emailadapterv2 = collection_service (str "emailadapterv2") (record {
  display = str "Email Adapter v2";
  category = str "Messaging & Integration";
  description = str "Outbound transactional email delivery (v2 API)";
  fidelity = fidelity_c;
  state = state_behavioral;
})

abbrev pub eventarcadvanced : Service (Handler State)
eventarcadvanced = collection_service (str "eventarcadvanced") (record {
  display = str "Eventarc Advanced";
  category = str "Application Integration";
  description = str "Message-bus-based event routing";
  fidelity = fidelity_c;
  state = state_behavioral;
})

abbrev pub finspace : Service (Handler State)
finspace = collection_service (str "finspace") (record {
  display = str "FinSpace";
  category = str "Other Services";
  description = str "Financial data management and analytics";
  fidelity = fidelity_c;
  state = state_behavioral;
})

abbrev pub geminicodeassist : Service (Handler State)
geminicodeassist = collection_service (str "geminicodeassist") (record {
  display = str "Gemini Code Assist";
  category = str "Developer Tools";
  description = str "AI-assisted code completion and review";
  fidelity = fidelity_c;
  state = state_behavioral;
})

abbrev pub infrastructuremanager : Service (Handler State)
infrastructuremanager = collection_service (str "infrastructuremanager") (record {
  display = str "Infrastructure Manager";
  category = str "Management & Billing";
  description = str "Managed Terraform deployments";
  fidelity = fidelity_c;
  state = state_behavioral;
})

abbrev pub managedad : Service (Handler State)
managedad = collection_service (str "managedad") (record {
  display = str "Managed Service for Microsoft AD";
  category = str "Other Services";
  description = str "Fully managed Active Directory";
  fidelity = fidelity_d;
  state = state_behavioral;
})

abbrev pub mapsplatform : Service (Handler State)
mapsplatform = collection_service (str "mapsplatform") (record {
  display = str "Maps Platform";
  category = str "Other Services";
  description = str "Maps, routes, and places APIs";
  fidelity = fidelity_d;
  state = state_behavioral;
})

abbrev pub recommender : Service (Handler State)
recommender = collection_service (str "recommender") (record {
  display = str "Recommender";
  category = str "Management & Billing";
  description = str "Cost, security, and performance recommendations";
  fidelity = fidelity_d;
  state = state_behavioral;
})

abbrev pub resiliencehub : Service (Handler State)
resiliencehub = collection_service (str "resiliencehub") (record {
  display = str "Resilience Hub";
  category = str "Other Services";
  description = str "Application resilience assessment";
  fidelity = fidelity_d;
  state = state_behavioral;
})

abbrev pub sensitivedataprotection : Service (Handler State)
sensitivedataprotection = collection_service (str "sensitivedataprotection") (record {
  display = str "Sensitive Data Protection";
  category = str "Security";
  description = str "Data classification and de-identification (DLP)";
  fidelity = fidelity_d;
  state = state_behavioral;
})

abbrev pub sts : Service (Handler State)
sts = collection_service (str "sts") (record {
  display = str "Security Token Service";
  category = str "Security";
  description = str "Workload identity federation token exchange";
  fidelity = fidelity_d;
  state = state_behavioral;
})

abbrev pub vpccontrols : Service (Handler State)
vpccontrols = collection_service (str "vpccontrols") (record {
  display = str "VPC Service Controls";
  category = str "Security";
  description = str "Security perimeters around sensitive resources";
  fidelity = fidelity_d;
  state = state_behavioral;
})

abbrev pub operations : List (Service (Handler State))
operations =
    agones ∷ artifactanalysis ∷ assetinventory ∷ backupdr ∷ cloudauditlogs ∷ cloudprofiler
    ∷ cloudquotas ∷ cloudtrace ∷ developerconnect ∷ emailadapter ∷ emailadapterv2 ∷ eventarcadvanced
    ∷ finspace ∷ geminicodeassist ∷ infrastructuremanager ∷ managedad ∷ mapsplatform ∷ recommender
    ∷ resiliencehub ∷ sensitivedataprotection ∷ sts ∷ vpccontrols ∷ []
