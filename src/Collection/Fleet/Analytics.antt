-- ===== src/Collection/Fleet/Analytics.antt =====
-- Collection services: the services of the category Analytics & ML. Each definition is the service of one file.
use kiri_gcp.Prelude.{List, [], ◌∷◌}
use kiri_gcp.Text.{str}
use kiri_gcp.Service.{Handler, Service, fidelity_b, fidelity_c, fidelity_d, state_behavioral}
use kiri_gcp.Collection.{State, collection_service}

abbrev pub analyticshub : Service (Handler State)
analyticshub = collection_service (str "analyticshub") (record {
  display = str "Analytics Hub";
  category = str "Analytics & ML";
  description = str "Data exchange and sharing platform";
  fidelity = fidelity_c;
  state = state_behavioral;
})

abbrev pub biglake : Service (Handler State)
biglake = collection_service (str "biglake") (record {
  display = str "BigLake";
  category = str "Analytics & ML";
  description = str "Unified storage engine for lakehouse workloads";
  fidelity = fidelity_c;
  state = state_behavioral;
})

abbrev pub biglakeiceberg : Service (Handler State)
biglakeiceberg = collection_service (str "biglakeiceberg") (record {
  display = str "BigLake Iceberg";
  category = str "Analytics & ML";
  description = str "Apache Iceberg tables on BigLake";
  fidelity = fidelity_c;
  state = state_behavioral;
})

abbrev pub bigquerystorageread : Service (Handler State)
bigquerystorageread = collection_service (str "bigquerystorageread") (record {
  display = str "BigQuery Storage Read";
  category = str "Analytics & ML";
  description = str "High-throughput BigQuery table reads";
  fidelity = fidelity_b;
  state = state_behavioral;
})

abbrev pub bigquerystoragewrite : Service (Handler State)
bigquerystoragewrite = collection_service (str "bigquerystoragewrite") (record {
  display = str "BigQuery Storage Write";
  category = str "Analytics & ML";
  description = str "High-throughput BigQuery streaming writes";
  fidelity = fidelity_b;
  state = state_behavioral;
})

abbrev pub dataflowjobsapi : Service (Handler State)
dataflowjobsapi = collection_service (str "dataflowjobsapi") (record {
  display = str "Dataflow Jobs API";
  category = str "Analytics & ML";
  description = str "Dataflow job submission and management";
  fidelity = fidelity_c;
  state = state_behavioral;
})

abbrev pub dataplexcatalog : Service (Handler State)
dataplexcatalog = collection_service (str "dataplexcatalog") (record {
  display = str "Dataplex Catalog";
  category = str "Analytics & ML";
  description = str "Unified data governance and cataloging";
  fidelity = fidelity_c;
  state = state_behavioral;
})

abbrev pub datastream : Service (Handler State)
datastream = collection_service (str "datastream") (record {
  display = str "Datastream";
  category = str "Analytics & ML";
  description = str "Serverless change data capture and replication";
  fidelity = fidelity_b;
  state = state_behavioral;
})

abbrev pub entityresolution : Service (Handler State)
entityresolution = collection_service (str "entityresolution") (record {
  display = str "Entity Resolution";
  category = str "Analytics & ML";
  description = str "Record matching and identity resolution";
  fidelity = fidelity_c;
  state = state_behavioral;
})

abbrev pub serverlessspark : Service (Handler State)
serverlessspark = collection_service (str "serverlessspark") (record {
  display = str "Dataproc Serverless for Spark";
  category = str "Analytics & ML";
  description = str "Serverless Apache Spark batch workloads";
  fidelity = fidelity_d;
  state = state_behavioral;
})

abbrev pub analytics : List (Service (Handler State))
analytics =
    analyticshub ∷ biglake ∷ biglakeiceberg ∷ bigquerystorageread ∷ bigquerystoragewrite
    ∷ dataflowjobsapi ∷ dataplexcatalog ∷ datastream ∷ entityresolution ∷ serverlessspark ∷ []
