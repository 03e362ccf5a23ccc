-- ===== src/Collection/Fleet/Databases.antt =====
-- Collection services: the services of the category Databases. Each definition is the service of one file.
use kiri_gcp.Prelude.{List, [], ◌∷◌}
use kiri_gcp.Text.{str}
use kiri_gcp.Service.{Handler, Service, fidelity_b, fidelity_c, fidelity_d, state_behavioral}
use kiri_gcp.Collection.{State, collection_service}

abbrev pub bigtabledata : Service (Handler State)
bigtabledata = collection_service (str "bigtabledata") (record {
  display = str "Bigtable Data";
  category = str "Databases";
  description = str "Bigtable data-plane read/write API";
  fidelity = fidelity_c;
  state = state_behavioral;
})

abbrev pub datastoremode : Service (Handler State)
datastoremode = collection_service (str "datastoremode") (record {
  display = str "Firestore in Datastore Mode";
  category = str "Databases";
  description = str "Datastore-compatible Firestore API";
  fidelity = fidelity_b;
  state = state_behavioral;
})

abbrev pub firebasedataconnect : Service (Handler State)
firebasedataconnect = collection_service (str "firebasedataconnect") (record {
  display = str "Firebase Data Connect";
  category = str "Databases";
  description = str "GraphQL API backed by Cloud SQL";
  fidelity = fidelity_c;
  state = state_behavioral;
})

abbrev pub firestoreevents : Service (Handler State)
firestoreevents = collection_service (str "firestoreevents") (record {
  display = str "Firestore Events";
  category = str "Databases";
  description = str "Firestore document change triggers";
  fidelity = fidelity_c;
  state = state_behavioral;
})

abbrev pub firestoremongodb : Service (Handler State)
firestoremongodb = collection_service (str "firestoremongodb") (record {
  display = str "Firestore with MongoDB Compatibility";
  category = str "Databases";
  description = str "MongoDB-compatible Firestore API";
  fidelity = fidelity_c;
  state = state_behavioral;
})

abbrev pub firestorenative : Service (Handler State)
firestorenative = collection_service (str "firestorenative") (record {
  display = str "Firestore Native Mode";
  category = str "Databases";
  description = str "Native-mode Firestore document database";
  fidelity = fidelity_c;
  state = state_behavioral;
})

abbrev pub memcache : Service (Handler State)
memcache = collection_service (str "memcache") (record {
  display = str "Memorystore for Memcached";
  category = str "Databases";
  description = str "Managed Memcached caching";
  fidelity = fidelity_d;
  state = state_behavioral;
})

abbrev pub memorystoreredis : Service (Handler State)
memorystoreredis = collection_service (str "memorystoreredis") (record {
  display = str "Memorystore for Redis";
  category = str "Databases";
  description = str "Managed Redis caching";
  fidelity = fidelity_d;
  state = state_behavioral;
})

abbrev pub spannergraph : Service (Handler State)
spannergraph = collection_service (str "spannergraph") (record {
  display = str "Spanner Graph";
  category = str "Databases";
  description = str "Graph queries over Cloud Spanner";
  fidelity = fidelity_b;
  state = state_behavioral;
})

abbrev pub databases : List (Service (Handler State))
databases =
    bigtabledata ∷ datastoremode ∷ firebasedataconnect ∷ firestoreevents ∷ firestoremongodb
    ∷ firestorenative ∷ memcache ∷ memorystoreredis ∷ spannergraph ∷ []
