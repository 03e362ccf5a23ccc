-- ===== src/Collection/Fleet/Infrastructure.antt =====
-- Collection services: the services of the categories Compute, Networking and Storage. Each definition is the service of one file.
use kiri_gcp.Prelude.{List, [], ◌∷◌}
use kiri_gcp.Text.{str}
use kiri_gcp.Service.{
  Handler, Service, fidelity_a, fidelity_b, fidelity_c, fidelity_d, state_behavioral,
}
use kiri_gcp.Collection.{State, collection_service}

abbrev pub apigatewayv2 : Service (Handler State)
apigatewayv2 = collection_service (str "apigatewayv2") (record {
  display = str "API Gateway v2";
  category = str "Networking";
  description = str "API management (v2 API surface)";
  fidelity = fidelity_c;
  state = state_behavioral;
})

abbrev pub appengineflex : Service (Handler State)
appengineflex = collection_service (str "appengineflex") (record {
  display = str "App Engine Flexible";
  category = str "Compute";
  description = str "App Engine flexible environment";
  fidelity = fidelity_b;
  state = state_behavioral;
})

abbrev pub archivestorage : Service (Handler State)
archivestorage = collection_service (str "archivestorage") (record {
  display = str "Archive Storage";
  category = str "Storage";
  description = str "Cold storage for long-term archival";
  fidelity = fidelity_c;
  state = state_behavioral;
})

abbrev pub cloudcdn : Service (Handler State)
cloudcdn = collection_service (str "cloudcdn") (record {
  display = str "Cloud CDN";
  category = str "Networking";
  description = str "Global content delivery network";
  fidelity = fidelity_a;
  state = state_behavioral;
})

abbrev pub cloudfunctionsv2 : Service (Handler State)
cloudfunctionsv2 = collection_service (str "cloudfunctionsv2") (record {
  display = str "Cloud Functions v2";
  category = str "Compute";
  description = str "Event-driven serverless functions (2nd gen)";
  fidelity = fidelity_a;
  state = state_behavioral;
})

abbrev pub dnsforwarding : Service (Handler State)
dnsforwarding = collection_service (str "dnsforwarding") (record {
  display = str "Cloud DNS Forwarding";
  category = str "Networking";
  description = str "Hybrid DNS forwarding policies";
  fidelity = fidelity_c;
  state = state_behavioral;
})

abbrev pub firebasehosting : Service (Handler State)
firebasehosting = collection_service (str "firebasehosting") (record {
  display = str "Firebase Hosting";
  category = str "Networking";
  description = str "Static and single-page app hosting with CDN";
  fidelity = fidelity_c;
  state = state_behavioral;
})

abbrev pub persistentdisk : Service (Handler State)
persistentdisk = collection_service (str "persistentdisk") (record {
  display = str "Persistent Disk";
  category = str "Storage";
  description = str "Block storage for Compute Engine";
  fidelity = fidelity_d;
  state = state_behavioral;
})

abbrev pub snapshotpolicies : Service (Handler State)
snapshotpolicies = collection_service (str "snapshotpolicies") (record {
  display = str "Snapshot Policies";
  category = str "Storage";
  description = str "Scheduled persistent disk snapshots";
  fidelity = fidelity_d;
  state = state_behavioral;
})

abbrev pub storagecontrol : Service (Handler State)
storagecontrol = collection_service (str "storagecontrol") (record {
  display = str "Storage Control";
  category = str "Storage";
  description = str "GCS bucket-level administrative operations";
  fidelity = fidelity_d;
  state = state_behavioral;
})

abbrev pub transferappliance : Service (Handler State)
transferappliance = collection_service (str "transferappliance") (record {
  display = str "Transfer Appliance";
  category = str "Storage";
  description = str "Physical data transfer to Cloud Storage";
  fidelity = fidelity_d;
  state = state_behavioral;
})

abbrev pub vmmanager : Service (Handler State)
vmmanager = collection_service (str "vmmanager") (record {
  display = str "VM Manager";
  category = str "Compute";
  description = str "OS patch, config, and inventory management";
  fidelity = fidelity_d;
  state = state_behavioral;
})

abbrev pub infrastructure : List (Service (Handler State))
infrastructure =
    apigatewayv2 ∷ appengineflex ∷ archivestorage ∷ cloudcdn ∷ cloudfunctionsv2 ∷ dnsforwarding
    ∷ firebasehosting ∷ persistentdisk ∷ snapshotpolicies ∷ storagecontrol ∷ transferappliance
    ∷ vmmanager ∷ []
