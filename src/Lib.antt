-- ===== src/Lib.antt =====
-- kiri, an emulator of Google Cloud: one process that serves the REST and gRPC interfaces of many
-- services. Handlers read a request, take the lock of their service, and change its state; the
-- server builds a router from the registered services.
--
-- Files, and the code that they model:
--   Prelude, Text, GoMap, Sort, Json: what the code uses of Go. A string is a list of bytes
--     (`Text`), a map an association list whose order is that of one `range` (`GoMap`); sort.Slice
--     is an insertion sort; a JSON value is the data type `Json`.
--   Http: internal/httpx/httpx.go. `write_json`, `error`, `decode_json`, `id`, `numeric_id`,
--     `split_verb` and `reason_to_camel` are WriteJSON, Error, DecodeJSON, ID, NumericID, SplitVerb
--     and reasonToCamel. Http.Segments, Http.Identifiers and Http.Reasons are about these.
--   Service, Service.Registry: internal/service/interface.go and registry.go. A service is its name,
--     its catalogue entry and the routes that it registers. Service.Order is about All().
--   Collection: the services that are one collection of resources, as
--     internal/service/agones/agones.go has it. `list_items`, `create_item`, `get_item`,
--     `delete_item` are listItems, createItem, getItem, deleteItem. Collection.Fleet has one
--     definition for each such service. Laws, Listing, Invariant, Isolation, Routes and Fleet.Routes
--     are about them.
--   Server: internal/server/router.go and server.go. Router.handle is Router.Handle, Filter has
--     matchFidelity and matchState, and Startup the registration part of New. Router.Ownership and
--     Router.Ownership.Taken are about which handler has a pattern.
--   Pubsub: MergeBackend of internal/grpcsvc/pubsub/pubsub.go, one function for each method.
--     Pubsub.Bodies and Pubsub.Rest are the handlers of internal/service/pubsub/pubsub.go, which
--     share that store. Pubsub.Rpc has the unary gRPC methods (`call_rpc`) and Pubsub.Stream the
--     select loop of StreamingPull (`stream_step`, one event). Delivery, Delivery.Once, Marks, Drain
--     and Sound are about the store, Rest.Calls, Rest.Refinement, Rpc.Requests, Stream.Interleaving
--     and Stream.Deliveries about the handlers.
--   Storage: internal/storage/persistence.go, Load and Save over a map of files. The outcome of each
--     call of the operating system, encoding/json and path/filepath are parameters.
--     Storage.Snapshots is about them.
--   FirestoreRpc: internal/grpcsvc/firestore/firestore.go, MergeBackend and its gRPC methods.
--     FirestoreRpc.Documents is about them.
--   Wire: internal/protow/wire.go, the Encoder and the Decoder over a parameter for the package
--     protowire; Wire.Messages and Messages.Replies: internal/protow/messages.go and the scans, a
--     function for each Encode and Decode. Wire.Fields, Wire.Calls, Wire.Termination,
--     Messages.RoundTrip and Messages.Requests are about them; Wire.Leb128 is an instance of the
--     parameter.
--   Gcs: internal/service/gcs/gcs.go. Gcs.Buckets, Gcs.Uploads and Gcs.Objects have a function for each
--     handler, Gcs.Ranges parseContentRange. Ranges.Digits and Ranges.Printing are about the latter;
--     Chunks, Sound, Invariant and Reads about the handlers.
--   Kms, CloudTasks: internal/service/kms/kms.go and internal/service/cloudtasks/cloudtasks.go, a
--     function for each handler; CloudTasks.Bodies has the request bodies. Kms.Secrecy and
--     CloudTasks.Dispatch are about them. Base64 is the encoding that kms uses.
--   SecretManager: internal/service/secretmanager/secretmanager.go, a function for each handler;
--     SecretManager.Latest is about versions.
--   CloudScheduler: internal/service/cloudscheduler/cloudscheduler.go, a function for each handler;
--     CloudScheduler.Runs is about the custom methods of a job.
--   Tests: the theorems at concrete inputs.
--
-- A handler is a function from a request and a state to a state and the response it writes. Each
-- handler and each method of the Pub/Sub store holds its lock while it reads and writes, so an
-- interleaving of requests is a sequence of such steps. What comes from outside (the body, the path
-- and query values, the bytes of crypto/rand, the clock) is data of the request. A Pub/Sub REST
-- handler that calls the store more than once is taken as one step. An upload to Cloud Storage takes
-- its lock twice: Gcs.Invariant has the two parts as steps of their own, which other requests may come
-- between, Gcs.Reads is also about a bucket that is deleted there, and `upload_object` is an upload
-- that nothing comes between.
--
-- Bounds: Itoa has a fuel of 20, which is enough since a 64-bit number has at most 20 digits; the
-- loop over a decoder has one round more than there are bytes; all other loops recurse on the list
-- they go through. The fold of NumericID wraps at 64 bits.
--
-- Not modelled: sockets, logging and shutdown, which are I/O; net/http's choice of a pattern for a
-- path, where the ServeMux is a table and whether it takes a pattern is a parameter; the package
-- protowire, checksums, multipart parsing and TLS; the gRPC runtime, so a gRPC request is what its
-- handler has after decoding; the services that have more than one collection, but for Cloud Storage,
-- KMS, Cloud Tasks, Secret Manager and Cloud Scheduler; the entry points and the examples.
pub mod Base64
pub mod CloudScheduler
pub mod CloudTasks
pub mod Collection
pub mod FirestoreRpc
pub mod Gcs
pub mod GoMap
pub mod Http
pub mod Json
pub mod Kms
pub mod Prelude
pub mod Pubsub
pub mod SecretManager
pub mod Server
pub mod Service
pub mod Sort
pub mod Storage
pub mod Tests
pub mod Text
pub mod Wire
