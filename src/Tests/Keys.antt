-- ===== src/Tests/Keys.antt =====
-- The theorems on KMS and Cloud Tasks (internal/service/kms, internal/service/cloudtasks) at concrete
-- requests.
use mathlib.Core.Option
use kiri_gcp.Prelude.{◌≡◌, refl, true, false, some, [], ◌∷◌, arith}
use kiri_gcp.Text.{Text, str, text_eq}
use kiri_gcp.GoMap.{get}
use kiri_gcp.Base64.{encode}
use kiri_gcp.Json.{Json, string, object_of}
use kiri_gcp.Http.{Payload, blank, valid, Request, decoded, split_verb}
use kiri_gcp.Kms.{State, handle_crypto_key_or_action}
use kiri_gcp.Kms.Secrecy.{answer_string, decrypt-encrypt}
use kiri_gcp.CloudTasks
use kiri_gcp.CloudTasks.{
  Task, Queue, queue_prefix, queue_name, task_name, task_action, create_task_decoded,
}
use kiri_gcp.CloudTasks.Dispatch.{find, find-task_action, find-create_task_decoded}
use kiri_gcp.Tests.Samples.{counting}

-- A request whose path values are all the given text.
abbrev calling : Text → Payload → Request
calling name payload = record {
  method = str "POST";
  path_value = λ k. name;
  query = λ k. [];
  payload = payload;
  random = counting;
  clock = [];
}

abbrev no_keys : State
no_keys = record { key_rings = []; crypto_keys = [] }

abbrev no_type_text : Json → Text
no_type_text j = []

abbrev secret : Text
secret = b'h' ∷ b'i' ∷ 255 ∷ []

abbrev encrypting : Request
encrypting = calling (str "k:encrypt") (valid (object_of ((str "plaintext", string secret) ∷ [])))

abbrev decrypting : Request
decrypting = calling (str "other:decrypt") (
    valid (
      object_of (
        (
          str "ciphertext",
          string (
              answer_string (str "ciphertext")
                (handle_crypto_key_or_action no_type_text encrypting no_keys).1),
        )
        ∷ [])))

decrypt-encrypt_example :
    answer_string (str "plaintext") (handle_crypto_key_or_action no_type_text decrypting no_keys).1
    ≡ encode secret
unfolding split_verb str
decrypt-encrypt_example =
    decrypt-encrypt no_type_text encrypting decrypting no_keys no_keys (str "k") (str "other")
      secret (omega arith, (omega arith, (omega arith, tt))) refl refl refl refl

abbrev running : Request
running = calling (str "t:run") blank

abbrev waiting : Task
waiting = record {
  name = task_name running (str "t");
  http_request = [];
  view = [];
  dispatched = false;
}

abbrev tasks_queue : Queue
tasks_queue = record {
  name = queue_name running;
  state = str "RUNNING";
  tasks = (task_name running (str "t"), waiting) ∷ [];
}

abbrev queues : CloudTasks.State
queues = record { queues = (queue_name running, tasks_queue) ∷ [] }

find-task_action_example :
    find (queue_name running) (task_name running (str "t")) (task_action running queues).0
    ≡ some (record waiting { dispatched = true })
unfolding find get text_eq str split_verb queue_name task_name queue_prefix Option.bind
find-task_action_example =
    find-task_action running queues (str "t") waiting (queue_name running)
      (task_name running (str "t")) refl refl

find-create_task_decoded_example :
    find (queue_name running) waiting.name (create_task_decoded running (decoded waiting) queues).0
    ≡ some waiting
unfolding find get text_eq str split_verb queue_name task_name queue_prefix
find-create_task_decoded_example =
    find-create_task_decoded running queues waiting tasks_queue (queue_name running) waiting.name
      refl refl
