-- ===== src/Tests/Files.antt =====
-- The theorems on internal/storage/persistence.go at concrete inputs.
use kiri_gcp.Prelude.{◌≡◌, refl, none, some, [], append-nil, append_assoc}
use kiri_gcp.Text.{Text, str, join, text_eq}
use kiri_gcp.Storage.{Codec, Outcomes, bytes, value, load, loaded, save, temp_path, save_path}
use kiri_gcp.Storage.Snapshots.{IsCodec, load-save_failed, load-save}

-- A state that is a text, written as it is; a path is the join of its parts.
abbrev codec : Codec Text
codec = record {
  marshal = λ v. bytes v;
  unmarshal = λ content. value content;
  join = join;
  clean = λ path. path;
}

codec-IsCodec : IsCodec codec
unfolding join
codec-IsCodec = record {
  joined = λ a b c n. refl;
  joined_twice = λ a b c n. simp (append-nil, append_assoc);
}

abbrev all_well : Outcomes
all_well = record {
  mkdir_error = none;
  write_error = none;
  rename_error = none;
  written = [];
  read_error = none;
}

abbrev disk_full : Outcomes
disk_full = record all_well {
  write_error = some (str "no space left on device");
  written = str "{";
}

load-save_example :
    ((save codec all_well (str "/data") (str "agones") (str "state") (str "{}") []).1 ≡ none)
    × (load codec all_well
          (str "/data")
          (str "agones")
          (str "state")
          (save codec all_well (str "/data") (str "agones") (str "state") (str "{}") []).0
        ≡ loaded (str "{}"))
unfolding str
load-save_example =
    load-save codec all_well all_well (str "/data") (str "agones") (str "state") (str "{}")
      (str "{}") [] codec-IsCodec (λ e. cc) refl refl refl refl refl refl

load-save_failed_example :
    load codec all_well
      (str "/data")
      (str "agones")
      (str "state")
      (save codec disk_full (str "/data") (str "agones") (str "state") (str "{}") []).0
    ≡ load codec all_well (str "/data") (str "agones") (str "state") []
unfolding str save join text_eq temp_path save_path
load-save_failed_example =
    load-save_failed codec disk_full all_well (str "/data") (str "agones") (str "state")
      (str "write temp snapshot /dataagonesstate.json.tmp: no space left on device") (str "{}") []
      codec-IsCodec refl
