-- ===== src/Storage.antt =====
-- internal/storage/persistence.go: snapshots in files. The file system is a map from paths to
-- contents. What the operating system and encoding/json do is a parameter: the error of each call,
-- and what a WriteFile that fails has left in the file.
pub mod Snapshots
use kiri_gcp.Prelude.{Bool, true, false, Option, none, some, List, [], ◌∷◌, ◌++◌, if◌then◌else◌}
use kiri_gcp.Text.{Text, str, text_eq}
use kiri_gcp.GoMap.{GoMap, get, put, delete}

-- The bytes of MarshalIndent, or its error.
pub data Marshalled : Type 0 where
  bytes : Text → Marshalled
  unsupported : (error : Text) → Marshalled

-- The value of Unmarshal, or its error.
pub data Read (V : Type 0) : Type 0 where
  value : V → Read V
  malformed : (error : Text) → Read V

-- encoding/json for the type of a state, and path/filepath.
pub record Codec (V : Type 0) : Type 0 where
  pub marshal : V → Marshalled
  pub unmarshal : Text → Read V
  pub join : List Text → Text
  pub clean : Text → Text

-- How the calls of one Save or Load end: `none` where there is no error.
pub record Outcomes : Type 0 where
  pub mkdir_error : Option Text
  pub write_error : Option Text
  pub rename_error : Option Text
  -- What a WriteFile that fails leaves in the file.
  pub written : Text
  -- An error of ReadFile other than that there is no such file.
  pub read_error : Option Text

abbrev pub Files : Type 0
Files = GoMap Text

-- What Load returns: nil and no change, nil and a value, or an error.
pub data LoadResult (V : Type 0) : Type 0 where
  untouched : LoadResult V
  loaded : V → LoadResult V
  load_failed : (error : Text) → LoadResult V

module _ {V : Type 0} (codec : Codec V) where
  unfoldable pub snapshot_path : Text → Text → Text → Text
  snapshot_path root service key = codec.join (root ∷ service ∷ (key ++ str ".json") ∷ [])

  -- The path that Save writes, from the directory that it makes.
  unfoldable pub save_path : Text → Text → Text → Text
  save_path root service key =
      codec.join (codec.join (root ∷ service ∷ []) ∷ (key ++ str ".json") ∷ [])

  unfoldable pub temp_path : Text → Text
  temp_path path = path ++ str ".tmp"

  unmarshal_snapshot : Text → Read V → LoadResult V
  unmarshal_snapshot path (value v) = loaded v
  unmarshal_snapshot path (malformed e) =
      load_failed (str "unmarshal snapshot " ++ (path ++ (str ": " ++ e)))

  read_snapshot : Text → Option Text → Option Text → LoadResult V
  unfolding unmarshal_snapshot
  read_snapshot path none none = untouched
  read_snapshot path none (some data_read) = unmarshal_snapshot path (codec.unmarshal data_read)
  read_snapshot path (some e) content =
      load_failed (str "read snapshot " ++ (path ++ (str ": " ++ e)))

  -- `root` is $KIRI_DATA_DIR.
  unfoldable pub load : Outcomes → Text → Text → Text → Files → LoadResult V
  unfolding read_snapshot
  load o root service key fs =
      let path = snapshot_path root service key in
      if text_eq root []
      then untouched
      else read_snapshot path o.read_error (get (codec.clean path) fs)

  rename_temp : Outcomes → Option Text → Text → Text → Files → Files × Option Text
  rename_temp o none path content fs = (put path content (delete (temp_path path) fs), none)
  rename_temp o (some e) path content fs = (
    fs,
    some (str "rename snapshot " ++ (temp_path path ++ (str " -> " ++ (path ++ (str ": " ++ e))))),
  )

  write_temp : Outcomes → Option Text → Text → Text → Files → Files × Option Text
  unfolding rename_temp
  write_temp o none path content fs =
      rename_temp o o.rename_error path content (put (temp_path path) content fs)
  write_temp o (some e) path content fs = (
    put (temp_path path) o.written fs,
    some (str "write temp snapshot " ++ (temp_path path ++ (str ": " ++ e))),
  )

  make_dir : Outcomes → Option Text → Text → Text → Text → Files → Files × Option Text
  unfolding write_temp
  make_dir o none dir path content fs = write_temp o o.write_error path content fs
  make_dir o (some e) dir path content fs =
      (fs, some (str "create data dir " ++ (dir ++ (str ": " ++ e))))

  save_marshalled : Outcomes → Text → Text → Text → Marshalled → Files → Files × Option Text
  unfolding make_dir
  save_marshalled o root service key (unsupported e) fs =
      (fs, some (str "marshal snapshot " ++ (service ++ (str "/" ++ (key ++ (str ": " ++ e))))))
  save_marshalled o root service key (bytes content) fs =
      make_dir o o.mkdir_error (codec.join (root ∷ service ∷ [])) (save_path root service key)
        content fs

  unfoldable pub save : Outcomes → Text → Text → Text → V → Files → Files × Option Text
  unfolding save_marshalled
  save o root service key v fs =
      if text_eq root []
      then (fs, none)
      else save_marshalled o root service key (codec.marshal v) fs
