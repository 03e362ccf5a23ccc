-- ===== src/Storage/Snapshots.antt =====
-- A snapshot is read back, and a save that fails leaves the snapshot before it.
use kiri_gcp.Prelude.{
  ◌≡◌, ◌≢◌, refl, ap, ◌∙◌, false, Option, none, some, [], ◌∷◌, ◌++◌, arith, if◌then◌else◌, length,
  length-append, is_some,
}
use kiri_gcp.Text.{Text, str, text_eq}
use kiri_gcp.Text.Laws.{text_eq-false, text_eq_refl}
use kiri_gcp.GoMap.{get, put}
use kiri_gcp.GoMap.Laws.{get-put, get-put_self}
use kiri_gcp.Storage.{
  save_path, Marshalled, bytes, unsupported, value, Codec, Outcomes, Files, loaded, snapshot_path,
  temp_path, unmarshal_snapshot, read_snapshot, load, rename_temp, write_temp, make_dir,
  save_marshalled, save,
}

-- path/filepath: Join with an element that is not empty returns a clean path, and may be called on the
-- result of another Join.
pub record IsCodec {V : Type 0} (codec : Codec V) : Type 0 where
  pub joined :
      (root service file : Text)
      → root ≢ []
      → codec.clean (codec.join (root ∷ service ∷ file ∷ []))
        ≡ codec.join (root ∷ service ∷ file ∷ [])
  pub joined_twice :
      (root service file : Text)
      → root ≢ []
      → codec.join (codec.join (root ∷ service ∷ []) ∷ file ∷ [])
        ≡ codec.join (root ∷ service ∷ file ∷ [])

abbrev content_of : Marshalled → Option Text
content_of (bytes content) = some content
content_of (unsupported e) = none

module _ {V : Type 0} (codec : Codec V) where
  temp_path-ne : (path : Text) → text_eq (temp_path codec path) path ≡ false
  unfolding temp_path str
  temp_path-ne path = text_eq-false (path ++ str ".tmp") path λ e.
      let longer : length (path ++ str ".tmp") ≡ length path = ap length e in
      omega (arith, longer, length-append path (str ".tmp"))

  -- The file of the snapshot after the steps of Save: the new content where there is no error, and
  -- else what it was.
  rename_temp_file :
      (o : Outcomes) (e : Option Text) (path content : Text) (fs : Files)
      → get path (rename_temp codec o e path content fs).0
        ≡ (if is_some (rename_temp codec o e path content fs).1 then get path fs else some content)
  unfolding rename_temp
  rename_temp_file o none path content fs = get-put_self path content _
  rename_temp_file o (some e) path content fs = refl

  other_file :
      (path content : Text) (fs : Files)
      → get path (put (temp_path codec path) content fs) ≡ get path fs
  other_file path content fs =
      ground (arith, get-put (temp_path codec path) path content fs, temp_path-ne path)

  write_temp_file :
      (o : Outcomes) (e : Option Text) (path content : Text) (fs : Files)
      → get path (write_temp codec o e path content fs).0
        ≡ (if is_some (write_temp codec o e path content fs).1 then get path fs else some content)
  unfolding write_temp
  write_temp_file o none path content fs =
      rename_temp_file o o.rename_error path content (put (temp_path codec path) content fs)
      ∙ rw (other_file path content fs) refl
  write_temp_file o (some e) path content fs = other_file path o.written fs

  make_dir_file :
      (o : Outcomes) (e : Option Text) (dir path content : Text) (fs : Files)
      → get path (make_dir codec o e dir path content fs).0
        ≡ (if is_some (make_dir codec o e dir path content fs).1 then get path fs else some content)
  unfolding make_dir
  make_dir_file o none dir path content fs = write_temp_file o o.write_error path content fs
  make_dir_file o (some e) dir path content fs = refl

  save_marshalled_file :
      (o : Outcomes) (root service key : Text) (m : Marshalled) (fs : Files)
      → get (save_path codec root service key) (save_marshalled codec o root service key m fs).0 ≡ (
          if is_some (save_marshalled codec o root service key m fs).1
          then get (save_path codec root service key) fs
          else content_of m)
  unfolding save_marshalled
  save_marshalled_file o root service key (unsupported e) fs = refl
  save_marshalled_file o root service key (bytes content) fs =
      make_dir_file o o.mkdir_error _ (save_path codec root service key) content fs

  same_path :
      (root service key : Text)
      → IsCodec codec
      → root ≢ []
      → save_path codec root service key ≡ snapshot_path codec root service key
  unfolding save_path snapshot_path
  same_path root service key laws n = laws.joined_twice root service (key ++ str ".json") n

  -- Load reads the file of the snapshot alone.
  load_file :
      (o : Outcomes) (root service key : Text) (fs gs : Files)
      → IsCodec codec
      → root ≢ []
      → get (snapshot_path codec root service key) fs
        ≡ get (snapshot_path codec root service key) gs
      → load codec o root service key fs ≡ load codec o root service key gs
  unfolding load snapshot_path
  load_file o root service key fs gs laws n e =
      rw (laws.joined root service (key ++ str ".json") n, e) refl

  -- A Save that returns an error leaves the snapshot as it was, whichever step failed: every Load of
  -- it returns what it would have returned before the Save.
  pub load-save_failed :
      (o later : Outcomes) (root service key error : Text) (v : V) (fs : Files)
      → IsCodec codec
      → (save codec o root service key v fs).1 ≡ some error
      → load codec later root service key (save codec o root service key v fs).0
        ≡ load codec later root service key fs
  load-save_failed o later root service key error v fs laws failed =
      load_file later root service key (save codec o root service key v fs).0 fs laws persists
        (kept failed)
    where
      persists : root ≢ []
      persists e = cc (failed, unsaved root e)
        where
          unsaved : (t : Text) → t ≡ [] → (save codec o t service key v fs).1 ≡ none
          unsaved t q = (unfold save in rw (q, text_eq_refl []) refl)

      kept :
          (save codec o root service key v fs).1 ≡ some error
          → get (snapshot_path codec root service key) (save codec o root service key v fs).0
            ≡ get (snapshot_path codec root service key) fs
      kept = rw (← same_path root service key laws persists) (
          unfold save in
          ground (arith, save_marshalled_file o root service key (codec.marshal v) fs))

  saved_file :
      (o : Outcomes) (root service key content : Text) (v : V) (fs : Files)
      → root ≢ []
      → codec.marshal v ≡ bytes content
      → o.mkdir_error ≡ none
      → o.write_error ≡ none
      → o.rename_error ≡ none
      → ((save codec o root service key v fs).1 ≡ none)
        × (get (save_path codec root service key) (save codec o root service key v fs).0
            ≡ some content)
  unfolding save save_marshalled make_dir write_temp rename_temp
  saved_file o root service key content v fs n m dir write rename =
      rw (text_eq-false root [] n, m, dir, write, rename)
        (refl, get-put_self (save_path codec root service key) content _)

  load_content :
      (o : Outcomes) (root service key content : Text) (v : V) (fs : Files)
      → IsCodec codec
      → root ≢ []
      → codec.unmarshal content ≡ value v
      → o.read_error ≡ none
      → get (snapshot_path codec root service key) fs ≡ some content
      → load codec o root service key fs ≡ loaded v
  unfolding load read_snapshot unmarshal_snapshot snapshot_path
  load_content o root service key content v fs laws n m read file =
      rw (text_eq-false root [] n, laws.joined root service (key ++ str ".json") n)
        (rw (read, file) (rw m refl))

  -- Where persistence is on, the state is one that MarshalIndent writes and Unmarshal reads back from
  -- what was written, and no file operation fails, Save returns no error, and a Load after it returns
  -- the state that was saved.
  pub load-save :
      (o later : Outcomes) (root service key content : Text) (v : V) (fs : Files)
      → IsCodec codec
      → root ≢ []
      → codec.marshal v ≡ bytes content
      → codec.unmarshal content ≡ value v
      → o.mkdir_error ≡ none
      → o.write_error ≡ none
      → o.rename_error ≡ none
      → later.read_error ≡ none
      → ((save codec o root service key v fs).1 ≡ none)
        × (load codec later root service key (save codec o root service key v fs).0 ≡ loaded v)
  load-save o later root service key content v fs laws n m reads dir write rename read =
      let (done, file) = saved_file o root service key content v fs n m dir write rename in
      (
        done,
        load_content later root service key content v _ laws n reads read
            (rw (same_path root service key laws n) at file),
      )
