-- ===== src/Storage/Filesystem.antt =====
-- internal/storage/filesystem.go. A disk maps the path of a file to its bytes; directories hold
-- nothing else and are left out, so that creating one, or removing an empty one, changes no file. The
-- system may refuse any call: `faults` says of each call to come whether it does. A refused write
-- has written nothing. `stamp` is the clock's UnixNano in digits. The mutex makes each method one step.
pub mod Atomic
pub mod Resolved
pub mod Roundtrip
pub mod View
use distri_max.Prelude.{
  ℕ, suc, Bool, true, false, not, ◌&&◌, ◌||◌, List, [], ◌∷◌, ◌++◌, Option, none, some, Text, lit,
  ◌==◌, eqb, ltb, length, strip_prefix, is_some, contains, any_item, if◌then◌else◌,
}
use distri_max.Db.Store.{refused, later}
use distri_max.Storage.{
  StorageError, not_found, size_mismatch, invalid_path, failed, Outcome, done, fail,
}
use distri_max.Storage.Paths.{is_abs, clean, join}

abbrev pub Files : Type 0
Files = Text → Option Text

pub record Disk : Type 0 where
  pub files : Files
  pub faults : List Bool

abbrev pub F : Type 0 → Type 0
F A = Disk → Outcome A × Disk

abbrev pub continue : {A B : Type 0} → Outcome A × Disk → (A → F B) → Outcome B × Disk
continue (done a, d) f = f a d
continue (fail e, d) f = (fail e, d)

infixl 5 ◌>>=◌ ◌>>◌
abbrev pub ◌>>=◌ : {A B : Type 0} → F A → (A → F B) → F B
◌>>=◌ m f d = continue (m d) f

abbrev pub ◌>>◌ : {A B : Type 0} → F A → F B → F B
m >> k = m >>= λ _. k

abbrev pub pure : {A : Type 0} → A → F A
pure a d = (done a, d)

abbrev pub throw : {A : Type 0} → StorageError → F A
throw e d = (fail e, d)

-- One call of the system.
unfoldable pub call : {A : Type 0} → (Files → Outcome A × Files) → F A
call f d =
    if refused d.faults
    then (fail failed, record { files = d.files; faults = later d.faults })
    else ((f d.files).0, record { files = (f d.files).1; faults = later d.faults })

abbrev pub put : Text → Option Text → Files → Files
put path content files x = if path == x then content else files x

-- os.MkdirAll
abbrev pub mkdir_all : Text → F (Unit {0})
mkdir_all dir = call λ files. (done tt, files)

-- os.OpenFile with O_CREATE and O_TRUNC
abbrev pub create : Text → F (Unit {0})
create path = call λ files. (done tt, put path (some []) files)

-- io.Copy and Close: the number of bytes written.
abbrev pub write : Text → Text → F ℕ
write path bytes = call λ files. (done (length bytes), put path (some bytes) files)

abbrev pub moved : Text → Text → Files → Option Text → Outcome (Unit {0}) × Files
moved from to files none = (fail failed, files)
moved from to files (some content) = (done tt, put to (some content) (put from none files))

-- os.Rename
abbrev pub rename : Text → Text → F (Unit {0})
rename from to = call λ files. moved from to files (files from)

abbrev pub removed : Text → Files → Option Text → Outcome (Unit {0}) × Files
removed path files none = (fail not_found, files)
removed path files (some content) = (done tt, put path none files)

-- os.Remove
abbrev pub remove : Text → F (Unit {0})
remove path = call λ files. removed path files (files path)

unfoldable pub below : Text → Text → Bool
below dir x = (x == dir) || is_some (strip_prefix (dir ++ lit "/") x)

-- os.RemoveAll
abbrev pub remove_all : Text → F (Unit {0})
remove_all dir = call λ files. (done tt, λ x. if below dir x then none else files x)

abbrev pub content_or_missing : Option Text → Outcome Text
content_or_missing none = fail not_found
content_or_missing (some content) = done content

-- os.Stat, and os.Open with the reading of the whole file.
abbrev pub open_file : Text → F Text
open_file path = call λ files. (content_or_missing (files path), files)

pub record FilesystemStorage : Type 0 where
  pub artifact_root : Text
  pub staging_root : Text

unfoldable pub new_filesystem_storage : Text → Text → F FilesystemStorage
new_filesystem_storage artifact_root staging_root = do
  mkdir_all artifact_root
  mkdir_all staging_root
  pure (record { artifact_root = artifact_root; staging_root = staging_root })

-- os.WriteFile
abbrev pub write_file : Text → Text → F ℕ
write_file path bytes = do create path; write path bytes

-- A deferred call, whose error is ignored.
abbrev pub deferring : {A : Type 0} → F (Unit {0}) → Outcome A × Disk → Outcome A × Disk
deferring cleanup (r, d) = (r, (cleanup d).1)

abbrev pub ignoring : {A : Type 0} → F A → F (Unit {0})
ignoring m d = (done tt, (m d).1)

module _ (fs : FilesystemStorage) (payload stamp dir_stamp : Text) where
  abbrev pub staging_probe : Text
  staging_probe = join fs.staging_root (lit ".probe_" ++ (stamp ++ lit ".tmp"))

  abbrev pub probe_dir : Text
  probe_dir = join fs.artifact_root (lit ".probe_dir_" ++ dir_stamp)

  abbrev pub probe_file : Text
  probe_file = join probe_dir (lit "probe.tmp")

  -- The bytes that were written must be read back.
  abbrev pub read_back : Text → F (Unit {0})
  read_back path = do content ← open_file path; if content == payload then pure tt else throw failed

  abbrev pub check_artifacts : F (Unit {0})
  check_artifacts = do
    mkdir_all probe_dir
    λ d. deferring (remove_all probe_dir) (
        (do write_file probe_file payload; read_back probe_file; ignoring (remove_all probe_dir)) d)

  -- The payload and both probes are named after readings of the clock.
  unfoldable pub check_capabilities : F (Unit {0})
  check_capabilities = do
    mkdir_all fs.staging_root
    mkdir_all fs.artifact_root
    write_file staging_probe payload
    λ d.
        deferring (remove staging_probe)
          ((do read_back staging_probe; remove staging_probe; check_artifacts) d)

unfoldable pub is_invalid : Text → Bool
is_invalid p =
    (((p == []) || contains (lit "..") p) || contains (lit "/") p) || contains (lit "\\") p

unfoldable pub resolve_safe_path : FilesystemStorage → Text → Outcome Text
resolve_safe_path fs storage_path =
    if is_some (strip_prefix (lit "..") (clean storage_path)) || is_abs (clean storage_path)
    then fail invalid_path
    else done (join fs.artifact_root (clean storage_path))

module _ (fs : FilesystemStorage) (stamp product version filename : Text) where
  abbrev pub staging_dir : Text
  staging_dir = join fs.staging_root (product ++ (lit "-" ++ (version ++ (lit "-" ++ stamp))))

  abbrev pub staging_file : Text
  staging_file = join staging_dir filename

  abbrev pub dest_dir : Text
  dest_dir = join fs.artifact_root (product ++ b'/' ∷ version)

  abbrev pub dest_file : Text
  dest_file = join dest_dir filename

  abbrev pub rel_path : Text
  rel_path = join product (version ++ b'/' ∷ filename)

  abbrev pub check_size : ℕ → ℕ → F (Unit {0})
  check_size size written =
      if ltb 0 size && not (eqb written size) then throw size_mismatch else pure tt

  abbrev pub stage : Text → ℕ → F (Unit {0})
  stage bytes size = do
    create staging_file
    written ← write staging_file bytes
    check_size size written

  abbrev pub settle_in : F Text
  settle_in = do mkdir_all dest_dir; rename staging_file dest_file; pure rel_path

  -- The staging directory goes in any case; the error of that is ignored.
  abbrev pub cleaned_up : Outcome Text × Disk → Outcome Text × Disk
  cleaned_up (r, d) = (r, (remove_all staging_dir d).1)

  unfoldable pub store_artifact : Text → ℕ → F Text
  store_artifact bytes size =
      if any_item is_invalid (product ∷ version ∷ filename ∷ [])
      then throw invalid_path
      else (do mkdir_all staging_dir; λ d. cleaned_up ((stage bytes size >> settle_in) d))

module _ (fs : FilesystemStorage) (storage_path : Text) where
  abbrev pub on_resolved : {A : Type 0} → Outcome Text → (Text → F A) → F A
  on_resolved (fail e) f = throw e
  on_resolved (done full) f = f full

  unfoldable pub open_artifact : F Text
  open_artifact = on_resolved (resolve_safe_path fs storage_path) open_file

  abbrev pub ignore_missing : Outcome (Unit {0}) × Disk → Outcome (Unit {0}) × Disk
  ignore_missing (done _, d) = (done tt, d)
  ignore_missing (fail not_found, d) = (done tt, d)
  ignore_missing (fail e, d) = (fail failed, d)

  unfoldable pub delete_artifact : F (Unit {0})
  delete_artifact =
      on_resolved (resolve_safe_path fs storage_path) λ full d. ignore_missing (remove full d)

  abbrev pub expect_size : ℕ → Text → F (Unit {0})
  expect_size expected content =
      if ltb 0 expected && not (eqb (length content) expected) then throw size_mismatch else pure tt

  unfoldable pub verify_artifact : ℕ → F (Unit {0})
  verify_artifact expected = do
    content ← on_resolved (resolve_safe_path fs storage_path) open_file
    expect_size expected content
