-- ===== src/Tests/Files.antt =====
-- The filesystem storage on small disks.
use distri_max.Auth.Crypto.{result, encrypt, decrypt}
use distri_max.Auth.Crypto.Sealed.{decrypt-encrypt}
use distri_max.Prelude.{
  ◌≡◌, ◌≢◌, refl, true, false, [], ◌∷◌, ◌++◌, none, some, Text, lit, ◌==◌, strip_prefix, split,
  contains, any_item, All, arith, if◌then◌else◌,
}
use distri_max.Storage.{done, fail, not_found}
use distri_max.Storage.Filesystem.{
  Files, Disk, FilesystemStorage, is_invalid, resolve_safe_path, staging_dir, staging_file,
  dest_file, below, store_artifact, open_artifact, delete_artifact, put, ◌>>=◌, ◌>>◌,
}
use distri_max.Storage.Filesystem.Atomic.{Stored, store_artifact-Stored}
use distri_max.Storage.Filesystem.Resolved.{resolve_safe_path-inside}
use distri_max.Storage.Filesystem.View.{healthy, stored_files, store-open-delete}
use distri_max.Storage.Paths.{
  is_abs, push_name, clean_names, join_names, rendered, names_of, clean, join,
}
use distri_max.Storage.Paths.Inside.{IsPlain}

abbrev pub local : FilesystemStorage
local = record { artifact_root = lit "/data"; staging_root = lit "/stage" }

-- One artifact is there, and the third call is refused.
abbrev files : Files
files = λ x. if x == lit "/data/city/1/f" then some (lit "old") else none

abbrev failing : Disk
failing = record { files = files; faults = false ∷ false ∷ true ∷ [] }

apart :
    (staging_file local (lit "9") (lit "city") (lit "2") (lit "f") == lit "/data/city/1/f") ≡ false
unfolding ◌==◌ join clean clean_names push_name join_names is_abs names_of strip_prefix split
apart = refl

outside :
    below (staging_dir local (lit "9") (lit "city") (lit "2") (lit "f")) (lit "/data/city/1/f")
    ≡ false
unfolding ◌==◌ join clean clean_names push_name join_names is_abs names_of strip_prefix split below
outside = refl

store_artifact-Stored_example :
    Stored local
      (lit "9")
      (lit "city")
      (lit "2")
      (lit "f")
      (lit "new")
      (lit "/data/city/1/f")
      3
      files
      apart
      (store_artifact local (lit "9") (lit "city") (lit "2") (lit "f") (lit "new") 3 failing)
store_artifact-Stored_example =
    store_artifact-Stored local (lit "9") (lit "city") (lit "2") (lit "f") (lit "new")
      (lit "/data/city/1/f") 3 files apart outside failing refl

rooted : lit "/data" ≢ []
rooted h = cc h

accepted : resolve_safe_path local (lit "city/1/../f") ≡ done (lit "/data/city/f")
unfolding resolve_safe_path ◌==◌ join clean clean_names push_name join_names is_abs names_of
    strip_prefix split
accepted = refl

resolve_safe_path-inside_example :
    (lit "/data/city/f"
      ≡ rendered (is_abs (lit "/data")) (names_of (lit "city/1/../f") ++ names_of (lit "/data")))
    × All IsPlain (names_of (lit "city/1/../f"))
resolve_safe_path-inside_example =
    resolve_safe_path-inside local (lit "city/1/../f") (lit "/data/city/f") rooted accepted

pub plain : All IsPlain (names_of (lit "/data"))
unfolding clean_names push_name is_abs names_of strip_prefix split ◌==◌
plain = (record { is_name = refl; not_empty = refl; not_dot = refl; not_up = refl }, _)

valid_names : any_item is_invalid (lit "city" ∷ lit "2" ∷ lit "f" ∷ []) ≡ false
unfolding any_item is_invalid contains strip_prefix ◌==◌
valid_names = refl

elsewhere :
    below
      (staging_dir local (lit "9") (lit "city") (lit "2") (lit "f"))
      (dest_file local (lit "9") (lit "city") (lit "2") (lit "f"))
    ≡ false
unfolding ◌==◌ join clean clean_names push_name join_names is_abs names_of strip_prefix split below
elsewhere = refl

store-open-delete_example :
    ((store_artifact local (lit "9") (lit "city") (lit "2") (lit "f") (lit "new") 3
          >>= open_artifact local)
        (healthy files)
      ≡ (
        done (lit "new"),
        healthy (stored_files local (lit "9") (lit "city") (lit "2") (lit "f") (lit "new") 3 files),
      ))
    × ((store_artifact local (lit "9") (lit "city") (lit "2") (lit "f") (lit "new") 3 >>= λ path.
            delete_artifact local path >> open_artifact local path)
          (healthy files)
        ≡ (
          fail not_found,
          healthy (
              put (dest_file local (lit "9") (lit "city") (lit "2") (lit "f")) none (
                stored_files local (lit "9") (lit "city") (lit "2") (lit "f") (lit "new") 3 files)),
        ))
store-open-delete_example =
    store-open-delete local (lit "9") (lit "city") (lit "2") (lit "f") (lit "new") 3 files
      valid_names refl rooted plain elsewhere

-- A cipher that puts the key in front of the text.
abbrev toy_key : Text
toy_key = lit "0123456789abcdef0123456789abcdef"

toy_decodes : (s : Text) → some s ≡ some s
toy_decodes s = refl

toy_opens : (key nonce s : Text) → strip_prefix key (key ++ s) ≡ some s
unfolding strip_prefix
toy_opens [] nonce s = refl
toy_opens (c ∷ key) nonce s = ground (arith, toy_opens key nonce s)

encrypted :
    encrypt (λ s. s) (λ key nonce s. key ++ s) (lit "secret") toy_key (some (lit "once"))
    ≡ result (lit "once" ++ (toy_key ++ lit "secret"))
unfolding encrypt
encrypted = refl

decrypt-encrypt_example :
    decrypt some
      (λ key nonce s. strip_prefix key s)
      4
      (lit "once" ++ (toy_key ++ lit "secret"))
      toy_key
    ≡ result (lit "secret")
decrypt-encrypt_example =
    decrypt-encrypt (λ s. s) some (λ key nonce s. key ++ s) (λ key nonce s. strip_prefix key s)
      toy_decodes toy_opens (lit "secret") toy_key (lit "once")
      (lit "once" ++ (toy_key ++ lit "secret")) encrypted
