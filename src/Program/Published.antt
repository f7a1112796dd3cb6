-- ===== src/Program/Published.antt =====
-- What a published version stands for in the running program: bytes on the disk.
use distri_max.Db.Schema.{Product, ProductVersion}
use distri_max.Db.Sql.{first_where}
use distri_max.Db.Versions.{has_id, is_served}
use distri_max.Prelude.{
  ℕ, ◌≡◌, ◌≢◌, refl, sym, ◌∙◌, ap, subst, false, [], some, Text, ◌==◌, ==-refl, length, All, arith,
  any_item,
}
use distri_max.Program.{Callbacks, filesystem_backend}
use distri_max.Storage.{Outcome, done, fail}
use distri_max.Storage.Filesystem.{
  Disk, FilesystemStorage, resolve_safe_path, staging_dir, staging_file, dest_file, rel_path, below,
  store_artifact,
}
use distri_max.Storage.Filesystem.Atomic.{Stored, refuses, stores, store_artifact-Stored}
use distri_max.Storage.Filesystem.Resolved.{valid}
use distri_max.Storage.Filesystem.Roundtrip.{resolved}
use distri_max.Storage.Paths.{names_of}
use distri_max.Storage.Paths.Inside.{IsPlain}
use distri_max.Syncer.Run.{sync_product}
use distri_max.Syncer.Run.Served.{sync_product-serves}
use distri_max.Syncer.State.{Libraries, Syncer, Process, Moment, SyncResult, reached, success}

-- What has been stored is found under the path that was returned, whichever calls were refused.
module _ (fs : FilesystemStorage) (stamp product version filename bytes : Text) (size : ℕ)
    (h : fs.artifact_root ≢ []) (plain : All IsPlain (names_of fs.artifact_root))
    (apart : (staging_file fs stamp product version filename
        == dest_file fs stamp product version filename)
      ≡ false)
    (outside : below
        (staging_dir fs stamp product version filename)
        (dest_file fs stamp product version filename)
      ≡ false) where
  abbrev OnDisk : Text → Disk → Type 0
  OnDisk path d =
      (full : Text) × (resolve_safe_path fs path ≡ done full) × (d.files full ≡ some bytes)

  stored-OnDisk :
      (d d' : Disk) (path : Text)
      → store_artifact fs stamp product version filename bytes size d ≡ (done path, d')
      → OnDisk path d'
  stored-OnDisk d d' path e = go (store_artifact fs stamp product version filename bytes size d) e (
      store_artifact-Stored fs stamp product version filename bytes
        (dest_file fs stamp product version filename) size d.files apart outside d refl)
    where
      go :
          (x : Outcome Text × Disk)
          → x ≡ (done path, d')
          → Stored fs stamp product version filename bytes
              (dest_file fs stamp product version filename)
              size
              d.files
              apart
              x
          → OnDisk path d'
      go x q (refuses e' k _) =
          absurd (let j : fail e' ≡ done path = sym k ∙ ap (λ y. y.0) q in cc j)
      go x q (stores k _ v f) =
          let j : done (rel_path fs stamp product version filename) ≡ done path =
            sym k ∙ ap (λ y. y.0) q in
          let same : rel_path fs stamp product version filename ≡ path = ground arith in
          (
            dest_file fs stamp product version filename,
            ap (resolve_safe_path fs) (sym same)
                ∙ resolved fs stamp product version filename
                    (valid product (unfold any_item in ground arith))
                    (valid version (unfold any_item in ground arith))
                    (valid filename (unfold any_item in ground arith)) h plain,
            ap (λ y. y.1.files (dest_file fs stamp product version filename)) (sym q)
                ∙ f
                ∙ rw (==-refl (dest_file fs stamp product version filename)) refl,
          )

module _ (lib : Libraries) (s : Syncer Disk Callbacks) (fs : FilesystemStorage) (stamp : Text)
    (at : Moment) (product_id trigger_type : Text) where
  -- After a synchronisation that reports success, in a program whose storage is the filesystem, the
  -- path of the row that the product serves leads to a file whose bytes have the row's checksum and
  -- size, whichever calls the driver and the system have refused; if the artifact root is a path that
  -- does not lead up, and the place of the artifact is not in its staging directory.
  pub sync_product-OnDisk :
      s.storage ≡ filesystem_backend fs stamp
      → fs.artifact_root ≢ []
      → All IsPlain (names_of fs.artifact_root)
      → (p : Process Disk Callbacks) (r : SyncResult) (product : Product)
      → first_where (has_id product_id) p.world.db.tables.products ≡ some product
      → (staging_file fs stamp product_id r.version product.artifact_filename
          == dest_file fs stamp product_id r.version product.artifact_filename)
        ≡ false
      → below
          (staging_dir fs stamp product_id r.version product.artifact_filename)
          (dest_file fs stamp product_id r.version product.artifact_filename)
        ≡ false
      → (sync_product lib s at product_id trigger_type p).0 ≡ reached r
      → r.status ≡ success
      → (row : ProductVersion) × (content full : Text) × (first_where
            (is_served product_id)
            (sync_product lib s at product_id trigger_type p).1.world.db.tables.versions
          ≡ some row)
        × (resolve_safe_path fs row.storage_path ≡ done full)
        × ((sync_product lib s at product_id trigger_type p).1.world.disk.files full ≡ some content)
        × (row.sha256 ≡ lib.sha256_hex content)
        × (row.size_bytes ≡ length content)
  unfolding filesystem_backend
  sync_product-OnDisk b h plain p r product known apart outside e k =
      let v = sync_product-serves lib s at product_id trigger_type p r e k in
      let j : some product ≡ some v.product = sym known ∙ v.known in
      let same : v.product ≡ product = ground arith in
      let kept =
        subst
          (λ st.
            st.store_artifact product_id r.version v.product.artifact_filename v.content
              (length v.content) p.world.disk
            ≡ (
              done v.row.storage_path,
              (sync_product lib s at product_id trigger_type p).1.world.disk,
            ))
          b v.kept in
      let (full, leads, holds) =
        stored-OnDisk fs stamp product_id r.version product.artifact_filename v.content
          (length v.content) h plain apart outside _ _ _
          (subst
            (λ q.
              store_artifact fs stamp product_id r.version q.artifact_filename v.content
                (length v.content) p.world.disk
              ≡ (
                done v.row.storage_path,
                (sync_product lib s at product_id trigger_type p).1.world.disk,
              ))
            same kept) in
      (v.row, v.content, full, v.served, leads, holds, v.sha256 ∙ v.checked, v.size_bytes ∙ v.sized)
