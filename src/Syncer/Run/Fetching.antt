-- ===== src/Syncer/Run/Fetching.antt =====
-- How a synchronisation ends from what upstream has answered, and with it the whole of one.
use distri_max.Db.Schema.{Time, Product, ProductVersion}
use distri_max.Db.Settings.{get_setting}
use distri_max.Db.Sql.{first_where}
use distri_max.Db.Versions.{has_id, get_product, get_current_version}
use distri_max.Prelude.{◌≡◌, refl, true, [], Option, some, Text}
use distri_max.Syncer.Archive.{Extraction, extracted, failed, extract_mmdb_from_tar_gz}
use distri_max.Syncer.Maxmind.{Download, refused, unmodified, downloaded, download_database}
use distri_max.Syncer.Run.{
  extraction, validation, version_tag, since, publish, install, fetched, synchronise,
}
use distri_max.Syncer.State.{Libraries, Syncer, World, Moment, SyncResult, continue}
use distri_max.Syncer.Validator.{Validation, valid, invalid, validate_mmdb}
use distri_max.Syncer.Run.Endings.{
  Ends, continue-Ends, Same, Unstored, Reached, read-Unstored, get_product-Known, loaded-Ends,
  configured-Ends, license-Ends, failing-Ends, skip-Ends,
}
use distri_max.Syncer.Run.Publishing.{published-Ends}

module _ {W C : Type 0} (lib : Libraries) (s : Syncer W C) (at : Moment)
    (product_id trigger_type : Text) (start : World W C) where
  abbrev Unchanged : World W C → Type 0
  Unchanged = Same lib s at product_id trigger_type start

  abbrev Untouched : World W C → Type 0
  Untouched = Unstored lib s at product_id trigger_type start

  abbrev Finished : SyncResult → World W C → Type 0
  Finished = Reached lib s at product_id trigger_type start

  module _ (p : Product) (known : first_where (has_id product_id) start.db.tables.products ≡ some p)
      (enabled : p.is_enabled ≡ true) where
    extracted-Ends :
        (account_id license_key : Text) (current : Option ProductVersion) (body : Text)
        (last_modified : Time) (x : Extraction) (w : World W C)
        → download_database lib.send lib.path_escape lib.format_http lib.parse_http s.maxmind
            account_id license_key p.edition_id
            (since lib s at product_id trigger_type current)
            at.now
          ≡ downloaded body last_modified
        → extract_mmdb_from_tar_gz lib.clean lib.base lib.sha256_hex p.artifact_filename
            (lib.read_archive body)
          ≡ x
        → Untouched w
        → Ends Unchanged Finished (
            continue
              (extraction lib s at product_id trigger_type x w)
              (λ artifact. install lib s at product_id trigger_type p artifact last_modified))
    extracted-Ends account_id license_key current body last_modified (failed e) w got q h =
        failing-Ends lib s at product_id trigger_type start {A = SyncResult} Finished [] _ w h.0
    extracted-Ends account_id license_key current body last_modified (extracted content sha256) w
          got q h =
        go (validate_mmdb lib.from_bytes lib.unix content p.edition_id) refl
      where
        go :
            (v : Validation)
            → validate_mmdb lib.from_bytes lib.unix content p.edition_id ≡ v
            → Ends Unchanged Finished (
                continue (validation lib s at product_id trigger_type v w) (λ meta.
                  publish lib s at product_id trigger_type p meta
                    (version_tag lib s at product_id trigger_type meta last_modified)
                    content
                    sha256))
        go (invalid e) k =
            failing-Ends lib s at product_id trigger_type start {A = SyncResult} Finished [] _ w h.0
        go (valid meta) k =
            published-Ends lib s at product_id trigger_type start p account_id license_key current
              body last_modified meta content sha256 known enabled got q k w h

    fetched-Ends :
        (account_id license_key : Text) (current : Option ProductVersion) (d : Download)
        (w : World W C)
        → download_database lib.send lib.path_escape lib.format_http lib.parse_http s.maxmind
            account_id license_key p.edition_id
            (since lib s at product_id trigger_type current)
            at.now
          ≡ d
        → Untouched w
        → Ends Unchanged Finished (fetched lib s at product_id trigger_type p current d w)
    fetched-Ends account_id license_key current (refused e) w q h =
        failing-Ends lib s at product_id trigger_type start {A = SyncResult} Finished [] _ w h.0
    fetched-Ends account_id license_key current unmodified w q h =
        skip-Ends lib s at product_id trigger_type start current w h
    fetched-Ends account_id license_key current (downloaded body last_modified) w q h =
        extracted-Ends account_id license_key current body last_modified _ w q refl h

  pub synchronise-Ends :
      (w : World W C)
      → Untouched w
      → Ends Unchanged Finished (synchronise lib s at product_id trigger_type w)
  unfolding synchronise get_product get_setting get_current_version
  synchronise-Ends w h =
      continue-Ends Unchanged _ Finished _ _
        (loaded-Ends lib s at product_id trigger_type start _ _ (
          read-Unstored lib s at product_id trigger_type start _ w h,
          get_product-Known lib s at product_id trigger_type start w h,
        ))
        λ p w2 h2.
          continue-Ends Unchanged (λ _. Untouched) Finished _ _
            (configured-Ends lib s at product_id trigger_type start _ _ _
              (read-Unstored lib s at product_id trigger_type start _ w2 h2.0))
            λ account w3 h3.
              continue-Ends Unchanged (λ _. Untouched) Finished _ _
                (configured-Ends lib s at product_id trigger_type start _ _ _
                  (read-Unstored lib s at product_id trigger_type start _ w3 h3))
                λ license w4 h4.
                  continue-Ends Unchanged (λ _. Untouched) Finished _ _
                    (license-Ends lib s at product_id trigger_type start license w4 h4)
                    λ license_key w5 h5.
                      fetched-Ends p h2.1 h2.2 account.0 license_key _ _ _ refl
                        (read-Unstored lib s at product_id trigger_type start _ w5 h5)
