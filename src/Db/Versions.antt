-- ===== src/Db/Versions.antt =====
-- internal/db/products.go: the catalogue of products and their published versions.
pub mod Consistent
pub mod Others
pub mod Retention
pub mod Rollback
pub mod Current
pub mod Committed
use distri_max.Prelude.{
  ℕ, ◌≡◌, Bool, true, false, not, ◌&&◌, List, [], ◌∷◌, ◌++◌, Option, none, some, Text, lit, ◌==◌,
  leb, ltb, eqb, if◌then◌else◌, arith,
}
pub use distri_max.Prelude.{is_some}
use distri_max.Db.Clock.{days_duration, add_duration}
use distri_max.Db.Schema.{Time, Product, ProductVersion, Tables}
use distri_max.Db.Sql.{select_where, first_where, update_where, count_where, order_by, text_le}
use distri_max.Db.Store.{
  Error, product_not_found, version_not_found, constraint_failed, Result, ok, err, M, ◌>>=◌, ◌>>◌,
  throw, try, exec, query, with_tx,
}

-- sql.ErrNoRows becomes the package's own error.
abbrev pub found {ℓ} : {A : Type ℓ} → Error → Option A → Result A
found e none = err e
found e (some a) = ok a

pub found-eq-ok {ℓ} :
    {A : Type ℓ} (e : Error) (o : Option A) (a : A) → found e o ≡ ok a → o ≡ some a
found-eq-ok e none a h = cc
found-eq-ok e (some b) a h = ground arith

unfoldable pub has_id : Text → Product → Bool
has_id id p = p.id == id

unfoldable pub get_product : Text → M Product
get_product id = query λ t. found product_not_found (first_where (has_id id) t.products)

unfoldable pub list_products : M (List Product)
list_products = query λ t. ok (order_by (λ p q. text_le p.id q.id) t.products)

-- The WHERE clauses on product_versions.
unfoldable pub is_current_of : Text → ProductVersion → Bool
is_current_of product v = (v.product_id == product) && v.is_current

unfoldable pub is_served : Text → ProductVersion → Bool
is_served product v = ((v.product_id == product) && v.is_current) && not v.is_deleted

unfoldable pub has_key : Text → Text → ProductVersion → Bool
has_key product version v = (v.product_id == product) && (v.version == version)

unfoldable pub is_kept : Text → Text → ProductVersion → Bool
is_kept product version v =
    ((v.product_id == product) && (v.version == version)) && not v.is_deleted

abbrev passed : Time → Option Time → Bool
passed now none = false
passed now (some deadline) = leb deadline now

unfoldable pub is_expired : Time → ProductVersion → Bool
is_expired now v = (not v.is_current && not v.is_deleted) && passed now v.cleanup_deadline

unfoldable pub has_row_id : Text → ProductVersion → Bool
has_row_id id v = v.id == id

unfoldable pub get_current_version : Text → M ProductVersion
get_current_version product =
    query λ t. found version_not_found (first_where (is_served product) t.versions)

unfoldable pub get_product_version : Text → Text → M ProductVersion
get_product_version product version =
    query λ t. found version_not_found (first_where (is_kept product version) t.versions)

-- ORDER BY released_at DESC
unfoldable pub list_product_versions : Text → M (List ProductVersion)
list_product_versions product = query λ t. ok (
    order_by (λ v w. leb w.released_at v.released_at)
      (select_where (λ v. (v.product_id == product) && not v.is_deleted) t.versions))

abbrev pub demoted : Time → Time → ProductVersion → ProductVersion
demoted now deadline v = record v {
  is_current = false;
  superseded_at = some now;
  cleanup_deadline = some deadline;
}

-- UPDATE product_versions SET is_current = 0, ... WHERE product_id = ? AND is_current = 1
unfoldable pub supersede : Text → Time → Time → Tables → Tables
supersede product now deadline t = record t {
  versions = update_where (is_current_of product) (demoted now deadline) t.versions;
}

-- The id of a row: fmt.Sprintf("%s:%s", v.ProductID, v.Version)
abbrev pub row_id : Text → Text → Text
row_id product version = product ++ (lit ":" ++ version)

-- DO UPDATE SET: the row keeps its id, its released_at and its created_at.
abbrev pub replaced : ProductVersion → ProductVersion → ProductVersion
replaced new v = record v {
  sha256 = new.sha256;
  size_bytes = new.size_bytes;
  storage_backend = new.storage_backend;
  storage_path = new.storage_path;
  is_current = true;
  superseded_at = none;
  cleanup_deadline = none;
  is_deleted = false;
}

-- PublishNewVersion sets the id of the caller's version.
abbrev pub with_row_id : ProductVersion → ProductVersion
with_row_id v = record v { id = row_id v.product_id v.version }

abbrev pub inserted : ProductVersion → Time → ProductVersion
inserted v now = record v {
  id = row_id v.product_id v.version;
  is_current = true;
  superseded_at = none;
  cleanup_deadline = none;
  is_deleted = false;
  created_at = now;
}

-- INSERT ... ON CONFLICT(product_id, version): a row with that key is updated. Otherwise the
-- primary key and the reference to products refuse a row that breaks them.
unfoldable pub insert_version : ProductVersion → Time → Tables → Result (Unit {0} × Tables)
insert_version v now t =
    if is_some (first_where (has_key v.product_id v.version) t.versions)
    then ok (
      tt,
      record t { versions = update_where (has_key v.product_id v.version) (replaced v) t.versions },
    )
    else if is_some (first_where (has_row_id (row_id v.product_id v.version)) t.versions)
    then err constraint_failed
    else if is_some (first_where (has_id v.product_id) t.products)
    then ok (tt, record t { versions = t.versions ++ inserted v now ∷ [] })
    else err constraint_failed

abbrev pub deadline_of : Time → ℕ → Time
deadline_of now retention_days = add_duration now (days_duration retention_days)

unfoldable pub publish_new_version : ProductVersion → ℕ → Time → M (Unit {0})
publish_new_version v retention_days now = with_tx do
  exec (λ t. ok (tt, supersede v.product_id now (deadline_of now retention_days) t))
  exec (insert_version v now)

abbrev pub promoted : ProductVersion → ProductVersion
promoted v = record v { is_current = true; superseded_at = none; cleanup_deadline = none }

unfoldable pub promote : Text → Text → Tables → Tables
promote product version t = record t {
  versions = update_where (has_key product version) promoted t.versions;
}

-- The check's own failure is reported as a missing version, too.
abbrev pub checked_count : Result ℕ → M (Unit {0}) → M (Unit {0})
checked_count (err e) next = throw version_not_found
checked_count (ok n) next = if eqb n 0 then throw version_not_found else next

-- Demote the current version, then promote the one asked for.
unfoldable pub repoint : Text → Text → Time → Time → M (Unit {0})
repoint product version now deadline = do
  exec (λ t. ok (tt, supersede product now deadline t))
  exec (λ t. ok (tt, promote product version t))

abbrev pub kept_count : Text → Text → Tables → Result ℕ
kept_count product version t = ok (count_where (is_kept product version) t.versions)

unfoldable pub rollback_to_version : Text → Text → ℕ → Time → M (Unit {0})
unfolding repoint
rollback_to_version product version retention_days now = with_tx do
  count ← try (query (kept_count product version))
  checked_count count (repoint product version now (deadline_of now retention_days))

unfoldable pub get_expired_versions : Time → M (List ProductVersion)
get_expired_versions now = query λ t. ok (select_where (is_expired now) t.versions)

abbrev pub purged : ProductVersion → ProductVersion
purged v = record v { is_deleted = true; storage_path = [] }

unfoldable pub mark_version_deleted : Text → M (Unit {0})
mark_version_deleted id =
    exec λ t. ok (tt, record t { versions = update_where (has_row_id id) purged t.versions })

abbrev pub with_defaults : Text → ℕ → ℕ → Time → Product → Product
with_defaults cron staleness_days retention_days now p = record p {
  sync_schedule_cron = if cron == [] then p.sync_schedule_cron else cron;
  staleness_days = if ltb 0 staleness_days then staleness_days else p.staleness_days;
  retention_days = if ltb 0 retention_days then retention_days else p.retention_days;
  updated_at = now;
}

unfoldable pub update_products_defaults : Text → ℕ → ℕ → Time → M (Unit {0})
update_products_defaults cron staleness_days retention_days now = exec λ t. ok (
  tt,
  record t {
    products =
        update_where (λ p. true) (with_defaults cron staleness_days retention_days now) t.products;
  },
)
