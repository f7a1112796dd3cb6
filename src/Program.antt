-- ===== src/Program.antt =====
-- cmd/distrimax/main.go: how the program is put together.
pub mod Fresh
pub mod Published
use distri_max.Cache.{ManifestCache, invalidate}
use distri_max.Db.Schema.{Time, ProductVersion}
use distri_max.Prelude.{
  ℕ, Bool, ◌&&◌, List, [], ◌∷◌, ◌++◌, Option, none, some, Text, lit, ◌==◌, eqb, length,
  if◌then◌else◌,
}
use distri_max.Workers.Webhook.{WebhookEvent, Delivery, send_webhook}
use distri_max.Auth.Crypto.{Crypto, result, failure, decrypt}
use distri_max.Db.Settings.{get_setting}
use distri_max.Db.Store.{Result, ok, err, Db}
use distri_max.Storage.{StorageError, Outcome, done, fail, StorageBackend}
use distri_max.Storage.Filesystem
use distri_max.Storage.Filesystem.{Disk, FilesystemStorage}

-- What the callback of the sync engine changes: the manifest cache, and the versions whose delivery it
-- has started.
pub record Callbacks : Type 0 where
  pub manifest_cache : ManifestCache
  pub deliveries : List ProductVersion

unfoldable pub on_publish : ProductVersion → Callbacks → Callbacks
on_publish v c = record {
  manifest_cache = invalidate c.manifest_cache v.product_id;
  deliveries = c.deliveries ++ v ∷ [];
}

abbrev pub error_of : Outcome (Unit {0}) → Option StorageError
error_of (done _) = none
error_of (fail e) = some e

-- The filesystem storage as the backend of the rest of the program. `stamp` is the clock's reading for
-- the staging directory.
unfoldable pub filesystem_backend : FilesystemStorage → Text → StorageBackend Disk
filesystem_backend fs stamp = record {
  store_artifact = Filesystem.store_artifact fs stamp;
  open_artifact = λ path d. (Filesystem.open_artifact fs path d).0;
  delete_artifact =
      λ path d. let (r, d') = Filesystem.delete_artifact fs path d in (error_of r, d');
  verify_artifact = λ path size d. error_of (Filesystem.verify_artifact fs path size d).0;
}

-- A started delivery: `unbase64`, `unseal` and `nonce_size` are the cipher's of Auth/Crypto.antt.
module _ (unbase64 : Text → Option Text) (unseal : Text → Text → Text → Option Text)
    (nonce_size : ℕ) (w : Delivery) (key new_id : Text) where
  abbrev pub plain_or : Text → Crypto Text → Text
  plain_or val (failure e) = val
  plain_or val (result plain) = plain

  abbrev pub hmac_secret : Result (Text × Bool) → Text
  hmac_secret (err e) = []
  hmac_secret (ok (val, is_encrypted)) =
      if is_encrypted && eqb (length key) 32
      then plain_or val (decrypt unbase64 unseal nonce_size val key)
      else val

  abbrev pub webhook_event : ProductVersion → WebhookEvent
  webhook_event v = record {
    event = lit "product.published";
    event_id = [];
    occurred_at = 0;
    product = v.product_id;
    version = v.version;
    released_at = v.released_at;
    sha256 = v.sha256;
    size_bytes = v.size_bytes;
    download_path = lit "/v1/products/" ++ (v.product_id ++ lit "/download");
  }

  abbrev pub notified : ProductVersion → Text → Result (Text × Bool) × Db → Db
  notified v url (secret, db) =
      (send_webhook w url (hmac_secret secret) new_id (webhook_event v) db).1

  -- Without a URL nothing more is read.
  abbrev pub with_url : ProductVersion → Result (Text × Bool) → Db → Db
  with_url v (err e) db = db
  with_url v (ok (url, is_encrypted)) db =
      if url == [] then db else notified v url (get_setting (lit "webhook_hmac_secret") db)

  unfoldable pub deliver : ProductVersion → Db → Db
  deliver v db = let (url, db') = get_setting (lit "webhook_url") db in with_url v url db'
