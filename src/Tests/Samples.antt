-- ===== src/Tests/Samples.antt =====
-- A catalogue of one product with two versions, and who may download them.
use distri_max.Prelude.{
  Bool, true, false, [], ◌∷◌, none, some, Text, lit, ◌==◌, ==_iff, arith, if◌then◌else◌,
}
use distri_max.Api.Http.{Request, Content, Handler, answer, json_success}
use distri_max.Api.Download.{Env}
use distri_max.Cache.{ProductManifest}
use distri_max.Db.Schema.{
  Product, ProductVersion, User, Session, ApiKey, DownloadToken, AuditLog, Tables,
}
use distri_max.Db.Sql.{count_where}
use distri_max.Db.Versions.{is_current_of, has_key, has_row_id}
use distri_max.Db.Versions.Consistent.{IsConsistent}
use distri_max.Storage.{done, fail, not_found}

abbrev pub city : Product
city = record {
  id = lit "city";
  edition_id = lit "GeoLite2-City";
  display_name = lit "City";
  artifact_filename = lit "GeoLite2-City.mmdb";
  is_enabled = true;
  sync_schedule_cron = lit "0 3 * * *";
  retention_days = 30;
  staleness_days = 7;
  created_at = 0;
  updated_at = 0;
}

-- Served at the moment.
abbrev pub second : ProductVersion
second = record {
  id = lit "city:2";
  product_id = lit "city";
  version = lit "2";
  released_at = 20;
  sha256 = lit "bb";
  size_bytes = 4;
  storage_backend = lit "filesystem";
  storage_path = lit "city/2/f";
  is_current = true;
  superseded_at = none;
  cleanup_deadline = none;
  is_deleted = false;
  created_at = 20;
}

-- Superseded, and due for cleanup at 50.
abbrev pub first : ProductVersion
first = record second {
  id = lit "city:1";
  version = lit "1";
  released_at = 10;
  sha256 = lit "aa";
  storage_path = lit "city/1/f";
  is_current = false;
  superseded_at = some 20;
  cleanup_deadline = some 50;
}

abbrev pub third : ProductVersion
third = record second { id = []; version = lit "3"; released_at = 30; sha256 = lit "cc" }

abbrev pub alice : User
alice = record {
  id = lit "a";
  username = lit "alice";
  password_hash = lit "h";
  is_disabled = false;
  created_at = 0;
  updated_at = 0;
}

abbrev pub bob : User
bob = record alice { id = lit "b"; username = lit "bob" }

abbrev pub login : Session
login = record {
  id = lit "s";
  user_id = lit "a";
  expires_at = 90;
  created_at = 0;
  last_active_at = 0;
}

abbrev pub key_token : Text
key_token = lit "mm_0123456789abcdef"

-- Its hash is the token, for the comparison below.
abbrev pub reader : ApiKey
reader = record {
  id = lit "k";
  key_prefix = lit "mm_0123456789abc";
  key_hash = key_token;
  display_name = lit "reader";
  scopes = lit "download,manifest";
  allowed_products = lit "*";
  rate_limit_per_min = 60;
  is_revoked = false;
  expires_at = none;
  last_used_at = none;
  last_used_ip = none;
  created_at = 0;
}

abbrev pub link : DownloadToken
link = record {
  token = lit "tok";
  product_id = lit "city";
  version = lit "1";
  created_by = lit "a";
  created_at = 0;
  expires_at = 90;
  download_count = 0;
  is_revoked = false;
}

abbrev pub catalogue : Tables
catalogue = record {
  products = city ∷ [];
  versions = first ∷ second ∷ [];
  users = alice ∷ bob ∷ [];
  sessions = login ∷ [];
  api_keys = reader ∷ [];
  tokens = link ∷ [];
  settings = [];
  audit_logs = [];
  sync_runs = [];
  webhook_deliveries = [];
}

pub catalogue-IsConsistent : IsConsistent catalogue
unfolding count_where is_current_of has_key has_row_id ◌==◌
catalogue-IsConsistent = record {
  one_current = λ p. ground arith;
  one_row = λ p v. ground (arith, ==_iff (lit "1") v, ==_iff (lit "2") v);
  one_id = λ id. ground (arith, ==_iff (lit "city:1") id, ==_iff (lit "city:2") id);
}

-- A request without a header or a query.
abbrev bare_request : Request
bare_request = record {
  method = lit "GET";
  product = lit "city";
  filename = [];
  header = λ name. [];
  query = λ name. [];
  remote_addr = lit "10.0.0.1:9";
}

abbrev pub key_request : Request
key_request = record bare_request {
  header = λ name. if name == lit "X-API-Key" then key_token else [];
}

abbrev pub link_request : Request
link_request = record bare_request { query = λ name. if name == lit "token" then lit "tok" else [] }

abbrev pub env : Env
env = record {
  path_unescape = some;
  parse_time = λ s. none;
  open_artifact = λ path. if path == lit "city/1/f" then done (lit "data") else fail not_found;
}

abbrev pub verify : Text → Text → Bool
verify token hash = token == hash

abbrev pub next : Handler
next r ctx = answer json_success

abbrev pub manifest : ProductManifest
manifest = record {
  product = lit "city";
  edition_id = lit "GeoLite2-City";
  version = lit "2";
  released_at = 20;
  sha256 = lit "bb";
  size_bytes = 4;
  filename = lit "GeoLite2-City.mmdb";
  download_url = [];
}

abbrev pub log : AuditLog
log = record {
  id = lit "l";
  timestamp = 99;
  source_ip = lit "10.0.0.1";
  method = lit "GET";
  path = lit "/";
  status = 200;
  duration_ms = 1;
  bytes_sent = 5;
  api_key_id = none;
  product_id = none;
  version = none;
  user_agent = [];
  failure_reason = none;
}

-- What the download of the link is answered with.
abbrev pub content : Content
content = record {
  etag = lit "\"aa\"";
  name = lit "GeoLite2-City.mmdb";
  modified = 10;
  body = lit "data";
}
