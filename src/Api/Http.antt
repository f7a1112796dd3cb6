-- ===== src/Api/Http.antt =====
-- Requests, responses and handlers as internal/api sees them. `header` and `query` give the first
-- value, or the empty text; the path values are those of the route.
use distri_max.Prelude.{ℕ, Option, none, Text}
use distri_max.Cache.{ProductManifest}
use distri_max.Db.Schema.{Time, ApiKey, DownloadToken}
use distri_max.Db.Store.{Db}

pub record Request : Type 0 where
  pub method : Text
  pub product : Text
  pub filename : Text
  pub header : Text → Text
  pub query : Text → Text
  pub remote_addr : Text

-- The values that the middleware adds to a request's context.
pub record Context : Type 0 where
  pub api_key : Option ApiKey
  pub download_token : Option DownloadToken

abbrev pub no_context : Context
no_context = record { api_key = none; download_token = none }

-- What net/http's ServeContent is given.
pub record Content : Type 0 where
  pub etag : Text
  pub name : Text
  pub modified : Time
  pub body : Text

pub data Response : Type 0 where
  json_error : ℕ → Text → Response
  not_modified : Response
  serve_content : Content → Response
  json_manifest : Text → ProductManifest → Response
  json_success : Response

-- A handler runs against the database, and always answers.
abbrev pub H : Type 0 → Type 0
H A = Db → A × Db

infixl 5 ◌>>=◌
abbrev pub ◌>>=◌ : {A B : Type 0} → H A → (A → H B) → H B
◌>>=◌ h f db = f (h db).0 (h db).1

abbrev pub answer : {A : Type 0} → A → H A
answer a db = (a, db)

abbrev pub Handler : Type 0
Handler = Request → Context → H Response
