-- ===== src/Api/DownloadAuth/Tokens.antt =====
-- Which requests a temporary download token lets through.
use distri_max.Prelude.{
  ℕ, List, Bool, ◌≤◌, ◌≡◌, ◌≢◌, ◌⊎◌, inl, inr, refl, ap, subst, false, [], Option, some, none, Text,
  lit, ◌==◌, ==_iff, Bool-cases, arith,
}
use distri_max.Api.Http.{Request, Context, Response, json_error, ◌>>=◌, Handler}
use distri_max.Api.Keys.{Verdict, deny, admit}
use distri_max.Api.DownloadAuth.{token_of, judge_token, proceed_token, require_download_auth}
use distri_max.Db.Schema.{Time, DownloadToken, Tables}
use distri_max.Db.Sql.{first_where}
use distri_max.Db.Store.{
  token_not_found, driver_error, Result, ok, err, Db, query, refused, later, healthy,
}
use distri_max.Db.Tokens.{is_token, read_token, get_download_token, increment_download_token_usage}
use distri_max.Db.Versions.{found}

-- What a token must be for a product, the version asked for and a time.
pub record Permits (product version : Text) (now : Time) (d : DownloadToken) : Type 0 where
  pub active : d.is_revoked ≡ false
  pub live : now ≤ d.expires_at
  pub for_product : (product ≡ []) ⊎ (d.product_id ≡ product)
  pub for_version : (d.version ≡ []) ⊎ ((version ≡ []) ⊎ (version ≡ d.version))

judge_token-Permits :
    (product version : Text) (now : Time) (d e : DownloadToken)
    → judge_token product version now (ok d) ≡ admit e
    → (d ≡ e) × Permits product version now d
unfolding judge_token
judge_token-Permits product version now d e h = ground (
  arith,
  ==_iff product [],
  ==_iff d.product_id product,
  ==_iff d.version [],
  ==_iff version [],
  ==_iff version d.version,
)

pub Permits-judge_token :
    (product version : Text) (now : Time) (d : DownloadToken)
    → Permits product version now d
    → judge_token product version now (ok d) ≡ admit d
unfolding judge_token
Permits-judge_token product version now d p = ground (
  arith,
  ==_iff product [],
  ==_iff d.product_id product,
  ==_iff d.version [],
  ==_iff version [],
  ==_iff version d.version,
)

-- What the middleware does with a request that carries a token.
pub data Decides (next : Handler) (now : Time) (r : Request) (ctx : Context) (db : Db)
    : Response × Db → Type 0 where
  refuses :
      {x : Response × Db} (status : ℕ) (code : Text)
      → x.0 ≡ json_error status code
      → x.1.tables ≡ db.tables
      → Decides next now r ctx db x
  passes :
      {x : Response × Db} (d : DownloadToken) (bs : List Bool)
      → first_where (is_token (token_of r)) db.tables.tokens ≡ some d
      → Permits r.product (r.query (lit "version")) now d
      → x
        ≡ (do
          _ ← increment_download_token_usage (token_of r)
          next r (record ctx { download_token = some d }))
            (record { tables = db.tables; faults = bs })
      → Decides next now r ctx db x

looked_up :
    (token : Text) (db : Db)
    → ((get_download_token token db).1 ≡ record { tables = db.tables; faults = later db.faults })
      × (((get_download_token token db).0 ≡ err driver_error)
          ⊎ ((get_download_token token db).0 ≡ read_token token db.tables))
unfolding get_download_token query
looked_up token db = elim (Bool-cases (refused db.faults)) [
  | inl bad ↦ rw bad (refl, inl refl)
  | inr good ↦ rw good (refl, inr refl)
]

admitted :
    (product version : Text) (now : Time) (o : Option DownloadToken) (d : DownloadToken)
    → judge_token product version now (found token_not_found o) ≡ admit d
    → (o ≡ some d) × Permits product version now d
unfolding judge_token
admitted product version now none d h = cc
admitted product version now (some e) d h =
    let (same, p) = judge_token-Permits product version now e d h in
    (ap some same, subst (Permits product version now) same p)

judged :
    (token product version : Text) (now : Time) (t : Tables) (res : Result DownloadToken)
    (d : DownloadToken)
    → (res ≡ err driver_error) ⊎ (res ≡ read_token token t)
    → judge_token product version now res ≡ admit d
    → (first_where (is_token token) t.tokens ≡ some d) × Permits product version now d
unfolding judge_token
judged token product version now t res d (inl e) h =
    let h' = subst (λ z. judge_token product version now z ≡ admit d) e h in absurd (cc h')
judged token product version now t res d (inr e) h =
    admitted product version now (first_where (is_token token) t.tokens) d
      (subst (λ z. judge_token product version now z ≡ admit d) e h)

decide :
    (next : Handler) (now : Time) (r : Request) (ctx : Context) (db db' : Db)
    (v : Verdict DownloadToken)
    → db' ≡ record { tables = db.tables; faults = later db.faults }
    → ((d : DownloadToken)
        → v ≡ admit d
        → (first_where (is_token (token_of r)) db.tables.tokens ≡ some d)
          × Permits r.product (r.query (lit "version")) now d)
    → Decides next now r ctx db (proceed_token next r ctx (token_of r) v db')
decide next now r ctx db db' (deny status code) e h =
    refuses status code refl (ap (λ (x : Db). x.tables) e)
decide next now r ctx db db' (admit d) e h =
    let (f, p) = h d refl in
    passes d (later db.faults) f p (ap (proceed_token next r ctx (token_of r) (admit d)) e)

module _ (verify : Text → Text → Bool) where
  -- A request that carries a download token reaches the handler only if the token is in the table,
  -- not revoked, not past its expiry, issued for the product of the request, and, where it is
  -- restricted to a version, no other version is asked for; any other such request is answered
  -- with an error, no table changes, and the API key of the request is not looked at.
  pub require_download_auth-Decides :
      (next : Handler) (now : Time) (r : Request) (ctx : Context) (db : Db)
      → token_of r ≢ []
      → Decides next now r ctx db (require_download_auth verify next now r ctx db)
  unfolding require_download_auth
  require_download_auth-Decides next now r ctx db h = elim (Bool-cases (token_of r == [])) [
    | inl missing ↦ absurd (h ((==_iff _ _).0 missing))
    | inr given ↦
        let (same, res) = looked_up (token_of r) db in
        rw given (
          decide next now r ctx db _ _ same
            (λ d k. judged (token_of r) r.product _ now db.tables _ d res k))
  ]

  -- A request whose token permits it reaches the handler, with the token in its context and its
  -- counter incremented, if the driver does not refuse the look-up.
  pub require_download_auth-admits :
      (next : Handler) (now : Time) (r : Request) (ctx : Context) (t : Tables) (d : DownloadToken)
      → token_of r ≢ []
      → first_where (is_token (token_of r)) t.tokens ≡ some d
      → Permits r.product (r.query (lit "version")) now d
      → require_download_auth verify next now r ctx (healthy t)
        ≡ (do
          _ ← increment_download_token_usage (token_of r)
          next r (record ctx { download_token = some d }))
            (healthy t)
  unfolding require_download_auth get_download_token query
  require_download_auth-admits next now r ctx t d h e p = elim (Bool-cases (token_of r == [])) [
    | inl missing ↦ absurd (h ((==_iff _ _).0 missing))
    | inr given ↦ rw (given, e, Permits-judge_token r.product (r.query (lit "version")) now d p)
  ]
