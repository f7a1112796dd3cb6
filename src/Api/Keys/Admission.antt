-- ===== src/Api/Keys/Admission.antt =====
-- Which requests an API key lets through.
use distri_max.Prelude.{
  ℕ, Bool, ◌≡◌, ◌↔◌, ◌⊎◌, inl, inr, refl, ap, subst, sym, ◌∙◌, true, false, ◌&&◌, List, [], Option,
  none, some, Text, lit, ◌==◌, ==_iff, is_listed, Bool-cases, arith,
}
use distri_max.Api.Http.{Request, Context, Response, json_error, ◌>>=◌, Handler}
use distri_max.Api.Keys.{
  extract_token, extract_prefix, has_scope, Verdict, deny, admit, is_past, lacks_scope,
  lacks_product, judge_match, judge_candidates, proceed, require_api_key,
}
use distri_max.Db.ApiKeys.{is_candidate, get_api_keys_by_prefix, update_api_key_usage}
use distri_max.Db.Schema.{Time, ApiKey, Tables}
use distri_max.Db.Sql.{first_where, select_where, first_where-select}
use distri_max.Db.Store.{Result, ok, err, Db, query, refused, later, driver_error}

-- What a key must be for a scope, a product and a time.
pub record Grants (scope product : Text) (now : Time) (k : ApiKey) : Type 0 where
  pub active : k.is_revoked ≡ false
  pub live : is_past k.expires_at now ≡ false
  pub scoped : (scope ≡ []) ⊎ ((k.scopes ≡ lit "*") ⊎ (is_listed scope k.scopes ≡ true))
  pub allowed :
      (product ≡ [])
      ⊎ ((k.allowed_products ≡ lit "*") ⊎ (is_listed product k.allowed_products ≡ true))

lacks_scope_iff :
    (scope : Text) (k : ApiKey)
    → (lacks_scope scope k ≡ false)
      ↔ ((scope ≡ []) ⊎ ((k.scopes ≡ lit "*") ⊎ (is_listed scope k.scopes ≡ true)))
unfolding lacks_scope has_scope
lacks_scope_iff scope k = ground (arith, ==_iff scope [], ==_iff k.scopes (lit "*"))

lacks_product_iff :
    (product : Text) (k : ApiKey)
    → (lacks_product product k ≡ false) ↔ (
        (product ≡ [])
        ⊎ ((k.allowed_products ≡ lit "*") ⊎ (is_listed product k.allowed_products ≡ true)))
unfolding lacks_product
lacks_product_iff product k = ground (arith, ==_iff product [], ==_iff k.allowed_products (lit "*"))

judge_match-eq-admit :
    (scope product : Text) (now : Time) (j k : ApiKey)
    → judge_match scope product now (some j) ≡ admit k
    → (j ≡ k)
      × (j.is_revoked ≡ false)
      × (is_past j.expires_at now ≡ false)
      × (lacks_scope scope j ≡ false)
      × (lacks_product product j ≡ false)
unfolding judge_match
judge_match-eq-admit scope product now j k h = ground arith

judge_match-Grants :
    (scope product : Text) (now : Time) (o : Option ApiKey) (k : ApiKey)
    → judge_match scope product now o ≡ admit k
    → (o ≡ some k) × Grants scope product now k
unfolding judge_match
judge_match-Grants scope product now none k h = cc
judge_match-Grants scope product now (some j) k h =
    let (same, active, live, scoped, allowed) = judge_match-eq-admit scope product now j k h in
    (
      ap some same,
      subst (Grants scope product now) same (record {
        active = active;
        live = live;
        scoped = (lacks_scope_iff scope j).0 scoped;
        allowed = (lacks_product_iff product j).0 allowed;
      }),
    )

-- The key that a token stands for among the rows: the first one of its prefix that is not revoked
-- and whose hash it matches.
abbrev pub key_of : (Text → Text → Bool) → Text → Tables → Option ApiKey
key_of verify token t =
    first_where (λ k. is_candidate (extract_prefix token) k && verify token k.key_hash) t.api_keys

module _ (verify : Text → Text → Bool) where
  -- What the middleware does with a request.
  pub data Decides (scope : Text) (next : Handler) (now : Time) (r : Request) (ctx : Context)
      (db : Db) : Response × Db → Type 0 where
    refuses :
        {x : Response × Db} (status : ℕ) (code : Text)
        → x.0 ≡ json_error status code
        → x.1.tables ≡ db.tables
        → Decides scope next now r ctx db x
    passes :
        {x : Response × Db} (k : ApiKey) (bs : List Bool)
        → key_of verify (extract_token r) db.tables ≡ some k
        → Grants scope r.product now k
        → x
          ≡ (do
            _ ← update_api_key_usage k.id r.remote_addr now
            next r (record ctx { api_key = some k }))
              (record { tables = db.tables; faults = bs })
        → Decides scope next now r ctx db x

  -- The candidates of a prefix, or a refusal of the driver.
  candidates :
      (prefix : Text) (db : Db)
      → ((get_api_keys_by_prefix prefix db).1
          ≡ record { tables = db.tables; faults = later db.faults })
        × (((get_api_keys_by_prefix prefix db).0 ≡ err driver_error)
            ⊎ ((get_api_keys_by_prefix prefix db).0
                ≡ ok (select_where (is_candidate prefix) db.tables.api_keys)))
  unfolding get_api_keys_by_prefix query
  candidates prefix db = elim (Bool-cases (refused db.faults)) [
    | inl bad ↦ rw bad (refl, inl refl)
    | inr good ↦ rw good (refl, inr refl)
  ]

  pub key_of-candidates :
      (token : Text) (t : Tables)
      → first_where
          (λ k. verify token k.key_hash)
          (select_where (is_candidate (extract_prefix token)) t.api_keys)
        ≡ key_of verify token t
  key_of-candidates token t = first_where-select _ _ t.api_keys

  judge_candidates-admit :
      (token scope product : Text) (now : Time) (t : Tables) (res : Result (List ApiKey))
      (k : ApiKey)
      → ((res ≡ err driver_error)
          ⊎ (res ≡ ok (select_where (is_candidate (extract_prefix token)) t.api_keys)))
      → judge_candidates verify token scope product now res ≡ admit k
      → (key_of verify token t ≡ some k) × Grants scope product now k
  unfolding judge_candidates
  judge_candidates-admit token scope product now t res k (inl e) h =
      let h' : judge_candidates verify token scope product now (err driver_error) ≡ admit k =
        subst (λ z. judge_candidates verify token scope product now z ≡ admit k) e h in
      absurd (cc h')
  judge_candidates-admit token scope product now t res k (inr e) h =
      let h' = subst (λ z. judge_candidates verify token scope product now z ≡ admit k) e h in
      let (found, g) = judge_match-Grants scope product now _ k h' in
      (sym (key_of-candidates token t) ∙ found, g)

  decide :
      (scope : Text) (next : Handler) (now : Time) (r : Request) (ctx : Context) (db db' : Db)
      (v : Verdict ApiKey)
      → db' ≡ record { tables = db.tables; faults = later db.faults }
      → ((k : ApiKey)
          → v ≡ admit k
          → (key_of verify (extract_token r) db.tables ≡ some k) × Grants scope r.product now k)
      → Decides scope next now r ctx db (proceed next r ctx now v db')
  decide scope next now r ctx db db' (deny status code) e h =
      refuses status code refl (ap (λ (d : Db). d.tables) e)
  decide scope next now r ctx db db' (admit k) e h =
      let (found, g) = h k refl in
      passes k (later db.faults) found g (ap (proceed next r ctx now (admit k)) e)

  -- The next handler runs only with a key that the token stands for, which is not revoked, has not
  -- expired, and has the scope and the product of the request; any other request is answered with
  -- an error, and no table changes.
  pub require_api_key-Decides :
      (scope : Text) (next : Handler) (now : Time) (r : Request) (ctx : Context) (db : Db)
      → Decides scope next now r ctx db (require_api_key verify scope next now r ctx db)
  unfolding require_api_key
  require_api_key-Decides scope next now r ctx db = elim (Bool-cases (extract_token r == [])) [
    | inl missing ↦ rw missing (refuses 401 (lit "unauthorized") refl refl)
    | inr given ↦
        let (same, res) = candidates (extract_prefix (extract_token r)) db in
        rw given (
          decide scope next now r ctx db _ _ same (λ k h.
            judge_candidates-admit (extract_token r) scope r.product now db.tables _ k res h))
  ]
