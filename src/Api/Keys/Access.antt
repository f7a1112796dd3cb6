-- ===== src/Api/Keys/Access.antt =====
-- A revoked key lets no request through.
use distri_max.Prelude.{
  Bool, refl, ◌≡◌, ◌≢◌, true, false, not, ◌&&◌, inl, inr, [], some, Text, lit, ◌==◌, ==_iff,
  Bool-cases, arith, All, All-imp,
}
use distri_max.Api.Http.{Request, Context, json_error, Handler}
use distri_max.Api.Keys.{
  extract_token, extract_prefix, judge_match, judge_candidates, require_api_key,
}
use distri_max.Db.ApiKeys.{is_candidate, key_has_id, revoke_api_key}
use distri_max.Db.ApiKeys.Revoked.{revoke-candidates}
use distri_max.Db.Schema.{Time, ApiKey, Tables}
use distri_max.Db.Sql.{first_where, first_where-select_none}
use distri_max.Db.Store.{healthy}

not_both : (c q p : Bool) → (p ≡ true → q ≡ true) → ((c && not q) && p) ≡ false
not_both c q p h = ground arith

module _ (verify : Text → Text → Bool) (scope : Text) (next : Handler) (now : Time) (r : Request)
    (ctx : Context) where
  given : extract_token r ≢ [] → (extract_token r == []) ≡ false
  given h = elim (Bool-cases (extract_token r == [])) [
    | inl e ↦ absurd (h ((==_iff _ _).0 e))
    | inr e ↦ e
  ]

  -- After a key has been revoked, a request whose token matches no other row is refused as having an
  -- invalid key, whichever scope and product it asks for, and the next handler does not run, whatever it
  -- would do: the answer is all, and the database is left as the revocation has left it. This is if
  -- the driver refuses neither the revocation nor the look-up.
  pub require_api_key-revoked :
      (t : Tables) (k : ApiKey) (id : Text)
      → extract_token r ≢ []
      → first_where (key_has_id id) t.api_keys ≡ some k
      → All (λ j. verify (extract_token r) j.key_hash ≡ true → key_has_id id j ≡ true) t.api_keys
      → require_api_key verify scope next now r ctx (revoke_api_key id (healthy t)).1
        ≡ (json_error 401 (lit "invalid_api_key"), (revoke_api_key id (healthy t)).1)
  unfolding require_api_key judge_candidates judge_match
  require_api_key-revoked t k id h e only =
      let prefix = extract_prefix (extract_token r) in
      let (_, found, kept) = revoke-candidates id prefix t k e in
      rw
        (
          given h,
          found,
          kept,
          first_where-select_none (λ j. verify (extract_token r) j.key_hash)
              (λ j. is_candidate prefix j && not (key_has_id id j)) t.api_keys
              (All-imp _ _ (λ j k. not_both (is_candidate prefix j) (key_has_id id j) _ k)
                t.api_keys only),
        )
        refl
