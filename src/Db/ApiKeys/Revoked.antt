-- ===== src/Db/ApiKeys/Revoked.antt =====
-- A revoked key is out of use.
use distri_max.Prelude.{◌≡◌, refl, ap, not, ◌&&◌, List, [], ◌∷◌, none, some, Text, arith}
use distri_max.Db.Schema.{ApiKey, Tables}
use distri_max.Db.Sql.{
  first_where, select_where, update_where, first_where-eq-none, count_where_of_first,
}
use distri_max.Db.Store.{api_key_not_found, ok, err, healthy, exec, query}
use distri_max.Db.ApiKeys.{
  key_has_id, is_candidate, get_api_keys_by_prefix, revoked, revoke_api_key,
}

candidates :
    (prefix id : Text) (ks : List ApiKey)
    → select_where (is_candidate prefix) (update_where (key_has_id id) revoked ks)
      ≡ select_where (λ k. is_candidate prefix k && not (key_has_id id k)) ks
unfolding select_where update_where is_candidate
candidates prefix id [] = refl
candidates prefix id (k ∷ ks) = ground (arith, candidates prefix id ks)

-- Revoking a key that exists succeeds, if the driver refuses nothing. The candidates for a prefix
-- are then those from before, less the key, and looking them up changes nothing.
pub revoke-candidates :
    (id prefix : Text) (t : Tables) (k : ApiKey)
    → first_where (key_has_id id) t.api_keys ≡ some k
    → ((revoke_api_key id (healthy t)).0 ≡ ok tt)
      × ((get_api_keys_by_prefix prefix (revoke_api_key id (healthy t)).1).0
          ≡ ok (select_where (λ j. is_candidate prefix j && not (key_has_id id j)) t.api_keys))
      × ((get_api_keys_by_prefix prefix (revoke_api_key id (healthy t)).1).1
          ≡ (revoke_api_key id (healthy t)).1)
unfolding revoke_api_key get_api_keys_by_prefix exec query
revoke-candidates id prefix t k e =
    rw (count_where_of_first _ _ _ e) (refl, ap ok (candidates prefix id t.api_keys), refl)

-- Revoking a key that does not exist is reported, if the driver refuses nothing.
pub revoke-missing :
    (id : Text) (t : Tables)
    → first_where (key_has_id id) t.api_keys ≡ none
    → (revoke_api_key id (healthy t)).0 ≡ err api_key_not_found
unfolding revoke_api_key exec
revoke-missing id t e = rw (first_where-eq-none _ _ e)
