-- ===== src/Db/Versions/Consistent.antt =====
-- The invariant of product_versions: each product has at most one current version, and a key or an
-- id has at most one row. Every statement on the table keeps it, whatever the driver refuses.
use native.Mathlib.Nat.{le_trans}
use distri_max.Prelude.{
  ℕ, Bool, subst, ◌≤◌, ◌≡◌, refl, true, false, inl, inr, List, [], ◌∷◌, ◌++◌, Text, ◌==◌, ==_iff,
  Bool-cases, arith, Option, none, some, &&-eq-true, eqb,
}
use distri_max.Db.Schema.{Time, ProductVersion, Tables}
use distri_max.Db.Sql.{
  count_where, first_where, update_where, count_where-update, count_where-update-le,
  count_where-update-le_add, count_where-update_zero, count_where-append, first_where-eq-none,
}
use distri_max.Db.Store.{Result, ok, err, M, query, try}
use distri_max.Db.Store.Rules.{
  Keeps, Holds, Establishes, exec-Keeps, query-Keeps, exec-Establishes, bind-Establishes,
  with_tx-Keeps,
}
use distri_max.Db.Versions.{
  is_some, has_id, is_current_of, has_key, has_row_id, demoted, supersede, replaced, inserted,
  row_id, insert_version, deadline_of, publish_new_version, promoted, promote, repoint, kept_count,
  rollback_to_version, checked_count, purged, mark_version_deleted,
}

pub record IsConsistent (t : Tables) : Type 0 where
  pub one_current : (p : Text) → count_where (is_current_of p) t.versions ≤ 1
  pub one_row : (p v : Text) → count_where (has_key p v) t.versions ≤ 1
  pub one_id : (id : Text) → count_where (has_row_id id) t.versions ≤ 1

-- With no current version of `p` left.
pub record IsVacant (p : Text) (t : Tables) : Type 0 where
  pub consistent : IsConsistent t
  pub vacant : count_where (is_current_of p) t.versions ≡ 0

module _ (p : ProductVersion → Bool) (f : ProductVersion → ProductVersion) where
  -- An update that leaves the key and the id of a row alone.
  update-key :
      ((x : ProductVersion) → (f x).product_id ≡ x.product_id)
      → ((x : ProductVersion) → (f x).version ≡ x.version)
      → (q v : Text) (xs : List ProductVersion)
      → count_where (has_key q v) (update_where p f xs) ≡ count_where (has_key q v) xs
  unfolding has_key
  update-key hp hv q v xs = count_where-update _ p f xs (λ x _. rw (hp x, hv x))

  update-id :
      ((x : ProductVersion) → (f x).id ≡ x.id)
      → (id : Text) (xs : List ProductVersion)
      → count_where (has_row_id id) (update_where p f xs) ≡ count_where (has_row_id id) xs
  unfolding has_row_id
  update-id h id xs = count_where-update _ p f xs (λ x _. rw (h x))

supersede-IsVacant :
    (p : Text) (now deadline : Time) (t : Tables)
    → IsConsistent t
    → IsVacant p (supersede p now deadline t)
unfolding supersede is_current_of
supersede-IsVacant p now deadline t c = record {
  consistent = record {
    one_current = λ q.
        le_trans
          (count_where-update-le _ _ (demoted now deadline) t.versions (λ x _ h. ground arith))
          (c.one_current q);
    one_row = λ q v.
        rw
          (update-key (is_current_of p) (demoted now deadline) (λ x. refl) (λ x. refl) q v
            t.versions)
          (c.one_row q v);
    one_id = λ id.
        rw (update-id (is_current_of p) (demoted now deadline) (λ x. refl) id t.versions)
          (c.one_id id);
  };
  vacant = count_where-update_zero _ _ _ t.versions (λ x _. ground arith) (λ x h. h);
}

-- Promoting the rows of one key, where the product has no current version.
promoted_current :
    (p v : Text) (f : ProductVersion → ProductVersion)
    → ((x : ProductVersion) → (f x).product_id ≡ x.product_id)
    → (t : Tables) → IsVacant p t
    → (q : Text) → count_where (is_current_of q) (update_where (has_key p v) f t.versions) ≤ 1
unfolding is_current_of has_key
promoted_current p v f hp t c q = elim (Bool-cases (p == q)) [
  | inl same ↦
      let e : p ≡ q = (==_iff p q).0 same in
      omega (
        arith,
        count_where-update-le_add (is_current_of q) (has_key p v) f t.versions,
        c.consistent.one_row p v,
        subst (λ z. count_where (is_current_of z) t.versions ≡ 0) e c.vacant,
      )
  | inr other ↦
      le_trans
        (count_where-update-le _ _ f t.versions
          (λ x h k. ground (arith, hp x, ==_iff x.product_id p, ==_iff x.product_id q, ==_iff p q)))
        (c.consistent.one_current q)
]

-- The same for any update to the rows of one key.
promoted-IsConsistent :
    (p v : Text) (f : ProductVersion → ProductVersion) (t : Tables)
    → ((x : ProductVersion) → (f x).product_id ≡ x.product_id)
    → ((x : ProductVersion) → (f x).version ≡ x.version)
    → ((x : ProductVersion) → (f x).id ≡ x.id)
    → IsVacant p t
    → IsConsistent (record t { versions = update_where (has_key p v) f t.versions })
promoted-IsConsistent p v f t hp hv hi c = record {
  one_current = promoted_current p v f hp t c;
  one_row = λ q w. rw (update-key (has_key p v) f hp hv q w t.versions) (c.consistent.one_row q w);
  one_id = λ id. rw (update-id (has_key p v) f hi id t.versions) (c.consistent.one_id id);
}

is_some-eq-false {ℓ} : {A : Type ℓ} (o : Option A) → is_some o ≡ false → o ≡ none
is_some-eq-false none h = refl
is_some-eq-false (some a) h = cc

-- A row whose test no row passes yet may be added.
count_where-add :
    (q : ProductVersion → Bool) (xs : List ProductVersion) (y : ProductVersion)
    → count_where q xs ≤ 1
    → (q y ≡ true → count_where q xs ≡ 0)
    → count_where q (xs ++ y ∷ []) ≤ 1
unfolding count_where
count_where-add q xs y h k = ground (arith, count_where-append q xs (y ∷ []))

inserted-IsConsistent :
    (v : ProductVersion) (now : Time) (t : Tables)
    → IsVacant v.product_id t
    → first_where (has_key v.product_id v.version) t.versions ≡ none
    → first_where (has_row_id (row_id v.product_id v.version)) t.versions ≡ none
    → IsConsistent (record t { versions = t.versions ++ inserted v now ∷ [] })
unfolding is_current_of has_key has_row_id
inserted-IsConsistent v now t c hk hi = record {
  one_current = λ q.
      count_where-add (is_current_of q) t.versions (inserted v now) (c.consistent.one_current q)
        (λ h.
          subst (λ z. count_where (is_current_of z) t.versions ≡ 0)
            ((==_iff v.product_id q).0 (&&-eq-true _ _ h).0) c.vacant);
  one_row = λ q w.
      count_where-add (has_key q w) t.versions (inserted v now) (c.consistent.one_row q w) (λ h.
        let e : v.product_id ≡ q = (==_iff v.product_id q).0 (&&-eq-true _ _ h).0 in
        let e' : v.version ≡ w = (==_iff v.version w).0 (&&-eq-true _ _ h).1 in
        first_where-eq-none _ _ (rw (← e, ← e') hk));
  one_id = λ id.
      count_where-add (has_row_id id) t.versions (inserted v now) (c.consistent.one_id id) (λ h.
        let e : row_id v.product_id v.version ≡ id = (==_iff _ id).0 h in
        first_where-eq-none _ _ (rw (← e) hi));
}

insert_version-Holds :
    (v : ProductVersion) (now : Time) (t : Tables)
    → IsVacant v.product_id t
    → Holds IsConsistent (insert_version v now t)
unfolding insert_version
insert_version-Holds v now t c =
    elim (Bool-cases (is_some (first_where (has_key v.product_id v.version) t.versions))) [
      | inl old ↦
          rw (old, insert_version)
            (promoted-IsConsistent v.product_id v.version (replaced v) t (λ x. refl) (λ x. refl)
              (λ x. refl) c)
      | inr new ↦
          elim (Bool-cases
            (is_some (first_where (has_row_id (row_id v.product_id v.version)) t.versions))) [
              | inl clash ↦ rw (new, clash, insert_version) tt
              | inr free ↦
                  elim (Bool-cases (is_some (first_where (has_id v.product_id) t.products))) [
                    | inl known ↦
                        rw (new, free, known, insert_version)
                          (inserted-IsConsistent v now t c (is_some-eq-false _ new)
                            (is_some-eq-false _ free))
                    | inr unknown ↦ rw (new, free, unknown, insert_version) tt
                  ]
            ]
    ]

-- Publishing, whichever statements the driver refuses, keeps the tables consistent: no product has
-- more than one current version, deleted ones included, and no key and no row id more than one
-- row.
pub publish_new_version-Keeps :
    (v : ProductVersion) (retention_days : ℕ) (now : Time)
    → Keeps IsConsistent (publish_new_version v retention_days now)
unfolding publish_new_version
publish_new_version-Keeps v retention_days now = with_tx-Keeps IsConsistent _ (
    bind-Establishes IsConsistent (IsVacant v.product_id) IsConsistent _ _
      (exec-Establishes IsConsistent (IsVacant v.product_id) _
        (supersede-IsVacant v.product_id now (deadline_of now retention_days)))
      (λ _. exec-Establishes (IsVacant v.product_id) IsConsistent _ (insert_version-Holds v now)))

promote-Holds : (p v : Text) (t : Tables) → IsVacant p t → IsConsistent (promote p v t)
unfolding promote
promote-Holds p v t c = promoted-IsConsistent p v promoted t (λ x. refl) (λ x. refl) (λ x. refl) c

pub checked_count-Establishes :
    (P Q : Tables → Type 0) (r : Result ℕ) (next : M (Unit {0}))
    → Establishes P Q next
    → Establishes P Q (checked_count r next)
checked_count-Establishes P Q (err e) next h db p = tt
checked_count-Establishes P Q (ok n) next h db p = elim (Bool-cases (eqb n 0)) [
  | inl none_kept ↦ rw none_kept tt
  | inr kept ↦ rw kept (h db p)
]

repoint-Establishes :
    (product version : Text) (now deadline : Time)
    → Establishes IsConsistent IsConsistent (repoint product version now deadline)
unfolding repoint
repoint-Establishes product version now deadline =
    bind-Establishes IsConsistent (IsVacant product) IsConsistent _ _
      (exec-Establishes IsConsistent (IsVacant product) _ (supersede-IsVacant product now deadline))
      (λ _. exec-Establishes (IsVacant product) IsConsistent _ (promote-Holds product version))

-- Rolling back, whichever statements the driver refuses, keeps the tables consistent in the same
-- way: at most one current version for a product, and one row for a key and for a row id.
pub rollback_to_version-Keeps :
    (product version : Text) (retention_days : ℕ) (now : Time)
    → Keeps IsConsistent (rollback_to_version product version retention_days now)
unfolding rollback_to_version
rollback_to_version-Keeps product version retention_days now = with_tx-Keeps IsConsistent _ (
    bind-Establishes IsConsistent IsConsistent IsConsistent
      (try (query (kept_count product version))) _
      (query-Keeps IsConsistent (kept_count product version))
      (λ r.
        checked_count-Establishes IsConsistent IsConsistent r _
          (repoint-Establishes product version now (deadline_of now retention_days))))

-- And marking a version as deleted.
pub mark_version_deleted-Keeps : (id : Text) → Keeps IsConsistent (mark_version_deleted id)
unfolding mark_version_deleted is_current_of
mark_version_deleted-Keeps id = exec-Keeps IsConsistent _ λ t c. record {
  one_current = λ q.
      rw (count_where-update (is_current_of q) (has_row_id id) purged t.versions (λ x _. refl))
        (c.one_current q);
  one_row = λ q w.
      rw (update-key (has_row_id id) purged (λ x. refl) (λ x. refl) q w t.versions) (c.one_row q w);
  one_id = λ i. rw (update-id (has_row_id id) purged (λ x. refl) i t.versions) (c.one_id i);
}
