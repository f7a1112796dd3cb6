-- ===== src/Db/Versions/Retention.antt =====
-- Retention: how long a superseded version is kept.
use distri_max.Prelude.{
  [], ◌∷◌, ◌++◌, ℕ, ◌+◌, ◌*◌, ◌≤◌, ◌<◌, ◌≡◌, refl, true, ◌&&◌, Text, arith, ◌^◌,
}
use native.Mathlib.Nat.{le_trans}
use distri_max.Db.Clock.{day, max_days, add_days, days_duration, add_duration}
use distri_max.Db.Schema.{Time, ProductVersion, Tables}
use distri_max.Db.Sql.{count_where, update_where, count_where-update-le, count_where-append}
use distri_max.Db.Store.Rules.{Keeps}
use distri_max.Db.Versions.{
  is_current_of, has_key, is_expired, demoted, supersede, replaced, inserted, deadline_of,
  publish_new_version, promoted, promote, rollback_to_version,
}
use distri_max.Db.Versions.Others.{publish-Keeps, rollback-Keeps, insert_version-keeps}

-- No row of that key is due for cleanup at `later`.
abbrev pub IsNotDue : Time → Text → Text → Tables → Type 0
IsNotDue later p w t = count_where (λ x. is_expired later x && has_key p w x) t.versions ≤ 0

module _ (later now : Time) (days : ℕ) (p w : Text) where
  supersede-IsNotDue :
      days ≤ max_days
      → later < now + days * day
      → (q : Text) (t : Tables) → IsNotDue later p w t
      → IsNotDue later p w (supersede q now (deadline_of now days) t)
  unfolding supersede is_expired
  supersede-IsNotDue h l q t c =
      le_trans
        (count_where-update-le _ (is_current_of q) (demoted now (deadline_of now days)) t.versions
          (λ x _ e. ground (arith, add_days now days h)))
        c

  -- A row that is current is not due.
  update-IsNotDue :
      (q v : Text) (f : ProductVersion → ProductVersion) (t : Tables)
      → ((x : ProductVersion) → (f x).is_current ≡ true)
      → IsNotDue later p w t
      → IsNotDue later p w (record t { versions = update_where (has_key q v) f t.versions })
  unfolding is_expired
  update-IsNotDue q v f t hf c =
      le_trans (count_where-update-le _ (has_key q v) f t.versions (λ x _ e. ground (arith, hf x)))
        c

  inserted-IsNotDue :
      (v : ProductVersion) (t : Tables)
      → IsNotDue later p w t
      → IsNotDue later p w (record t { versions = t.versions ++ inserted v now ∷ [] })
  unfolding is_expired count_where
  inserted-IsNotDue v t c = omega (
    arith,
    count_where-append (λ x. is_expired later x && has_key p w x) t.versions (inserted v now ∷ []),
  )

-- A version that is not due for cleanup at some time is not made due at that time by a
-- publication, be it the one that is superseded, if the time lies before the end of the retention
-- period and the period is at most 106751 days; whatever the driver refuses.
pub publish-IsNotDue :
    (v : ProductVersion) (days : ℕ) (now later : Time) (p w : Text)
    → days ≤ max_days
    → later < now + days * day
    → Keeps (IsNotDue later p w) (publish_new_version v days now)
publish-IsNotDue v days now later p w h l =
    publish-Keeps (IsNotDue later p w) v days now
      (supersede-IsNotDue later now days p w h l v.product_id)
      (λ t c.
        insert_version-keeps (IsNotDue later p w) v now t
          (update-IsNotDue later now days p w v.product_id v.version (replaced v) t (λ x. refl) c)
          (inserted-IsNotDue later now days p w v t c))

-- A version that is not due for cleanup at some time is not made due at that time by a rollback,
-- be it the one that is demoted, if the time lies before the end of the retention period and the
-- period is at most 106751 days; whatever the driver refuses.
pub rollback-IsNotDue :
    (product version : Text) (days : ℕ) (now later : Time) (p w : Text)
    → days ≤ max_days
    → later < now + days * day
    → Keeps (IsNotDue later p w) (rollback_to_version product version days now)
unfolding promote
rollback-IsNotDue product version days now later p w h l =
    rollback-Keeps (IsNotDue later p w) product version days now
      (supersede-IsNotDue later now days p w h l product)
      (λ t c. update-IsNotDue later now days p w product version promoted t (λ x. refl) c)

-- A retention period of more than 106751 days, and of at most twice that, wraps: the deadline of a
-- version that is superseded now has passed already, the clock being past the year 293.
pub deadline_wraps :
    (now : Time) (days : ℕ)
    → 2 ^ 63 ≤ now
    → max_days < days
    → days ≤ 2 * max_days
    → deadline_of now days < now
unfolding days_duration add_duration
deadline_wraps now days h l u = ground arith
