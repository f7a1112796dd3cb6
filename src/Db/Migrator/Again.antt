-- ===== src/Db/Migrator/Again.antt =====
-- A run of the migrations, and the next start of the program.
use distri_max.Db.Migrator.{
  File, Migration, Schema, Migrated, migrated, failed, discover, spent, migrate, migrate_all,
  sorted, with_migrations, run_migrations,
}
use distri_max.Db.Migrator.Applied.{Recorded, recorded, Ending, migrate_all-Ending, statement_cases}
use distri_max.Db.Migrator.Replay.{Replayed, same-Replayed}
use distri_max.Db.Migrator.Scripts.{IsScript, discovered-IsScript}
use distri_max.Db.Sql.{order_by-All}
use distri_max.Db.Store.{refused}
use distri_max.Prelude.{ℕ, ◌≡◌, refl, inl, inr, Bool-cases, List, [], ◌∷◌, Option, Text, All}

module _ {D : Type 0} (execute : Text → D → Option D) (atoi : Text → Option ℕ)
    (sha256_hex : Text → Text) (files : List File) where
  sorted-IsScript :
      (ms : List Migration)
      → All (IsScript atoi sha256_hex files) ms
      → All (IsScript atoi sha256_hex files) (sorted execute ms)
  sorted-IsScript ms a = order_by-All (IsScript atoi sha256_hex files) _ ms a

  -- Whatever the driver refuses, a run of the migrations, finished or not, has executed, one after the
  -- other and each of them as a whole, exactly the scripts that it has recorded, with their checksums:
  -- and these are the contents of files of the directory, under the numbers of their names.
  pub run_migrations-Replayed :
      (s : Schema D)
      → Replayed execute
          (IsScript atoi sha256_hex files)
          s
          (run_migrations execute atoi sha256_hex files s).1
  unfolding run_migrations
  run_migrations-Replayed s =
      statement_cases execute (IsScript atoi sha256_hex files)
        (λ x. Replayed execute (IsScript atoi sha256_hex files) s x.1)
        (λ x. with_migrations execute (discover atoi sha256_hex files) x) s
        (same-Replayed execute (IsScript atoi sha256_hex files) s (spent execute s) refl refl)
        (go (discover atoi sha256_hex files) (discovered-IsScript atoi sha256_hex files))
    where
      ended :
          (ms : List Migration) (x : Migrated (Unit {0}) × Schema D)
          → Ending execute (IsScript atoi sha256_hex files) ms (spent execute s) x
          → Replayed execute (IsScript atoi sha256_hex files) s x.1
      ended ms (migrated _, s') h = record {
        new = h.0.new;
        scripts = h.0.scripts;
        added = h.0.added;
        content = h.0.content;
      }
      ended ms (failed e, s') h = record {
        new = h.new;
        scripts = h.scripts;
        added = h.added;
        content = h.content;
      }

      go :
          (d : Migrated (List Migration))
          → ((ms : List Migration) → d ≡ migrated ms → All (IsScript atoi sha256_hex files) ms)
          → Replayed execute
              (IsScript atoi sha256_hex files)
              s
              (with_migrations execute d (spent execute s)).1
      go (failed e) a =
          same-Replayed execute (IsScript atoi sha256_hex files) s (spent execute s) refl refl
      go (migrated ms) a = ended (sorted execute ms) _ (
          migrate_all-Ending execute (IsScript atoi sha256_hex files) (sorted execute ms)
            (spent execute s) (sorted-IsScript ms (a ms refl)))

  abbrev pub healthy : Schema D → Schema D
  healthy s = record s { faults = [] }

  migrate_all-again :
      (ms : List Migration) (s : Schema D)
      → All (Recorded s.rows) ms
      → migrate_all execute ms (healthy s) ≡ (migrated tt, healthy s)
  unfolding migrate_all migrate
  migrate_all-again [] s a = refl
  migrate_all-again (m ∷ ms) s (recorded r e c, a) = rw (e, c) (migrate_all-again ms s a)

  -- After a run that has succeeded, the next run, if the driver refuses nothing, succeeds too, and
  -- changes nothing.
  pub run_migrations-again :
      (s : Schema D)
      → (run_migrations execute atoi sha256_hex files s).0 ≡ migrated tt
      → run_migrations execute atoi sha256_hex files
          (healthy (run_migrations execute atoi sha256_hex files s).1)
        ≡ (migrated tt, healthy (run_migrations execute atoi sha256_hex files s).1)
  unfolding run_migrations
  run_migrations-again s e = elim (Bool-cases (refused s.faults)) [
    | inl bad ↦ absurd (let k = rw bad at e in cc k)
    | inr good ↦ rw good (
        go (discover atoi sha256_hex files) (discovered-IsScript atoi sha256_hex files)
          (rw good at e))
  ]
    where
      settled :
          (ms : List Migration) (x : Migrated (Unit {0}) × Schema D)
          → Ending execute (IsScript atoi sha256_hex files) ms (spent execute s) x
          → x.0 ≡ migrated tt
          → migrate_all execute ms (healthy x.1) ≡ (migrated tt, healthy x.1)
      settled ms (migrated _, s') h k = migrate_all-again ms s' h.1
      settled ms (failed e', s') h k = absurd (cc k)

      go :
          (d : Migrated (List Migration))
          → ((ms : List Migration) → d ≡ migrated ms → All (IsScript atoi sha256_hex files) ms)
          → (with_migrations execute d (spent execute s)).0 ≡ migrated tt
          → with_migrations execute d (healthy (with_migrations execute d (spent execute s)).1)
            ≡ (migrated tt, healthy (with_migrations execute d (spent execute s)).1)
      go (failed e') a k = absurd (cc k)
      go (migrated ms) a k =
          settled (sorted execute ms) _
            (migrate_all-Ending execute (IsScript atoi sha256_hex files) (sorted execute ms)
              (spent execute s) (sorted-IsScript ms (a ms refl)))
            k
