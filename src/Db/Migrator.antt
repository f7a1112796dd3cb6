-- ===== src/Db/Migrator.antt =====
-- internal/db/migrator.go. `D` is what the scripts change, `execute` their effect on it, none on an
-- error; `atoi` is strconv.Atoi, for versions from 0 on, and `sha256_hex` the checksum in hex. The driver
-- may refuse any statement: `faults` says of each one to come whether it does.
pub mod Applied
pub mod Again
pub mod Replay
pub mod Scripts
use distri_max.Db.Sql.{first_where, order_by}
use distri_max.Db.Store.{refused, later}
use distri_max.Prelude.{
  ℕ, Bool, true, false, not, ◌||◌, List, [], ◌∷◌, ◌++◌, Option, none, some, Text, lit, ◌==◌, eqb,
  leb, if◌then◌else◌,
}

pub record File : Type 0 where
  pub name : Text
  pub is_dir : Bool
  pub content : Option Text

pub record Migration : Type 0 where
  pub version : ℕ
  pub name : Text
  pub content : Text
  pub hash : Text

-- A row of schema_migrations.
pub record Row : Type 0 where
  pub version : ℕ
  pub name : Text
  pub checksum : Text

pub record Schema (D : Type 0) : Type 0 where
  pub rows : List Row
  pub content : D
  pub faults : List Bool

pub data MigrationError : Type 0 where
  invalid_filename unreadable checksum_mismatch statement_failed : MigrationError

pub data Migrated (A : Type 0) : Type 0 where
  migrated : A → Migrated A
  failed : MigrationError → Migrated A

-- strings.HasSuffix
unfoldable pub has_suffix : Text → Text → Bool
has_suffix part [] = part == []
has_suffix part (c ∷ s) = ((c ∷ s) == part) || has_suffix part s

abbrev pub cons_part : ℕ → Option Text → Option Text
cons_part c none = none
cons_part c (some s) = some (c ∷ s)

-- The first part of strings.SplitN(s, "_", 2), none if there is only one.
unfoldable pub first_part : Text → Option Text
first_part [] = none
first_part (c ∷ s) = if eqb c b'_' then some [] else cons_part c (first_part s)

module _ (atoi : Text → Option ℕ) (sha256_hex : Text → Text) where
  abbrev pub add_migration : Migration → Migrated (List Migration) → Migrated (List Migration)
  add_migration m (migrated ms) = migrated (m ∷ ms)
  add_migration m (failed e) = failed e

  abbrev pub read_file :
      ℕ → Text → Option Text → Migrated (List Migration) → Migrated (List Migration)
  read_file version name none rest = failed unreadable
  read_file version name (some content) rest =
      add_migration
        (record { version = version; name = name; content = content; hash = sha256_hex content })
        rest

  abbrev pub numbered : File → Option ℕ → Migrated (List Migration) → Migrated (List Migration)
  numbered f none rest = failed invalid_filename
  numbered f (some version) rest = read_file version f.name f.content rest

  abbrev pub named : File → Option Text → Migrated (List Migration) → Migrated (List Migration)
  named f none rest = rest
  named f (some part) rest = numbered f (atoi part) rest

  unfoldable pub discover : List File → Migrated (List Migration)
  unfolding has_suffix first_part
  discover [] = migrated []
  discover (f ∷ fs) =
      let rest = discover fs in
      if f.is_dir || not (has_suffix (lit ".sql") f.name)
      then rest
      else named f (first_part f.name) rest

unfoldable pub has_version : ℕ → Row → Bool
has_version version r = eqb r.version version

abbrev pub row_of : Migration → Row
row_of m = record { version = m.version; name = m.name; checksum = m.hash }

module _ {D : Type 0} (execute : Text → D → Option D) where
  abbrev pub spent : Schema D → Schema D
  spent s = record s { faults = later s.faults }

  -- A statement on the tables, which the driver may refuse.
  abbrev pub statement :
      (Schema D → Migrated (Unit {0}) × Schema D) → Schema D → Migrated (Unit {0}) × Schema D
  statement f s = if refused s.faults then (failed statement_failed, spent s) else f (spent s)

  abbrev pub with_script :
      Option D
      → Schema D
      → (Schema D → Migrated (Unit {0}) × Schema D)
      → Migrated (Unit {0}) × Schema D
  with_script none s next = (failed statement_failed, s)
  with_script (some content) s next = next (record s { content = content })

  abbrev pub commit : Schema D → Migrated (Unit {0}) × Schema D
  commit = statement λ s. (migrated tt, s)

  abbrev pub insert_row : Migration → Schema D → Migrated (Unit {0}) × Schema D
  insert_row m = statement λ s. commit (record s { rows = s.rows ++ row_of m ∷ [] })

  abbrev pub run_script : Migration → Schema D → Migrated (Unit {0}) × Schema D
  run_script m = statement λ s. with_script (execute m.content s.content) s (insert_row m)

  -- An error puts the tables back.
  abbrev pub rolled_back :
      Schema D → Migrated (Unit {0}) × Schema D → Migrated (Unit {0}) × Schema D
  rolled_back s (migrated _, s') = (migrated tt, s')
  rolled_back s (failed e, s') = (failed e, record s { faults = s'.faults })

  unfoldable pub apply : Migration → Schema D → Migrated (Unit {0}) × Schema D
  apply m s = rolled_back s (statement (run_script m) s)

  abbrev pub unless_recorded : Migration → Option Row → Schema D → Migrated (Unit {0}) × Schema D
  unless_recorded m none s = apply m s
  unless_recorded m (some r) s =
      if r.checksum == m.hash then (migrated tt, s) else (failed checksum_mismatch, s)

  unfoldable pub migrate : Migration → Schema D → Migrated (Unit {0}) × Schema D
  migrate m = statement λ s. unless_recorded m (first_where (has_version m.version) s.rows) s

  abbrev pub followed_by :
      Migrated (Unit {0}) × Schema D
      → (Schema D → Migrated (Unit {0}) × Schema D)
      → Migrated (Unit {0}) × Schema D
  followed_by (migrated _, s) next = next s
  followed_by (failed e, s) next = (failed e, s)

  unfoldable pub migrate_all : List Migration → Schema D → Migrated (Unit {0}) × Schema D
  unfolding migrate
  migrate_all [] s = (migrated tt, s)
  migrate_all (m ∷ ms) s = followed_by (migrate m s) (migrate_all ms)

  abbrev pub sorted : List Migration → List Migration
  sorted ms = order_by (λ m n. leb m.version n.version) ms

  abbrev pub with_migrations : Migrated (List Migration) → Schema D → Migrated (Unit {0}) × Schema D
  with_migrations (failed e) s = (failed e, s)
  with_migrations (migrated ms) s = migrate_all (sorted ms) s

  -- The first statement creates schema_migrations if it is missing.
  unfoldable pub run_migrations :
      (Text → Option ℕ) → (Text → Text) → List File → Schema D → Migrated (Unit {0}) × Schema D
  run_migrations atoi sha256_hex files =
      statement λ s. with_migrations (discover atoi sha256_hex files) s
