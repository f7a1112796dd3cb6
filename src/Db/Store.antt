-- ===== src/Db/Store.antt =====
-- internal/db/db.go: a connection to the database, its statements and its transactions.
-- The driver may refuse any statement, as on a full disk: `faults` says of each statement to come
-- whether it does (of none, once the list has run out).
pub mod Rules
use distri_max.Prelude.{Bool, false, List, [], ◌∷◌, if◌then◌else◌}
use distri_max.Db.Schema.{Tables}

-- The errors of the packages db and syncer that callers tell apart, and what the driver reports.
pub data Error : Type 0 where
  product_not_found version_not_found user_not_found cannot_disable_last_admin : Error
  session_not_found session_expired api_key_not_found token_not_found : Error
  driver_error constraint_failed : Error

pub data Result {ℓ} (A : Type ℓ) : Type ℓ where
  ok : A → Result A
  err : Error → Result A

pub record Db : Type 0 where
  pub tables : Tables
  pub faults : List Bool

abbrev pub M : Type 0 → Type 0
M A = Db → Result A × Db

-- What follows a statement is left out once one has failed.
abbrev pub continue : {A B : Type 0} → Result A × Db → (A → M B) → Result B × Db
continue (ok a, db) f = f a db
continue (err e, db) f = (err e, db)

infixl 5 ◌>>=◌ ◌>>◌
abbrev pub ◌>>=◌ : {A B : Type 0} → M A → (A → M B) → M B
◌>>=◌ m f db = continue (m db) f

abbrev pub ◌>>◌ : {B : Type 0} → M (Unit {0}) → M B → M B
m >> k = m >>= λ _. k

abbrev pub pure : {A : Type 0} → A → M A
pure a db = (ok a, db)

abbrev pub throw : {A : Type 0} → Error → M A
throw e db = (err e, db)

-- `_ = f(...)` and `if err := f(...); err == nil`: the error becomes a value.
abbrev pub try : {A : Type 0} → M A → M (Result A)
try m db = (ok (m db).0, (m db).1)

abbrev pub refused : List Bool → Bool
refused [] = false
refused (b ∷ bs) = b

abbrev pub later : List Bool → List Bool
later [] = []
later (b ∷ bs) = bs

abbrev pub settle : {A : Type 0} → Result (A × Tables) → Db → Result A × Db
settle (ok (a, t)) db = (ok a, record { tables = t; faults = later db.faults })
settle (err e) db = (err e, record { tables = db.tables; faults = later db.faults })

-- ExecContext: a statement that changes the tables, or fails and leaves them alone.
unfoldable pub exec : {A : Type 0} → (Tables → Result (A × Tables)) → M A
exec statement db =
    if refused db.faults then settle (err driver_error) db else settle (statement db.tables) db

-- QueryContext and Scan: a statement that only reads.
unfoldable pub query : {A : Type 0} → (Tables → Result A) → M A
query read db =
    if refused db.faults
    then (err driver_error, record { tables = db.tables; faults = later db.faults })
    else (read db.tables, record { tables = db.tables; faults = later db.faults })

-- BEGIN and COMMIT, which the driver may refuse too.
abbrev pub control : M (Unit {0})
control = query λ _. ok tt

-- What a transaction that has failed leaves: the tables from before.
abbrev pub roll_back : {A : Type 0} → Tables → Result A × Db → Result A × Db
roll_back t (ok a, db) = (ok a, db)
roll_back t (err e, db) = (err e, record { tables = t; faults = db.faults })

abbrev pub committed : {A : Type 0} → M A → M A
committed body = do control; a ← body; control; pure a

-- WithTx: a transaction whose body has failed is rolled back. No Rollback follows a Commit that has
-- failed, since database/sql counts the transaction as ended then; that it has changed nothing either is
-- the driver's.
unfoldable pub with_tx : {A : Type 0} → M A → M A
with_tx body db = roll_back db.tables (committed body db)

-- A database that refuses no statement.
abbrev pub healthy : Tables → Db
healthy t = record { tables = t; faults = [] }
