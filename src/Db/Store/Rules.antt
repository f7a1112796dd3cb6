-- ===== src/Db/Store/Rules.antt =====
-- Rules for the statements of Db/Store.antt: what a sequence of them keeps, whatever the driver
-- refuses, and what a transaction leaves behind.
use distri_max.Prelude.{List, Bool, ◌≡◌, refl, inl, inr, Bool-cases, arith}
use distri_max.Db.Schema.{Tables}
use distri_max.Db.Store.{
  Error, Result, ok, err, Db, M, ◌>>=◌, continue, try, refused, settle, exec, query, roll_back,
  later, committed, control, with_tx,
}

-- A property of the tables that `m` keeps, on success and on error.
abbrev pub Keeps : {A : Type 0} → (Tables → Type 0) → M A → Type 0
Keeps P m = (db : Db) → P db.tables → P (m db).1.tables

abbrev pub Holds : {A : Type 0} → (Tables → Type 0) → Result (A × Tables) → Type 0
Holds P (ok (a, t)) = P t
Holds P (err e) = Unit

module _ (P : Tables → Type 0) where
  settle-keeps :
      {A : Type 0} (r : Result (A × Tables)) (db : Db)
      → Holds P r
      → P db.tables
      → P (settle r db).1.tables
  settle-keeps (ok (a, t)) db h p = h
  settle-keeps (err e) db h p = p

  pub exec-Keeps :
      {A : Type 0} (statement : Tables → Result (A × Tables))
      → ((t : Tables) → P t → Holds P (statement t))
      → Keeps P (exec statement)
  unfolding exec
  exec-Keeps statement h db p = elim (Bool-cases (refused db.faults)) [
    | inl bad ↦ rw (bad, exec) p
    | inr good ↦ rw (good, exec) (settle-keeps (statement db.tables) db (h db.tables p) p)
  ]

  -- The same from one state, where what the statement leaves is known.
  pub exec-at :
      {A : Type 0} (statement : Tables → Result (A × Tables)) (db : Db)
      → P db.tables
      → Holds P (statement db.tables)
      → P (exec statement db).1.tables
  unfolding exec
  exec-at statement db p h = elim (Bool-cases (refused db.faults)) [
    | inl bad ↦ rw (bad, exec) p
    | inr good ↦ rw (good, exec) (settle-keeps (statement db.tables) db h p)
  ]

  pub query-Keeps : {A : Type 0} (read : Tables → Result A) → Keeps P (query read)
  unfolding query
  query-Keeps read db p = elim (Bool-cases (refused db.faults)) [
    | inl bad ↦ rw (bad, query) p
    | inr good ↦ rw (good, query) p
  ]

  continue-keeps :
      {A B : Type 0} (x : Result A × Db) (f : A → M B)
      → P x.1.tables
      → ((a : A) → Keeps P (f a))
      → P (continue x f).1.tables
  continue-keeps (ok a, db) f p h = h a db p
  continue-keeps (err e, db) f p h = p

  pub bind-Keeps :
      {A B : Type 0} (m : M A) (f : A → M B)
      → Keeps P m
      → ((a : A) → Keeps P (f a))
      → Keeps P (m >>= f)
  bind-Keeps m f hm hf db p = continue-keeps (m db) f (hm db p) hf

  pub try-Keeps : {A : Type 0} (m : M A) → Keeps P m → Keeps P (try m)
  try-Keeps m h db p = h db p

-- What holds of the tables once `m` has succeeded; a failure is a transaction's to undo.
abbrev pub OkTo : {A : Type 0} → (Tables → Type 0) → Result A × Db → Type 0
OkTo Q (ok a, db) = Q db.tables
OkTo Q (err e, db) = Unit

abbrev pub Establishes : {A : Type 0} → (Tables → Type 0) → (Tables → Type 0) → M A → Type 0
Establishes P Q m = (db : Db) → P db.tables → OkTo Q (m db)

module _ (P Q : Tables → Type 0) where
  settle-OkTo : {A : Type 0} (r : Result (A × Tables)) (db : Db) → Holds Q r → OkTo Q (settle r db)
  settle-OkTo (ok (a, t)) db h = h
  settle-OkTo (err e) db h = tt

  pub exec-Establishes :
      {A : Type 0} (statement : Tables → Result (A × Tables))
      → ((t : Tables) → P t → Holds Q (statement t))
      → Establishes P Q (exec statement)
  unfolding exec
  exec-Establishes statement h db p = elim (Bool-cases (refused db.faults)) [
    | inl bad ↦ rw (bad, exec) tt
    | inr good ↦ rw (good, exec) (settle-OkTo (statement db.tables) db (h db.tables p))
  ]

  continue-OkTo :
      {A B : Type 0} (R : Tables → Type 0) (x : Result A × Db) (f : A → M B)
      → OkTo Q x
      → ((a : A) → Establishes Q R (f a))
      → OkTo R (continue x f)
  continue-OkTo R (ok a, db) f p h = h a db p
  continue-OkTo R (err e, db) f p h = tt

  pub bind-Establishes :
      {A B : Type 0} (R : Tables → Type 0) (m : M A) (f : A → M B)
      → Establishes P Q m
      → ((a : A) → Establishes Q R (f a))
      → Establishes P R (m >>= f)
  bind-Establishes R m f hm hf db p = continue-OkTo R (m db) f (hm db p) hf

module _ (P : Tables → Type 0) where
  answer-OkTo : {A : Type 0} (r : Result A) (db : Db) → P db.tables → OkTo P (r, db)
  answer-OkTo (ok a) db p = p
  answer-OkTo (err e) db p = tt

  pub query-Establishes : {A : Type 0} (read : Tables → Result A) → Establishes P P (query read)
  query-Establishes read db p =
      answer-OkTo (query read db).0 (query read db).1 (query-Keeps P read db p)

  roll_back-keeps :
      {A : Type 0} (t : Tables) (x : Result A × Db) → P t → OkTo P x → P (roll_back t x).1.tables
  roll_back-keeps t (ok a, db) p q = q
  roll_back-keeps t (err e, db) p q = p

  -- A transaction keeps what its body re-establishes by its end.
  pub with_tx-Keeps : {A : Type 0} (m : M A) → Establishes P P m → Keeps P (with_tx m)
  unfolding with_tx
  with_tx-Keeps m h db p = roll_back-keeps db.tables (committed m db) p (
      bind-Establishes P P P control _ (query-Establishes _)
        (λ _.
          bind-Establishes P P P m _ h
            (λ a. bind-Establishes P P P control _ (query-Establishes _) (λ _ db' q. q)))
        db p)

module _ (P Q : Tables → Type 0) where
  roll_back-OkTo : {A : Type 0} (t : Tables) (x : Result A × Db) → OkTo Q x → OkTo Q (roll_back t x)
  roll_back-OkTo t (ok a, db) q = q
  roll_back-OkTo t (err e, db) q = tt

  -- A transaction that succeeds leaves what its body does.
  pub with_tx-Establishes : {A : Type 0} (m : M A) → Establishes P Q m → Establishes P Q (with_tx m)
  unfolding with_tx
  with_tx-Establishes m h db p = roll_back-OkTo db.tables (committed m db) (
      bind-Establishes P P Q control _ (query-Establishes P _)
        (λ _.
          bind-Establishes P Q Q m _ h
            (λ a. bind-Establishes Q Q Q control _ (query-Establishes Q _) (λ _ db' q. q)))
        db p)

roll_back_lem :
    {A : Type 0} (t : Tables) (x : Result A × Db) (e : Error)
    → (roll_back t x).0 ≡ err e
    → (roll_back t x).1.tables ≡ t
roll_back_lem t (ok a, db) e h = ground arith
roll_back_lem t (err e', db) e h = refl

-- A transaction that fails leaves the tables as they were.
pub with_tx_atomic :
    {A : Type 0} (m : M A) (db : Db) (e : Error)
    → (with_tx m db).0 ≡ err e
    → (with_tx m db).1.tables ≡ db.tables
unfolding with_tx
with_tx_atomic m db e h = roll_back_lem db.tables (committed m db) e h

-- What follows a query runs on the tables that the query has read.
pub bind_query-Keeps :
    {A B : Type 0} (P : Tables → Type 0) (read : Tables → Result A) (f : A → M B)
    → ((t : Tables) (a : A) (bs : List Bool)
        → P t
        → read t ≡ ok a
        → P (f a (record { tables = t; faults = bs })).1.tables)
    → Keeps P (query read >>= f)
unfolding query
bind_query-Keeps {A} {B} P read f h db p = elim (Bool-cases (refused db.faults)) [
  | inl bad ↦ rw bad p
  | inr good ↦ rw good (go (read db.tables) (λ a e. h db.tables a (later db.faults) p e))
]
  where
    go :
        (r : Result A)
        → ((a : A)
            → r ≡ ok a
            → P (f a (record { tables = db.tables; faults = later db.faults })).1.tables)
        → P (continue (r, record { tables = db.tables; faults = later db.faults }) f).1.tables
    go (ok a) k = k a refl
    go (err e) k = p

-- A successful sequence, taken apart.
pub bind-eq-ok :
    {A B : Type 0} (x : Result A × Db) (f : A → M B) (b : B)
    → (continue x f).0 ≡ ok b
    → (a : A) × (x.0 ≡ ok a) × ((f a x.1).0 ≡ ok b)
bind-eq-ok (ok a, db) f b h = (a, refl, h)
bind-eq-ok (err e, db) f b h = ground arith

-- A successful query has read the tables, and changed nothing.
pub query-eq-ok :
    {A : Type 0} (read : Tables → Result A) (db : Db) (a : A)
    → (query read db).0 ≡ ok a
    → (read db.tables ≡ ok a) × ((query read db).1.tables ≡ db.tables)
unfolding query
query-eq-ok read db a h = elim (Bool-cases (refused db.faults)) [
  | inl bad ↦ absurd (ground arith)
  | inr good ↦ (rw good at h, rw good)
]
