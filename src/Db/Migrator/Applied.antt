-- ===== src/Db/Migrator/Applied.antt =====
-- What the migrations of a run leave, one after the other.
use distri_max.Db.Migrator.{
  Migration, Row, Schema, statement_failed, Migrated, migrated, failed, has_version, row_of, spent,
  statement, with_script, commit, insert_row, run_script, rolled_back, apply, unless_recorded,
  migrate, followed_by, migrate_all,
}
use distri_max.Db.Sql.{first_where}
use distri_max.Db.Store.{refused}
use distri_max.Prelude.{
  ℕ, ◌≡◌, refl, ◌∙◌, ap, Bool, true, inl, inr, Bool-cases, List, [], ◌∷◌, ◌++◌, map, Option, none,
  some, Text, ◌==◌, ==-refl, eqb, All, arith,
}
use distri_max.Db.Migrator.Replay.{Replayed, same-Replayed, one-Replayed, then-Replayed}

eqb_refl : (n : ℕ) → eqb n n ≡ true
eqb_refl n = ground arith

first_where-kept :
    (p : Row → Bool) (xs ys : List Row) (r : Row)
    → first_where p xs ≡ some r
    → first_where p (xs ++ ys) ≡ some r
unfolding first_where
first_where-kept p [] ys r h = absurd (cc h)
first_where-kept p (x ∷ xs) ys r h = elim (Bool-cases (p x)) [
  | inl here ↦ rw here (rw here at h)
  | inr other ↦ rw other (first_where-kept p xs ys r (rw other at h))
]

-- The migration is recorded, with its own checksum.
pub data Recorded (rows : List Row) (m : Migration) : Type 0 where
  recorded :
      (r : Row)
      → first_where (has_version m.version) rows ≡ some r
      → (r.checksum == m.hash) ≡ true
      → Recorded rows m

module _ {D : Type 0} (execute : Text → D → Option D) (P : Migration → Type 0) where
  pub statement_cases :
      (P : Migrated (Unit {0}) × Schema D → Type 0) (f : Schema D → Migrated (Unit {0}) × Schema D)
      (s : Schema D)
      → P (failed statement_failed, spent execute s)
      → P (f (spent execute s))
      → P (statement execute f s)
  statement_cases P f s h k = elim (Bool-cases (refused s.faults)) [
    | inl bad ↦ rw bad h
    | inr good ↦ rw good k
  ]

  -- What the body of the transaction has done if it has succeeded.
  abbrev Inside : Migration → Schema D → Migrated (Unit {0}) × Schema D → Type 0
  Inside m s (migrated _, s') =
      (s'.rows ≡ s.rows ++ row_of m ∷ []) × (execute m.content s.content ≡ some s'.content)
  Inside m s (failed e, s') = Unit

  scripted :
      (m : Migration) (s s1 : Schema D) (o : Option D)
      → s1.rows ≡ s.rows
      → execute m.content s.content ≡ o
      → Inside m s (with_script execute o s1 (insert_row execute m))
  scripted m s s1 none r e = tt
  scripted m s s1 (some content) r e =
      let s2 : Schema D = record s1 { content = content } in
      statement_cases (Inside m s)
        (λ x. commit execute (record x { rows = x.rows ++ row_of m ∷ [] })) s2 tt
        (statement_cases (Inside m s) (λ x. (migrated tt, x))
          (record (spent execute s2) { rows = s1.rows ++ row_of m ∷ [] }) tt
          (ap (λ rows. rows ++ row_of m ∷ []) r, e))

  transaction-Inside :
      (m : Migration) (s : Schema D) → Inside m s (statement execute (run_script execute m) s)
  transaction-Inside m s = statement_cases (Inside m s) (run_script execute m) s tt (
      statement_cases (Inside m s)
        (λ x. with_script execute (execute m.content x.content) x (insert_row execute m))
        (spent execute s) tt
        (scripted m s (spent execute (spent execute s)) (execute m.content s.content) refl refl))

  -- How one migration ends.
  abbrev Outcome : Migration → Schema D → Migrated (Unit {0}) × Schema D → Type 0
  Outcome m s (migrated _, s') = Replayed execute P s s' × Recorded s'.rows m
  Outcome m s (failed e, s') = Replayed execute P s s'

  last_row :
      (m : Migration) (rows : List Row)
      → first_where (has_version m.version) rows ≡ none
      → first_where (has_version m.version) (rows ++ row_of m ∷ []) ≡ some (row_of m)
  unfolding first_where has_version
  last_row m [] h = rw (eqb_refl m.version) refl
  last_row m (x ∷ xs) h = elim (Bool-cases (has_version m.version x)) [
    | inl here ↦ absurd (let k = rw here at h in cc k)
    | inr other ↦ rw other (last_row m xs (rw other at h))
  ]

  rolled_back-Outcome :
      (m : Migration) (s : Schema D) (x : Migrated (Unit {0}) × Schema D)
      → P m
      → first_where (has_version m.version) s.rows ≡ none
      → Inside m s x
      → Outcome m s (rolled_back execute s x)
  rolled_back-Outcome m s (migrated _, s') p n h = (
    one-Replayed execute P m s s' p h.0 h.1,
    recorded (row_of m) (ap (first_where (has_version m.version)) h.0 ∙ last_row m s.rows n)
        (==-refl m.hash),
  )
  rolled_back-Outcome m s (failed e, s') p n h = same-Replayed execute P s _ refl refl

  unless_recorded-Outcome :
      (m : Migration) (s : Schema D) (o : Option Row)
      → P m
      → first_where (has_version m.version) s.rows ≡ o
      → Outcome m s (unless_recorded execute m o s)
  unfolding apply
  unless_recorded-Outcome m s none p e = rolled_back-Outcome m s _ p e (transaction-Inside m s)
  unless_recorded-Outcome m s (some r) p e = elim (Bool-cases (r.checksum == m.hash)) [
    | inl same ↦ rw same (same-Replayed execute P s s refl refl, recorded r e same)
    | inr other ↦ rw other (same-Replayed execute P s s refl refl)
  ]

  migrate-Outcome : (m : Migration) (s : Schema D) → P m → Outcome m s (migrate execute m s)
  unfolding migrate
  migrate-Outcome m s p =
      statement_cases (Outcome m s)
        (λ x. unless_recorded execute m (first_where (has_version m.version) x.rows) x) s
        (same-Replayed execute P s (spent execute s) refl refl)
        (moved _ (
          unless_recorded-Outcome m (spent execute s) (first_where (has_version m.version) s.rows) p
            refl))
    where
      moved : (x : Migrated (Unit {0}) × Schema D) → Outcome m (spent execute s) x → Outcome m s x
      moved (migrated _, s') h = (
        record { new = h.0.new; scripts = h.0.scripts; added = h.0.added; content = h.0.content },
        h.1,
      )
      moved (failed e, s') h = record {
        new = h.new;
        scripts = h.scripts;
        added = h.added;
        content = h.content;
      }

  Recorded-kept :
      (s s' : Schema D) (m : Migration)
      → Replayed execute P s s'
      → Recorded s.rows m
      → Recorded s'.rows m
  Recorded-kept s s' m h (recorded r e c) =
      recorded r
        (ap (first_where (has_version m.version)) h.added
          ∙ first_where-kept _ s.rows (map row_of h.new) r e)
        c

  -- How several end.
  abbrev pub Ending : List Migration → Schema D → Migrated (Unit {0}) × Schema D → Type 0
  Ending ms s (migrated _, s') = Replayed execute P s s' × All (Recorded s'.rows) ms
  Ending ms s (failed e, s') = Replayed execute P s s'

  pub migrate_all-Ending :
      (ms : List Migration) (s : Schema D) → All P ms → Ending ms s (migrate_all execute ms s)
  unfolding migrate_all
  migrate_all-Ending [] s a = (same-Replayed execute P s s refl refl, _)
  migrate_all-Ending (m ∷ ms) s a =
      go (migrate execute m s) (migrate-Outcome m s a.0) (λ s1. migrate_all-Ending ms s1 a.1)
    where
      more :
          (s1 : Schema D) (y : Migrated (Unit {0}) × Schema D)
          → Replayed execute P s s1
          → Recorded s1.rows m
          → Ending ms s1 y
          → Ending (m ∷ ms) s y
      more s1 (migrated _, s2) a r h =
          (then-Replayed execute P s s1 s2 a h.0, (Recorded-kept s1 s2 m h.0 r, h.1))
      more s1 (failed e, s2) a r h = then-Replayed execute P s s1 s2 a h

      go :
          (x : Migrated (Unit {0}) × Schema D)
          → Outcome m s x
          → ((s1 : Schema D) → Ending ms s1 (migrate_all execute ms s1))
          → Ending (m ∷ ms) s (followed_by execute x (migrate_all execute ms))
      go (migrated _, s1) h k = more s1 _ h.0 h.1 (k s1)
      go (failed e, s1) h k = h
