-- ===== src/Db/Migrator/Scripts.antt =====
-- Where the scripts come from that a run may execute.
use distri_max.Db.Migrator.{
  File, Migration, Migrated, migrated, failed, has_suffix, first_part, read_file, numbered, named,
  discover,
}
use distri_max.Prelude.{
  ℕ, ◌≡◌, refl, subst, true, false, not, ◌||◌, inl, inr, Bool-cases, List, [], ◌∷◌, Option, none,
  some, Text, lit, All, All-imp, Listed, here, there, arith,
}

module _ (atoi : Text → Option ℕ) (sha256_hex : Text → Text) where
  -- A migration that stands for a file of the directory: with the file's name and contents, the number
  -- that the name begins with, and the checksum of the contents.
  pub record IsScript (files : List File) (m : Migration) : Type 0 where
    pub file : File
    pub listed : Listed file files
    pub plain : file.is_dir ≡ false
    pub sql : has_suffix (lit ".sql") file.name ≡ true
    pub name : m.name ≡ file.name
    pub part : Text
    pub split_off : first_part file.name ≡ some part
    pub version : atoi part ≡ some m.version
    pub content : file.content ≡ some m.content
    pub hash : m.hash ≡ sha256_hex m.content

  later : (f : File) (fs : List File) (m : Migration) → IsScript fs m → IsScript (f ∷ fs) m
  later f fs m h = record {
    file = h.file;
    listed = there h.listed;
    plain = h.plain;
    sql = h.sql;
    name = h.name;
    part = h.part;
    split_off = h.split_off;
    version = h.version;
    content = h.content;
    hash = h.hash;
  }

  abbrev AllScripts : List File → Migrated (List Migration) → Type 0
  AllScripts files (failed e) = Unit {0}
  AllScripts files (migrated ms) = All (IsScript files) ms

  AllScripts-later :
      (f : File) (fs : List File) (d : Migrated (List Migration))
      → AllScripts fs d
      → AllScripts (f ∷ fs) d
  AllScripts-later f fs (failed e) h = tt
  AllScripts-later f fs (migrated ms) h = All-imp _ _ (later f fs) ms h

  module _ (f : File) (fs : List File) (plain : f.is_dir ≡ false)
      (sql : has_suffix (lit ".sql") f.name ≡ true) (part : Text)
      (split_off : first_part f.name ≡ some part) where
    read_file-AllScripts :
        (v : ℕ) (o : Option Text) (rest : Migrated (List Migration))
        → atoi part ≡ some v
        → f.content ≡ o
        → AllScripts (f ∷ fs) rest
        → AllScripts (f ∷ fs) (read_file atoi sha256_hex v f.name o rest)
    read_file-AllScripts v none rest n e h = tt
    read_file-AllScripts v (some content) (failed e') n e h = tt
    read_file-AllScripts v (some content) (migrated ms) n e h = (
      record {
        file = f;
        listed = here;
        plain = plain;
        sql = sql;
        name = refl;
        part = part;
        split_off = split_off;
        version = n;
        content = e;
        hash = refl;
      },
      h,
    )

    numbered-AllScripts :
        (o : Option ℕ) (rest : Migrated (List Migration))
        → atoi part ≡ o
        → AllScripts (f ∷ fs) rest
        → AllScripts (f ∷ fs) (numbered atoi sha256_hex f o rest)
    numbered-AllScripts none rest n h = tt
    numbered-AllScripts (some v) rest n h = read_file-AllScripts v f.content rest n refl h

  named-AllScripts :
      (f : File) (fs : List File) (o : Option Text) (rest : Migrated (List Migration))
      → f.is_dir ≡ false
      → has_suffix (lit ".sql") f.name ≡ true
      → first_part f.name ≡ o
      → AllScripts (f ∷ fs) rest
      → AllScripts (f ∷ fs) (named atoi sha256_hex f o rest)
  named-AllScripts f fs none rest plain sql e h = h
  named-AllScripts f fs (some part) rest plain sql e h =
      numbered-AllScripts f fs plain sql part e (atoi part) rest refl h

  discover-AllScripts : (files : List File) → AllScripts files (discover atoi sha256_hex files)
  unfolding discover
  discover-AllScripts [] = tt
  discover-AllScripts (f ∷ fs) =
      let h = AllScripts-later f fs (discover atoi sha256_hex fs) (discover-AllScripts fs) in
      elim (Bool-cases (f.is_dir || not (has_suffix (lit ".sql") f.name))) [
        | inl skipped ↦ rw skipped h
        | inr taken ↦
            rw taken
              (named-AllScripts f fs (first_part f.name) _ (ground arith) (ground arith) refl h)
      ]

  -- Whatever is found is the scripts of the directory.
  pub discovered-IsScript :
      (files : List File) (ms : List Migration)
      → discover atoi sha256_hex files ≡ migrated ms
      → All (IsScript files) ms
  discovered-IsScript files ms e = subst (AllScripts files) e (discover-AllScripts files)
