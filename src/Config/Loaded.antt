-- ===== src/Config/Loaded.antt =====
-- What a configuration that was loaded may be relied on for.
use distri_max.Auth.Generate.{digit, hex}
use distri_max.Config.{
  Environment, Config, loaded, present, get_env, nibble, decode_hex, plain_key, decoded_key,
  parse_encryption_key, set_missing, set_pair, read_line, load_dot_env, parse_cidr_list,
  base_config, or_empty, with_backend, with_proxies, check_proxies, with_key, with_dot_env,
  load_from, load,
}
use distri_max.Prelude.{
  ℕ, ◌+◌, ◌*◌, ◌/◌, ◌%◌, ◌<◌, ◌≡◌, ◌≢◌, ◌⊎◌, refl, sym, ◌∙◌, ap, subst, true, false, not, ◌&&◌,
  ◌||◌, inl, inr, Bool-cases, List, [], ◌∷◌, Option, none, some, Text, lit, ◌==◌, ==_iff, eqb,
  is_space, trim_left, trim_right, trim_space, strip_prefix, is_some, length, All, arith,
}

-- A variable that the environment has is not changed by a .env file, whatever its lines.
pub load_dot_env-keeps :
    (lines : List Text) (env : Environment) (key val : Text)
    → env key ≡ some val
    → load_dot_env lines env key ≡ some val
unfolding load_dot_env
load_dot_env-keeps [] env key val h = h
load_dot_env-keeps (line ∷ lines) env key val h =
    load_dot_env-keeps lines (read_line (trim_space line) env) key val
      (line-keeps (trim_space line))
  where
    missing-keeps : (k v : Text) → set_missing k v env key ≡ some val
    missing-keeps k v = elim (Bool-cases (is_some (env k) || (k == []))) [
      | inl there ↦ rw there h
      | inr absent_ ↦ elim (Bool-cases (k == key)) [
        | inl same ↦
            let e : k ≡ key = (==_iff k key).0 same in
            let there : is_some (env k) ≡ true = ap (λ x. is_some (env x)) e ∙ ap is_some h in
            absurd (ground arith)
        | inr other ↦ rw absent_ (rw other h)
      ]
    ]

    pair-keeps : (p : Option (Text × Text)) → set_pair p env key ≡ some val
    pair-keeps none = h
    pair-keeps (some (k, v)) = missing-keeps _ _

    line-keeps : (l : Text) → read_line l env key ≡ some val
    line-keeps l = elim (Bool-cases ((l == []) || is_some (strip_prefix (lit "#") l))) [
      | inl blank ↦ rw blank h
      | inr given ↦ rw given (pair-keeps _)
    ]

plain_key-length : (raw key : Text) → plain_key raw ≡ some key → length key ≡ 32
plain_key-length raw key h = elim (Bool-cases (eqb (length raw) 32)) [
  | inl sized ↦
      let e : some raw ≡ some key = rw sized at h in
      let same : raw ≡ key = ground arith in ap length (sym same) ∙ ground arith
  | inr other ↦ absurd (let k = rw other at h in cc k)
]

decoded_key-length :
    (o : Option Text) (raw key : Text) → decoded_key o raw ≡ some key → length key ≡ 32
decoded_key-length none raw key h = plain_key-length raw key h
decoded_key-length (some k) raw key h = elim (Bool-cases (eqb (length k) 32)) [
  | inl sized ↦
      let e : some k ≡ some key = rw sized at h in
      let same : k ≡ key = ground arith in ap length (sym same) ∙ ground arith
  | inr other ↦ plain_key-length raw key (rw other at h)
]

parse_encryption_key-length :
    (raw key : Text) → parse_encryption_key raw ≡ some key → length key ≡ 32
unfolding parse_encryption_key
parse_encryption_key-length raw key h = elim (Bool-cases (eqb (length (trim_space raw)) 64)) [
  | inl long ↦ decoded_key-length (decode_hex (trim_space raw)) (trim_space raw) key (rw long at h)
  | inr short ↦ plain_key-length (trim_space raw) key (rw short at h)
]

nibble-digit : (n : ℕ) → n < 16 → nibble (digit n) ≡ some n
unfolding digit
nibble-digit n h = ground arith

byte_parts : (b : ℕ) → (b / 16) * 16 + b % 16 ≡ b
byte_parts b = omega arith

decode_hex-hex : (bs : Text) → All (λ b. b < 256) bs → decode_hex (hex bs) ≡ some bs
unfolding decode_hex hex
decode_hex-hex [] a = refl
decode_hex-hex (b ∷ bs) a =
    rw
      (
        nibble-digit (b / 16) (omega (arith, a.0)),
        nibble-digit (b % 16) (omega arith),
        decode_hex-hex bs a.1,
        byte_parts b,
      )
      refl

length-hex : (bs : Text) → length (hex bs) ≡ 2 * length bs
unfolding hex
length-hex [] = refl
length-hex (b ∷ bs) = let h = length-hex bs in omega (arith, h)

-- A byte of a number in hex.
abbrev IsDigit : ℕ → Type 0
IsDigit c = is_space c ≡ false

digit-IsDigit : (n : ℕ) → n < 16 → IsDigit (digit n)
unfolding digit
digit-IsDigit n h = ground arith

hex-IsDigit : (bs : Text) → All (λ b. b < 256) bs → All IsDigit (hex bs)
unfolding hex
hex-IsDigit [] a = _
hex-IsDigit (b ∷ bs) a = (
  digit-IsDigit (b / 16) (omega (arith, a.0)),
  (digit-IsDigit (b % 16) (omega arith), hex-IsDigit bs a.1),
)

trim_right-digits : (s : Text) → All IsDigit s → trim_right s ≡ s
unfolding trim_right
trim_right-digits [] a = refl
trim_right-digits (c ∷ []) a = rw a.0 refl
trim_right-digits (c ∷ d ∷ s) a = rw (trim_right-digits (d ∷ s) a.1) refl

trim_space-digits : (s : Text) → All IsDigit s → trim_space s ≡ s
unfolding trim_space trim_left
trim_space-digits [] a = trim_right-digits [] _
trim_space-digits (c ∷ s) a = rw a.0 (trim_right-digits (c ∷ s) a)

-- A key of 32 bytes that is given in hex is read as these bytes.
pub parse_encryption_key-hex :
    (key : Text)
    → All (λ b. b < 256) key
    → length key ≡ 32
    → parse_encryption_key (hex key) ≡ some key
unfolding parse_encryption_key
parse_encryption_key-hex key a h =
    rw (trim_space-digits (hex key) (hex-IsDigit key a), length-hex key, h, decode_hex-hex key a)
      (rw h refl)

present-filled : (d : Text) (o : Option Text) → d ≢ [] → present d o ≢ []
present-filled d none h e = h e
present-filled d (some v) h e = elim (Bool-cases (trim_space v == [])) [
  | inl empty ↦ h (rw empty at e)
  | inr given ↦
      let k : trim_space v ≡ [] = rw given at e in
      absurd (let t = (==_iff (trim_space v) []).1 k in cc (t, given))
]

-- The key is missing or fits the cipher, the backend is known, and no path is empty.
pub record IsValid {Net : Type 0} (c : Config Net) : Type 0 where
  pub keyed : (c.settings_encryption_key ≡ []) ⊎ (length c.settings_encryption_key ≡ 32)
  pub known : (c.storage_backend ≡ lit "filesystem") ⊎ (c.storage_backend ≡ lit "s3")
  pub sqlite_path : c.sqlite_path ≢ []
  pub artifact_root : c.artifact_root ≢ []
  pub staging_root : c.staging_root ≢ []
  pub backup_root : c.backup_root ≢ []

module _ {Net : Type 0} (parse_cidr : Text → Option Net) where
  -- All of that but the backend.
  record IsKeyed (c : Config Net) : Type 0 where
    keyed : (c.settings_encryption_key ≡ []) ⊎ (length c.settings_encryption_key ≡ 32)
    sqlite_path : c.sqlite_path ≢ []
    artifact_root : c.artifact_root ≢ []
    staging_root : c.staging_root ≢ []
    backup_root : c.backup_root ≢ []

  base-IsKeyed : (env : Environment) → IsKeyed (base_config parse_cidr env)
  unfolding get_env
  base-IsKeyed env = record {
    keyed = inl refl;
    sqlite_path = present-filled _ (env (lit "SQLITE_PATH")) (λ e. cc e);
    artifact_root = present-filled _ (env (lit "ARTIFACT_ROOT")) (λ e. cc e);
    staging_root = present-filled _ (env (lit "STAGING_ROOT")) (λ e. cc e);
    backup_root = present-filled _ (env (lit "BACKUP_ROOT")) (λ e. cc e);
  }

  backend-IsValid :
      (b c : Config Net) → IsKeyed b → with_backend parse_cidr b ≡ loaded c → IsValid c
  backend-IsValid b c k h =
      elim (Bool-cases
        (not (b.storage_backend == lit "filesystem") && not (b.storage_backend == lit "s3"))) [
          | inl neither ↦ absurd (let e = simp neither at h in cc e)
          | inr one ↦
              let e : loaded b ≡ loaded c = simp one at h in
              let same : b ≡ c = loaded_injective e in
              subst IsValid same (record {
                keyed = k.keyed;
                known = elim (Bool-cases (b.storage_backend == lit "filesystem")) [
                  | inl f ↦ inl ((==_iff _ _).0 f)
                  | inr f ↦ inr ((==_iff _ _).0 (ground arith))
                ];
                sqlite_path = k.sqlite_path;
                artifact_root = k.artifact_root;
                staging_root = k.staging_root;
                backup_root = k.backup_root;
              })
        ]
    where
      loaded_injective : {x y : Config Net} → loaded x ≡ loaded y → x ≡ y
      loaded_injective {x} {y} e = ground arith

  proxies-IsValid :
      (b c : Config Net) (o : Option (List Net))
      → IsKeyed b
      → with_proxies parse_cidr b o ≡ loaded c
      → IsValid c
  proxies-IsValid b c none k h = absurd (cc h)
  proxies-IsValid b c (some ns) k h =
      backend-IsValid (record b { trusted_proxies = ns }) c
        (record {
          keyed = k.keyed;
          sqlite_path = k.sqlite_path;
          artifact_root = k.artifact_root;
          staging_root = k.staging_root;
          backup_root = k.backup_root;
        })
        h

  checked-IsValid :
      (b c : Config Net) → IsKeyed b → check_proxies parse_cidr b ≡ loaded c → IsValid c
  checked-IsValid b c k h = elim (Bool-cases (b.trusted_proxies_raw == [])) [
    | inl no_proxies ↦ backend-IsValid b c k (simp no_proxies at h)
    | inr listed ↦
        proxies-IsValid b c (parse_cidr_list parse_cidr b.trusted_proxies_raw) k (simp listed at h)
  ]

  key-IsValid :
      (b c : Config Net) (o : Option Text)
      → IsKeyed b
      → ((key : Text) → o ≡ some key → length key ≡ 32)
      → with_key parse_cidr b o ≡ loaded c
      → IsValid c
  key-IsValid b c none k l h = absurd (cc h)
  key-IsValid b c (some key) k l h =
      checked-IsValid (record b { settings_encryption_key = key }) c
        (record {
          keyed = inr (l key refl);
          sqlite_path = k.sqlite_path;
          artifact_root = k.artifact_root;
          staging_root = k.staging_root;
          backup_root = k.backup_root;
        })
        h

  -- A configuration that is loaded has a key of 32 bytes or none, a backend that is the filesystem or
  -- S3, and a path for the database, the artifacts, the staging and the backups, whatever the
  -- environment and the .env file say.
  pub load-IsValid :
      (dot_env : Option (List Text)) (env : Environment) (c : Config Net)
      → load parse_cidr dot_env env ≡ loaded c
      → IsValid c
  unfolding load
  load-IsValid dot_env env c h = go (with_dot_env parse_cidr dot_env env) h
    where
      go : (env : Environment) → load_from parse_cidr env ≡ loaded c → IsValid c
      go env h =
          elim (Bool-cases (or_empty parse_cidr (env (lit "SETTINGS_ENCRYPTION_KEY")) == [])) [
            | inl no_key ↦
                checked-IsValid (base_config parse_cidr env) c (base-IsKeyed env) (simp no_key at h)
            | inr given ↦
                key-IsValid (base_config parse_cidr env) c
                  (parse_encryption_key (or_empty parse_cidr (env (lit "SETTINGS_ENCRYPTION_KEY"))))
                  (base-IsKeyed env) (parse_encryption_key-length _) (simp given at h)
          ]
