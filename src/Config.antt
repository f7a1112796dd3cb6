-- ===== src/Config.antt =====
-- internal/config/config.go. The environment maps a name to its value. `parse_cidr` is net.ParseCIDR's
-- network, none on its error, and `contains_ip` the network's Contains. The letters and the white space
-- are those of ASCII; a .env file is the list of the lines that the scanner gives, without NUL bytes.
pub mod Loaded
use distri_max.Prelude.{
  ℕ, ◌+◌, ◌-◌, ◌*◌, Bool, true, false, not, ◌&&◌, ◌||◌, List, [], ◌∷◌, ◌++◌, Option, none, some,
  Text, lit, ◌==◌, split, trim_space, contains, strip_prefix, is_some, eqb, leb, length,
  if◌then◌else◌,
}

abbrev pub Environment : Type 0
Environment = Text → Option Text

pub record Config (Net : Type 0) : Type 0 where
  pub http_bind_address : Text
  pub sqlite_path : Text
  pub artifact_root : Text
  pub staging_root : Text
  pub backup_root : Text
  pub bootstrap_secret : Text
  pub recovery_secret : Text
  -- Empty if there is none.
  pub settings_encryption_key : Text
  pub storage_backend : Text
  pub trusted_proxies : List Net
  pub trusted_proxies_raw : Text

pub data Loading (Net : Type 0) : Type 0 where
  loaded : Config Net → Loading Net
  invalid_key invalid_proxies unsupported_backend : Loading Net

abbrev pub present : Text → Option Text → Text
present default_val none = default_val
present default_val (some val) = if trim_space val == [] then default_val else trim_space val

unfoldable pub get_env : Environment → Text → Text → Text
get_env env key default_val = present default_val (env key)

abbrev pub lower : ℕ → ℕ
lower c = if leb 65 c && leb c 90 then c + 32 else c

-- strings.ToLower
unfoldable pub to_lower : Text → Text
to_lower [] = []
to_lower (c ∷ s) = lower c ∷ to_lower s

abbrev pub nibble : ℕ → Option ℕ
nibble c =
    if leb 48 c && leb c 57
    then some (c - 48)
    else if leb 97 c && leb c 102
    then some (c - 87)
    else if leb 65 c && leb c 70
    then some (c - 55)
    else none

abbrev pub cons_byte : Option ℕ → Option ℕ → Option Text → Option Text
cons_byte (some h) (some l) (some bytes) = some ((h * 16 + l) ∷ bytes)
cons_byte h l bytes = none

-- hex.DecodeString
unfoldable pub decode_hex : Text → Option Text
decode_hex [] = some []
decode_hex (c ∷ []) = none
decode_hex (c ∷ d ∷ s) = cons_byte (nibble c) (nibble d) (decode_hex s)

abbrev pub plain_key : Text → Option Text
plain_key raw = if eqb (length raw) 32 then some raw else none

abbrev pub decoded_key : Option Text → Text → Option Text
decoded_key none raw = plain_key raw
decoded_key (some key) raw = if eqb (length key) 32 then some key else plain_key raw

abbrev pub trimmed_key : Text → Option Text
trimmed_key raw = if eqb (length raw) 64 then decoded_key (decode_hex raw) raw else plain_key raw

unfoldable pub parse_encryption_key : Text → Option Text
unfolding decode_hex
parse_encryption_key raw = trimmed_key (trim_space raw)

-- A line of a .env file, cut at the first equals sign.
abbrev pub in_key : ℕ → Option (Text × Text) → Option (Text × Text)
in_key c none = none
in_key c (some (key, val)) = some (c ∷ key, val)

unfoldable pub cut : Text → Option (Text × Text)
cut [] = none
cut (c ∷ s) = if eqb c b'=' then some ([], s) else in_key c (cut s)

abbrev pub is_quote : ℕ → Bool
is_quote c = eqb c 34 || eqb c 39

unfoldable pub trim_quotes_left : Text → Text
trim_quotes_left [] = []
trim_quotes_left (c ∷ s) = if is_quote c then trim_quotes_left s else c ∷ s

abbrev pub cons_unless_quote : ℕ → Text → Text
cons_unless_quote c [] = if is_quote c then [] else c ∷ []
cons_unless_quote c (d ∷ s) = c ∷ d ∷ s

unfoldable pub trim_quotes_right : Text → Text
trim_quotes_right [] = []
trim_quotes_right (c ∷ s) = cons_unless_quote c (trim_quotes_right s)

-- os.LookupEnv, and os.Setenv if there is nothing yet; an empty name cannot be set.
abbrev pub set_missing : Text → Text → Environment → Environment
set_missing key val env =
    if is_some (env key) || (key == []) then env else λ k. if key == k then some val else env k

abbrev pub set_pair : Option (Text × Text) → Environment → Environment
set_pair none env = env
set_pair (some (key, val)) env =
    set_missing (trim_space key) (trim_quotes_right (trim_quotes_left (trim_space val))) env

abbrev pub read_line : Text → Environment → Environment
read_line line env =
    if (line == []) || is_some (strip_prefix (lit "#") line) then env else set_pair (cut line) env

unfoldable pub load_dot_env : List Text → Environment → Environment
unfolding cut trim_quotes_left trim_quotes_right
load_dot_env [] env = env
load_dot_env (line ∷ lines) env = load_dot_env lines (read_line (trim_space line) env)

module _ {Net : Type 0} (parse_cidr : Text → Option Net) where
  abbrev pub cidr_of : Text → Text
  cidr_of p =
      if contains (lit "/") p
      then p
      else if contains (lit ":") p
      then p ++ lit "/128"
      else p ++ lit "/32"

  abbrev pub cons_network : Option Net → Option (List Net) → Option (List Net)
  cons_network (some n) (some ns) = some (n ∷ ns)
  cons_network n ns = none

  unfoldable pub parse_parts : List Text → Option (List Net)
  parse_parts [] = some []
  parse_parts (p ∷ ps) =
      let rest = parse_parts ps in
      if trim_space p == [] then rest else cons_network (parse_cidr (cidr_of (trim_space p))) rest

  unfoldable pub parse_cidr_list : Text → Option (List Net)
  unfolding parse_parts
  parse_cidr_list raw = parse_parts (split b',' raw)

  abbrev pub base_config : Environment → Config Net
  base_config env = record {
    http_bind_address = get_env env (lit "HTTP_BIND_ADDRESS") (lit ":8080");
    sqlite_path = get_env env (lit "SQLITE_PATH") (lit "/var/lib/distrimax/distrimax.sqlite3");
    artifact_root = get_env env (lit "ARTIFACT_ROOT") (lit "/var/lib/distrimax/artifacts");
    staging_root = get_env env (lit "STAGING_ROOT") (lit "/var/lib/distrimax/staging");
    backup_root = get_env env (lit "BACKUP_ROOT") (lit "/var/lib/distrimax/backups");
    bootstrap_secret = get_env env (lit "DISTRIMAX_BOOTSTRAP_SECRET") [];
    recovery_secret = get_env env (lit "DISTRIMAX_RECOVERY_SECRET") [];
    settings_encryption_key = [];
    storage_backend = to_lower (get_env env (lit "STORAGE_BACKEND") (lit "filesystem"));
    trusted_proxies = [];
    trusted_proxies_raw = get_env env (lit "TRUSTED_PROXIES") (lit "127.0.0.1/32");
  }

  abbrev pub or_empty : Option Text → Text
  or_empty none = []
  or_empty (some val) = val

  abbrev pub with_backend : Config Net → Loading Net
  with_backend c =
      if not (c.storage_backend == lit "filesystem") && not (c.storage_backend == lit "s3")
      then unsupported_backend
      else loaded c

  abbrev pub with_proxies : Config Net → Option (List Net) → Loading Net
  with_proxies c none = invalid_proxies
  with_proxies c (some ns) = with_backend (record c { trusted_proxies = ns })

  abbrev pub check_proxies : Config Net → Loading Net
  check_proxies c =
      if c.trusted_proxies_raw == []
      then with_backend c
      else with_proxies c (parse_cidr_list c.trusted_proxies_raw)

  abbrev pub with_key : Config Net → Option Text → Loading Net
  with_key c none = invalid_key
  with_key c (some key) = check_proxies (record c { settings_encryption_key = key })

  abbrev pub check_key : Config Net → Text → Loading Net
  check_key c raw = if raw == [] then check_proxies c else with_key c (parse_encryption_key raw)

  -- The lines of the .env file, none if there is no such file.
  abbrev pub with_dot_env : Option (List Text) → Environment → Environment
  with_dot_env none env = env
  with_dot_env (some lines) env = load_dot_env lines env

  abbrev pub load_from : Environment → Loading Net
  load_from env = check_key (base_config env) (or_empty (env (lit "SETTINGS_ENCRYPTION_KEY")))

  unfoldable pub load : Option (List Text) → Environment → Loading Net
  load dot_env env = load_from (with_dot_env dot_env env)

unfoldable pub any_contains : {Net Ip : Type 0} → (Net → Ip → Bool) → List Net → Ip → Bool
any_contains contains_ip [] ip = false
any_contains contains_ip (n ∷ ns) ip = contains_ip n ip || any_contains contains_ip ns ip

abbrev pub is_trusted_proxy : {Net Ip : Type 0} → (Net → Ip → Bool) → Config Net → Option Ip → Bool
is_trusted_proxy contains_ip c none = false
is_trusted_proxy contains_ip c (some ip) = any_contains contains_ip c.trusted_proxies ip
