-- ===== src/Config.antt =====
-- internal/config/config.go: the settings that are read from the environment, and the checks that
-- refuse to start. The environment is a function, and a variable that is unset reads as the empty
-- text. Of an error only that there is one is kept: `none`.
pub mod Limits
pub mod Checks
mod Tests
use groot_share.Prelude.{
  ℕ, zero, suc, ◌*◌, Text, codes, text_eq, Bool, true, false, not, ◌&&◌, ◌||◌, List, [], ◌∷◌, ◌++◌,
  ltb, leb, ◌==◌, Option, none, some, if◌then◌else◌, length, take, ℤ, pos, negsuc,
}
use groot_share.Time.{second, hour, day}
use groot_share.Blob.Keys.{has_prefix}
use groot_share.Store.Names.{trim_space, fields_from, join}

-- Any other text is `other`.
pub data Topology : Type 0 where
  vps vps_s3 : Topology
  other : Text → Topology

-- LimitSpec
pub record LimitSpec : Type 0 where
  pub requests : ℕ
  pub window : ℕ

-- Config, without the texts that only pages and logs show.
pub record Config : Type 0 where
  pub topology : Topology
  pub data_dir : Text
  pub s3_bucket : Text
  pub s3_prefix : Text
  pub bootstrap_admin : Text
  pub bootstrap_password : Text
  pub bootstrap_admin_name : Text
  pub cookie_secure : Bool
  pub max_upload_bytes : ℕ
  pub keep_last : ℕ
  pub max_age_days : ℕ
  pub retention_every : ℕ
  pub staging_grace : ℕ
  pub login_simple : Bool
  pub brand_sub : Text
  pub footer : Text
  pub base_url : Text
  pub login_rate_limit : LimitSpec
  pub sftp_inbox : Text
  pub sftp_poll : ℕ

abbrev pub default_keep_last : ℕ
default_keep_last = 20

abbrev pub default_max_age_days : ℕ
default_max_age_days = 90

abbrev pub max_keep_last : ℕ
max_keep_last = 10_000

abbrev pub max_max_age_days : ℕ
max_max_age_days = 768

abbrev pub max_brand_sub_runes : ℕ
max_brand_sub_runes = 32

abbrev pub max_footer_runes : ℕ
max_footer_runes = 120

abbrev pub max_name_runes : ℕ
max_name_runes = 80

-- strings.Split(s, "/")
unfoldable pub split_slash : Text → List Text
split_slash [] = [] ∷ []
split_slash (c ∷ s) = elim (split_slash s) [
  | [] ↦ []
  | part ∷ parts ↦ if c == b'/' then [] ∷ part ∷ parts else (c ∷ part) ∷ parts
]

-- ClipPlain
unfoldable pub clip_plain : Text → ℕ → Text
unfolding fields_from join
clip_plain s max_runes =
    let t = join (codes " ") (fields_from [] s) in
    if text_eq t (codes "-")
    then []
    else if leb max_runes 0
    then []
    else if ltb max_runes (length t)
    then take max_runes t
    else t

-- DisplayBrandSub
unfoldable pub display_brand_sub : Text → Text
display_brand_sub raw =
    if text_eq (trim_space raw) []
    then codes "archive door"
    else clip_plain (trim_space raw) max_brand_sub_runes

-- DisplayUserName
unfoldable pub display_user_name : Text → Text
display_user_name raw =
    if text_eq (trim_space raw) []
    then codes "Administrator"
    else clip_plain (trim_space raw) max_name_runes

-- DisplayFooter
unfoldable pub display_footer : Text → Text
display_footer raw =
    if text_eq (trim_space raw) [] || text_eq (trim_space raw) (codes "-")
    then []
    else clip_plain (trim_space raw) max_footer_runes

-- A number that was parsed, in the way of parseKeepLast and parseMaxAgeDays.
abbrev pub clamped : ℕ → ℕ → Option ℤ → ℕ
clamped default most none = default
clamped default most (some (negsuc n)) = default
clamped default most (some (pos n)) = if ltb most n then most else n

-- A number that was parsed, where only a positive one counts.
abbrev pub positive_or : ℕ → Option ℤ → ℕ
positive_or default none = default
positive_or default (some (negsuc n)) = default
positive_or default (some (pos zero)) = default
positive_or default (some (pos (suc n))) = suc n

abbrev pub disabled : LimitSpec
disabled = record { requests = 0; window = 0 }

abbrev pub is_one_of : List Text → Text → Bool
is_one_of [] s = false
is_one_of (t ∷ ts) s = let rest = is_one_of ts s in if text_eq s t then true else rest

-- What the code reads of the URL that url.Parse returns.
pub record Url : Type 0 where
  pub scheme : Text
  pub host : Text

-- `err == nil && u.IsAbs() && u.Host != "" && (u.Scheme == "http" || u.Scheme == "https")`, where
-- IsAbs tells whether there is a scheme.
abbrev pub absolute_http : Option Url → Bool
absolute_http none = false
absolute_http (some u) =
    if text_eq u.scheme [] || text_eq u.host []
    then false
    else if not (text_eq u.scheme (codes "http")) && not (text_eq u.scheme (codes "https"))
    then false
    else true

-- The environment, and what the standard library reads: strings.ToLower, strconv.Atoi and
-- ParseInt, time.ParseDuration (in nanoseconds), and url.Parse followed by the tests of the URL.
module _ (to_lower : Text → Text) (atoi parse_duration : Text → Option ℤ)
    (parse_url : Text → Option Url) where
  -- parseInt64
  unfoldable pub parse_int64 : Text → ℕ → ℕ
  parse_int64 s default =
      if text_eq (trim_space s) [] then default else positive_or default (atoi (trim_space s))

  -- parseKeepLast
  unfoldable pub parse_keep_last : Text → ℕ
  parse_keep_last s =
      if text_eq (trim_space s) []
      then default_keep_last
      else clamped default_keep_last max_keep_last (atoi (trim_space s))

  -- parseMaxAgeDays
  unfoldable pub parse_max_age_days : Text → ℕ
  parse_max_age_days s =
      if text_eq (trim_space s) []
      then default_max_age_days
      else clamped default_max_age_days max_max_age_days (atoi (trim_space s))

  -- parseDuration
  unfoldable pub duration_or : Text → ℕ → ℕ
  duration_or s default =
      if text_eq (trim_space s) []
      then default
      else positive_or default (parse_duration (trim_space s))

  -- parseBool
  unfoldable pub parse_bool : Text → Bool → Bool
  parse_bool s default =
      let t = to_lower (trim_space s) in
      if is_one_of (codes "1" ∷ codes "true" ∷ codes "yes" ∷ codes "on" ∷ []) t
      then true
      else if is_one_of (codes "0" ∷ codes "false" ∷ codes "no" ∷ codes "off" ∷ []) t
      then false
      else default

  abbrev pub spec_of : ℕ → Option ℤ → Option LimitSpec
  spec_of n none = none
  spec_of n (some (negsuc d)) = none
  spec_of n (some (pos zero)) = none
  spec_of n (some (pos (suc d))) = some (record { requests = n; window = suc d })

  abbrev pub counted_spec : Option ℤ → Text → Option LimitSpec
  counted_spec none d = none
  counted_spec (some (negsuc n)) d = none
  counted_spec (some (pos zero)) d = some disabled
  counted_spec (some (pos (suc n))) d = spec_of (suc n) (parse_duration d)

  abbrev pub spec_of_parts : List Text → Option LimitSpec
  spec_of_parts (n ∷ d ∷ []) = counted_spec (atoi n) d
  spec_of_parts _ = none

  -- ParseLimitSpec
  unfoldable pub parse_limit_spec : Text → Option LimitSpec
  unfolding split_slash
  parse_limit_spec s =
      let t = trim_space (to_lower s) in
      if is_one_of ([] ∷ codes "0" ∷ codes "off" ∷ codes "disabled" ∷ []) t
      then some disabled
      else spec_of_parts (split_slash t)

  -- What os.Getenv returns.
  module _ (env : Text → Text) where
    -- envOr
    unfoldable pub env_or : Text → Text → Text
    env_or key default = if text_eq (trim_space (env key)) [] then default else trim_space (env key)

    abbrev pub topology_of : Text → Topology
    topology_of t =
        if text_eq t (codes "vps")
        then vps
        else if text_eq t (codes "vps-s3")
        then vps_s3
        else Topology.other t

    -- S3CredsPresent, and the test of validateS3.
    unfoldable pub s3_creds_present : Bool
    s3_creds_present =
        not (text_eq (trim_space (env (codes "AWS_ACCESS_KEY_ID"))) [])
        && not (text_eq (trim_space (env (codes "AWS_SECRET_ACCESS_KEY"))) [])

    -- validateS3
    unfoldable pub validate_s3 : Config → Bool
    validate_s3 c = if text_eq c.s3_bucket [] then false else s3_creds_present

    -- validateBaseURL
    unfoldable pub validate_base_url : Config → Bool
    validate_base_url c =
        if text_eq c.base_url [] then true else absolute_http (parse_url c.base_url)

    abbrev pub topology_valid : Config → Topology → Bool
    topology_valid c vps = true
    topology_valid c vps_s3 = validate_s3 c
    topology_valid c (Topology.other t) = false

    -- validate
    unfoldable pub validate : Config → Bool
    validate c =
        if text_eq c.data_dir [] then false else topology_valid c c.topology && validate_base_url c

    abbrev pub config_of : LimitSpec → Config
    config_of limit = record {
      topology = topology_of (to_lower (trim_space (env (codes "GFS_TOPOLOGY"))));
      data_dir = trim_space (env (codes "GFS_DATA_DIR"));
      s3_bucket = trim_space (env (codes "GFS_S3_BUCKET"));
      s3_prefix = env_or (codes "GFS_S3_PREFIX") (codes "captures/");
      bootstrap_admin = trim_space (env (codes "GFS_BOOTSTRAP_ADMIN"));
      bootstrap_password = env (codes "GFS_BOOTSTRAP_PASSWORD");
      bootstrap_admin_name =
          clip_plain (env_or (codes "GFS_BOOTSTRAP_ADMIN_NAME") (codes "Administrator"))
            max_name_runes;
      cookie_secure = parse_bool (env (codes "GFS_COOKIE_SECURE")) true;
      max_upload_bytes = parse_int64 (env (codes "GFS_MAX_UPLOAD_BYTES")) 34_359_738_368;
      keep_last = parse_keep_last (env (codes "GFS_KEEP_LAST"));
      max_age_days = parse_max_age_days (env (codes "GFS_MAX_AGE_DAYS"));
      retention_every = duration_or (env (codes "GFS_RETENTION_EVERY")) hour;
      staging_grace = duration_or (env (codes "GFS_STAGING_GRACE")) day;
      login_simple = parse_bool (env (codes "GFS_LOGIN_SIMPLE")) false;
      brand_sub = trim_space (env (codes "GFS_BRAND_SUB"));
      footer = trim_space (env (codes "GFS_FOOTER"));
      base_url = trim_space (env (codes "GFS_BASE_URL"));
      login_rate_limit = limit;
      sftp_inbox = trim_space (env (codes "GFS_SFTP_INBOX"));
      sftp_poll = duration_or (env (codes "GFS_SFTP_POLL")) (30 * second);
    }

    abbrev pub checked : Config → Option Config
    checked c =
        if not (text_eq c.sftp_inbox []) && not (has_prefix c.sftp_inbox (codes "/"))
        then none
        else if validate c
        then some c
        else none

    abbrev pub with_limit : Option LimitSpec → Option Config
    with_limit none = none
    with_limit (some limit) = checked (config_of limit)

    -- LoadFromEnv
    unfoldable pub load_from_env : Option Config
    load_from_env =
        with_limit (parse_limit_spec (env_or (codes "GFS_LOGIN_RATE_LIMIT") (codes "20/1m")))
