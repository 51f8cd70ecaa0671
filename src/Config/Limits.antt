-- ===== src/Config/Limits.antt =====
-- The bounds of what the environment sets.
use groot_share.Prelude.{
  ℕ, zero, suc, ◌*◌, ◌≤◌, ◌≡◌, ◌⊎◌, inl, inr, refl, arith, Text, codes, text_eq, Bool, true, false,
  List, [], ◌∷◌, Option, none, some, if◌then◌else◌, length, length-take, ℤ, pos, negsuc,
}
use groot_share.Time.{second, hour, day}
use groot_share.Store.Names.{trim_space, fields_from, join}
use groot_share.Config.{
  Url, Config, LimitSpec, clip_plain, clamped, positive_or, parse_int64, parse_keep_last,
  parse_max_age_days, duration_or, parse_limit_spec, spec_of, counted_spec, spec_of_parts,
  split_slash, is_one_of, disabled, config_of, env_or,
}

-- Clipped text has at most so many code points.
pub length-clip_plain : (s : Text) (max_runes : ℕ) → length (clip_plain s max_runes) ≤ max_runes
unfolding clip_plain
length-clip_plain s max_runes =
    ground (arith, length-take max_runes (join (codes " ") (fields_from [] s)))

clamped-le : (default most : ℕ) (n : Option ℤ) → default ≤ most → clamped default most n ≤ most
clamped-le default most none h = h
clamped-le default most (some (negsuc n)) h = h
clamped-le default most (some (pos n)) h = ground (arith, h)

positive_or-pos : (default : ℕ) (n : Option ℤ) → 1 ≤ default → 1 ≤ positive_or default n
positive_or-pos default none h = h
positive_or-pos default (some (negsuc n)) h = h
positive_or-pos default (some (pos zero)) h = h
positive_or-pos default (some (pos (suc n))) h = omega arith

if-le : (b : Bool) (n m most : ℕ) → n ≤ most → m ≤ most → (if b then n else m) ≤ most
if-le true n m most h k = h
if-le false n m most h k = k

if-pos : (b : Bool) (n m : ℕ) → 1 ≤ n → 1 ≤ m → 1 ≤ (if b then n else m)
if-pos true n m h k = h
if-pos false n m h k = k

-- A limit that is off, or one with a positive number and window: ratelimit.New takes either.
abbrev pub WellSet : LimitSpec → Type 0
WellSet l = ((l.requests ≡ 0) × (l.window ≡ 0)) ⊎ ((1 ≤ l.requests) × (1 ≤ l.window))

abbrev pub Parsed : Option LimitSpec → Type 0
Parsed none = Unit {0}
Parsed (some l) = WellSet l

module _ (to_lower : Text → Text) (atoi parse_duration : Text → Option ℤ)
    (parse_url : Text → Option Url) where
  counted-Parsed :
      (n : Option ℤ) (d : Text) → Parsed (counted_spec to_lower atoi parse_duration parse_url n d)
  counted-Parsed none d = tt
  counted-Parsed (some (negsuc n)) d = tt
  counted-Parsed (some (pos zero)) d = inl (refl, refl)
  counted-Parsed (some (pos (suc n))) d = go (parse_duration d)
    where
      go : (t : Option ℤ) → Parsed (spec_of to_lower atoi parse_duration parse_url (suc n) t)
      go none = tt
      go (some (negsuc m)) = tt
      go (some (pos zero)) = tt
      go (some (pos (suc m))) = inr (omega arith, omega arith)

  parts-Parsed :
      (parts : List Text) → Parsed (spec_of_parts to_lower atoi parse_duration parse_url parts)
  parts-Parsed [] = tt
  parts-Parsed (n ∷ []) = tt
  parts-Parsed (n ∷ d ∷ []) = counted-Parsed (atoi n) d
  parts-Parsed (n ∷ d ∷ x ∷ parts) = tt

  pub parse_limit_spec-Parsed :
      (s : Text) → Parsed (parse_limit_spec to_lower atoi parse_duration parse_url s)
  unfolding parse_limit_spec
  parse_limit_spec-Parsed s =
      off_or
        (is_one_of ([] ∷ codes "0" ∷ codes "off" ∷ codes "disabled" ∷ []) (trim_space (to_lower s)))
        (spec_of_parts to_lower atoi parse_duration parse_url
          (split_slash (trim_space (to_lower s))))
        (parts-Parsed (split_slash (trim_space (to_lower s))))
    where
      off_or :
          (off : Bool) (l : Option LimitSpec) → Parsed l → Parsed (if off then some disabled else l)
      off_or true l h = inl (refl, refl)
      off_or false l h = h

  parse_keep_last-le :
      (s : Text) → parse_keep_last to_lower atoi parse_duration parse_url s ≤ 10_000
  unfolding parse_keep_last
  parse_keep_last-le s =
      if-le (text_eq (trim_space s) []) 20 (clamped 20 10_000 (atoi (trim_space s))) 10_000
        (omega arith) (clamped-le 20 10_000 (atoi (trim_space s)) (omega arith))

  parse_max_age_days-le :
      (s : Text) → parse_max_age_days to_lower atoi parse_duration parse_url s ≤ 768
  unfolding parse_max_age_days
  parse_max_age_days-le s =
      if-le (text_eq (trim_space s) []) 90 (clamped 90 768 (atoi (trim_space s))) 768 (omega arith)
        (clamped-le 90 768 (atoi (trim_space s)) (omega arith))

  parse_int64-pos :
      (s : Text) (default : ℕ)
      → 1 ≤ default
      → 1 ≤ parse_int64 to_lower atoi parse_duration parse_url s default
  unfolding parse_int64
  parse_int64-pos s default h =
      if-pos (text_eq (trim_space s) []) default (positive_or default (atoi (trim_space s))) h
        (positive_or-pos default (atoi (trim_space s)) h)

  duration_or-pos :
      (s : Text) (default : ℕ)
      → 1 ≤ default
      → 1 ≤ duration_or to_lower atoi parse_duration parse_url s default
  unfolding duration_or
  duration_or-pos s default h =
      if-pos (text_eq (trim_space s) []) default
        (positive_or default (parse_duration (trim_space s))) h
        (positive_or-pos default (parse_duration (trim_space s)) h)

  -- What the environment cannot exceed.
  pub record Bounded (c : Config) : Type 0 where
    pub keep_last : c.keep_last ≤ 10_000
    pub max_age_days : c.max_age_days ≤ 768
    pub max_upload_bytes : 1 ≤ c.max_upload_bytes
    pub retention_every : 1 ≤ c.retention_every
    pub staging_grace : 1 ≤ c.staging_grace
    pub sftp_poll : 1 ≤ c.sftp_poll
    pub bootstrap_admin_name : length c.bootstrap_admin_name ≤ 80
    pub login_rate_limit : WellSet c.login_rate_limit

  pub config_of-Bounded :
      (env : Text → Text) (l : LimitSpec)
      → WellSet l
      → Bounded (config_of to_lower atoi parse_duration parse_url env l)
  config_of-Bounded env l h = record {
    keep_last = parse_keep_last-le (env (codes "GFS_KEEP_LAST"));
    max_age_days = parse_max_age_days-le (env (codes "GFS_MAX_AGE_DAYS"));
    max_upload_bytes =
        parse_int64-pos (env (codes "GFS_MAX_UPLOAD_BYTES")) 34_359_738_368 (omega arith);
    retention_every = duration_or-pos (env (codes "GFS_RETENTION_EVERY")) hour (omega arith);
    staging_grace = duration_or-pos (env (codes "GFS_STAGING_GRACE")) day (omega arith);
    sftp_poll = duration_or-pos (env (codes "GFS_SFTP_POLL")) (30 * second) (omega arith);
    bootstrap_admin_name =
        length-clip_plain
          (env_or to_lower atoi parse_duration parse_url env (codes "GFS_BOOTSTRAP_ADMIN_NAME")
            (codes "Administrator"))
          80;
    login_rate_limit = h;
  }
