-- ===== src/Config/Tests.antt =====
-- A start with an environment that sets three variables, one of them too high.
use groot_share.Prelude.{
  Text, text_eq, codes, true, false, ◌*◌, [], Option, some, none, if◌then◌else◌, ℤ, pos, ◌≡◌, refl,
}
use groot_share.Time.{second, hour, day}
use groot_share.Config.{Url, Config, vps, load_from_env, clip_plain}
use groot_share.Config.Checks.{Accepted, load_from_env-Accepted}

abbrev env : Text → Text
env key =
    if text_eq key (codes "GFS_TOPOLOGY")
    then codes " vps"
    else if text_eq key (codes "GFS_DATA_DIR")
    then codes "/data"
    else if text_eq key (codes "GFS_KEEP_LAST")
    then codes "20000"
    else if text_eq key (codes "GFS_BASE_URL")
    then codes "https://gfs.example"
    else []

abbrev number : Text → Option ℤ
number s =
    if text_eq s (codes "20000")
    then some (pos 20_000)
    else if text_eq s (codes "20")
    then some (pos 20)
    else if text_eq s (codes "1m")
    then some (pos (60 * second))
    else none

abbrev url_of : Text → Option Url
url_of s =
    if text_eq s (codes "https://gfs.example")
    then some (record { scheme = codes "https"; host = codes "gfs.example" })
    else none

abbrev config : Config
config = record {
  topology = vps;
  data_dir = codes "/data";
  s3_bucket = [];
  s3_prefix = codes "captures/";
  bootstrap_admin = [];
  bootstrap_password = [];
  bootstrap_admin_name = codes "Administrator";
  cookie_secure = true;
  max_upload_bytes = 34_359_738_368;
  keep_last = 10_000;
  max_age_days = 90;
  retention_every = hour;
  staging_grace = day;
  login_simple = false;
  brand_sub = [];
  footer = [];
  base_url = codes "https://gfs.example";
  login_rate_limit = record { requests = 20; window = 60 * second };
  sftp_inbox = [];
  sftp_poll = 30 * second;
}

loaded : load_from_env (λ s. s) number number url_of env ≡ some config
unfolding load_from_env groot_share.Config.parse_limit_spec text_eq
    groot_share.Store.Names.trim_space groot_share.Config.env_or groot_share.Config.validate
    groot_share.Config.validate_base_url clip_plain groot_share.Config.parse_bool
    groot_share.Config.parse_int64 groot_share.Config.parse_keep_last
    groot_share.Config.parse_max_age_days groot_share.Config.duration_or
loaded = refl

load_from_env-Accepted_example : Accepted (λ s. s) number number url_of env config
load_from_env-Accepted_example =
    load_from_env-Accepted (λ s. s) number number url_of env config loaded
