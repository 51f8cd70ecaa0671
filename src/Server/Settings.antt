-- ===== src/Server/Settings.antt =====
-- internal/config/config.go and internal/server/server.go: the part of a Server that does not
-- change while it runs, and that the models read.
use groot_share.Prelude.{Text, Bool, ◌&&◌, ℤ}

-- `has_blobs` is `s.Blobs != nil` and `vps_s3` is `s.Cfg.Topology == config.TopologyVPSS3`.
pub record Settings : Type 0 where
  pub has_blobs : Bool
  pub vps_s3 : Bool
  pub s3_prefix : Text
  pub keep_last : ℤ
  pub max_age_days : ℤ
  pub staging_grace : ℤ

-- useBucket
abbrev pub use_bucket : Settings → Bool
use_bucket cfg = cfg.has_blobs && cfg.vps_s3
