-- ===== src/Server/Shares/Tests.antt =====
-- A download by the link of the sample store, and what stands against it later.
use groot_share.Prelude.{codes, true, false, [], ◌≡◌, refl, pos, find, text_eq}
use groot_share.Time.{second}
use groot_share.Store.Sample.{sample}
use groot_share.Store.Shares.{share_by_token_hash, increment_share_use, servable}
use groot_share.Store.World.{query, exec, open_file}
use groot_share.Server.Settings.{Settings}
use groot_share.Server.Users.{Request}
use groot_share.Server.Catalog.{open_download}
use groot_share.Store.Names.{trim_left, trim_right}
use groot_share.Store.Archives.{archive_by_id, blob_path}
use groot_share.Store.Archives.Key.{valid_archive_id}
use groot_share.Store.Audit.{insert_audit}
use groot_share.Blob.Keys.{contains, has_prefix}
use groot_share.Server.Shares.{
  serve_share, share_inactive_reason, handle_share_download, trim_slashes,
}
use groot_share.Server.Shares.Served.{live, serves, handle_share_download-live}

abbrev local : Settings
local = record {
  has_blobs = false;
  vps_s3 = false;
  s3_prefix = [];
  keep_last = pos 1;
  max_age_days = pos 1;
  staging_grace = pos 1;
}

abbrev visit : Request
visit = record { actor = []; actor_id = 0; remote_ip = []; now = second }

is_served :
    serves (handle_share_download (λ t. t) (λ b. b) local visit (codes "/t") sample).0 ≡ true
unfolding handle_share_download share_by_token_hash query open_download archive_by_id
    valid_archive_id blob_path open_file increment_share_use exec servable serve_share insert_audit
    text_eq contains has_prefix trim_slashes trim_left trim_right share_inactive_reason
is_served = refl

handle_share_download-live_example :
    live second
      (find (λ row. text_eq row.token_hash (trim_slashes (codes "/t"))) sample.db.share_links)
    ≡ true
handle_share_download-live_example =
    handle_share_download-live (λ t. t) (λ b. b) local visit (codes "/t") sample is_served
