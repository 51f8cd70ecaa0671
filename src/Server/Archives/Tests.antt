-- ===== src/Server/Archives/Tests.antt =====
-- The root user deletes an archive of the sample, and asks for it again.
use groot_share.Prelude.{Text, codes, false, [], ◌∷◌, ◌++◌, pos, refl, ◌≡◌}
use groot_share.Store.World.{World, ok}
use groot_share.Store.Sample.{sample, old_id, today}
use groot_share.Server.Settings.{Settings}
use groot_share.Server.Users.{Request}
use groot_share.Server.Archives.{
  deleted, missing, download_id, delete_id, handle_delete, handle_download,
}
use groot_share.Server.Archives.Gone.{handle_delete-handle_download}

abbrev local : Settings
local = record {
  has_blobs = false;
  vps_s3 = false;
  s3_prefix = [];
  keep_last = pos 1;
  max_age_days = pos 1;
  staging_grace = pos 1;
}

abbrev by_root : Request
by_root = record { actor = codes "root"; actor_id = 1; remote_ip = []; now = today }

abbrev file_path : Text
file_path = codes "/" ++ old_id ++ codes "/file"

abbrev after : World
after = (handle_delete (λ b. b) local by_root old_id sample).1

answer : (handle_delete (λ b. b) local by_root old_id sample).0 ≡ ok deleted
unfolding handle_delete groot_share.Server.Sweep.remove_archive groot_share.Prelude.text_eq
    delete_id groot_share.Server.Shares.trim_slashes groot_share.Blob.Keys.contains
    groot_share.Blob.Keys.has_prefix groot_share.Store.Archives.archive_by_id
    groot_share.Store.Archives.Key.valid_archive_id groot_share.Store.World.query
    groot_share.Store.Archives.delete_archive groot_share.Store.World.remove_file
    groot_share.Store.World.exec groot_share.Server.Audit.record_audit
answer = refl

same_id : download_id file_path ≡ delete_id old_id
unfolding delete_id download_id groot_share.Server.Shares.trim_slashes
    groot_share.Blob.Keys.has_suffix groot_share.Prelude.text_eq
same_id = refl

handle_delete-handle_download_example :
    (handle_download (λ b. b) local by_root file_path after).0 ≡ ok missing
handle_delete-handle_download_example =
    handle_delete-handle_download (λ b. b) local by_root by_root old_id file_path sample after refl
      answer refl same_id
