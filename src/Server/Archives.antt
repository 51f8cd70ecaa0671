-- ===== src/Server/Archives.antt =====
-- internal/server/archives.go: listing and downloads, and the deletion of internal/server/sweep.go,
-- from the point where the mux has matched the path.
pub mod Gone
mod Tests
use groot_share.Prelude.{ℕ, Text, codes, List, ◌-◌, if◌then◌else◌, length, take}
use groot_share.Time.{Time}
use groot_share.Blob.Keys.{has_suffix}
use groot_share.Store.Types.{Archive}
use groot_share.Store.World.{M, pure, attempt, ◌>>=◌, ◌>>◌}
use groot_share.Server.Settings.{Settings}
use groot_share.Server.Users.{Request}
use groot_share.Server.Audit.{record_audit}
use groot_share.Server.Identity.{or_answer}
use groot_share.Server.Shares.{trim_slashes}
use groot_share.Server.Catalog.{list_items, open_download}
use groot_share.Server.Sweep.{remove_archive}

-- strings.TrimSuffix
abbrev trim_suffix : Text → Text → Text
trim_suffix s suffix = if has_suffix s suffix then take (length s - length suffix) s else s

-- downloadID
unfoldable pub download_id : Text → Text
download_id path = trim_suffix (trim_suffix (trim_slashes path) (codes "/file")) (codes "/")

-- deleteID
unfoldable pub delete_id : Text → Text
delete_id path = trim_slashes path

pub data ArchiveReply : Type 0 where
  missing internal deleted : ArchiveReply
  served : Text → Archive → ArchiveReply
  listed : List Archive → ArchiveReply

module _ (etag : Text → Text) (cfg : Settings) where
  -- handleListArchives
  unfoldable pub handle_list_archives : Time → M ArchiveReply
  handle_list_archives now =
      or_answer (list_items etag cfg now) (λ _. internal) λ items. pure (listed items)

  -- handleDownload
  unfoldable pub handle_download : Request → Text → M ArchiveReply
  handle_download r path =
      or_answer (open_download etag cfg (download_id path)) (λ _. missing)
        λ (body, a). record_audit r (codes "download") a >> pure (served body a)

  -- handleDelete; the reply to a form is a redirect.
  unfoldable pub handle_delete : Request → Text → M ArchiveReply
  handle_delete r path =
      or_answer (remove_archive etag cfg (delete_id path)) (λ _. missing)
        λ a. record_audit r (codes "delete") a >> pure deleted
