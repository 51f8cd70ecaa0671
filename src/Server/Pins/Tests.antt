-- ===== src/Server/Pins/Tests.antt =====
-- The admin pins an archive that another user has pinned.
use groot_share.Prelude.{
  Text, codes, false, not, List, [], ◌∷◌, pos, some, refl, ◌≡◌, ◌==◌, keep_if,
}
use groot_share.Store.Types.{Db, PinRow}
use groot_share.Store.World.{World, ok}
use groot_share.Store.Sample.{sample, root, pinned_id, today}
use groot_share.Server.Settings.{Settings}
use groot_share.Server.Identity.Signed.{session_of}
use groot_share.Server.Pins.{post, pinned, handle_pin}
use groot_share.Server.Pins.Own.{handle_pin-others}

abbrev local : Settings
local = record {
  has_blobs = false;
  vps_s3 = false;
  s3_prefix = [];
  keep_last = pos 1;
  max_age_days = pos 1;
  staging_grace = pos 1;
}

abbrev others : Db → List PinRow
others db = keep_if (λ (p : PinRow). not (p.user_id == 1)) db.archive_pins

answer :
    (handle_pin (λ b. b) local (some (session_of root)) post pinned_id today sample).0 ≡ ok pinned
unfolding handle_pin groot_share.Prelude.text_eq groot_share.Server.Pins.pin_id
    groot_share.Server.Shares.trim_slashes groot_share.Blob.Keys.has_suffix
    groot_share.Server.Pins.pin_path_is_delete groot_share.Server.Catalog.resolve_archive
    groot_share.Blob.Keys.contains groot_share.Blob.Keys.has_prefix
    groot_share.Store.Archives.archive_by_id groot_share.Store.Archives.Key.valid_archive_id
    groot_share.Store.World.query groot_share.Store.Pins.add_pin groot_share.Store.World.exec
answer = refl

handle_pin-others_example :
    others (handle_pin (λ b. b) local (some (session_of root)) post pinned_id today sample).1.db
    ≡ others sample.db
handle_pin-others_example =
    handle_pin-others (λ b. b) local (session_of root) post pinned_id today sample
