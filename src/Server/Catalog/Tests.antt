-- ===== src/Server/Catalog/Tests.antt =====
-- An upload of bytes that the sample store has.
use groot_share.Prelude.{Text, codes, false, [], ◌∷◌, refl, pos, text_eq, ◌≡◌, length}
use groot_share.Time.{rfc3339, share_time}
use groot_share.Store.Types.{Archive}
use groot_share.Store.World.{World, ok}
use groot_share.Store.Sample.{sample, today}
use groot_share.Store.Names.{trim_space}
use groot_share.Server.Settings.{Settings}
use groot_share.Server.Catalog.{ingest_with_source, open_download}
use groot_share.Server.Catalog.Roundtrip.{ingest_with_source-open_download}
use groot_share.Server.Catalog.Duplicates.{Refused, ingest_with_source-duplicate}

abbrev local : Settings
local = record {
  has_blobs = false;
  vps_s3 = false;
  s3_prefix = [];
  keep_last = pos 1;
  max_age_days = pos 1;
  staging_grace = pos 1;
}

abbrev fresh_id : Text
fresh_id = codes "00000000000000000000000000000000"

ingest_with_source-duplicate_example : Refused sample (
    ingest_with_source
      (λ e. [])
      (λ b. b)
      (λ b. b)
      local
      (fresh_id ∷ [])
      (codes "abc")
      (codes "a.tar.gz")
      (codes "http")
      2
      today
      sample)
unfolding text_eq trim_space
ingest_with_source-duplicate_example =
    ingest_with_source-duplicate (λ e. []) (λ b. b) (λ b. b) local (fresh_id ∷ []) (codes "abc")
      (codes "a.tar.gz") (codes "http") 2 today sample refl refl

abbrev uploaded : World
uploaded =
    (ingest_with_source (λ e. []) (λ b. b) (λ b. b) local (fresh_id ∷ []) (codes "new")
      (codes "b.tar.gz") (codes "http") 2 today sample).1

abbrev new_archive : Archive
new_archive = record {
  id = fresh_id;
  key = codes "b.tar.gz";
  size = 3;
  sha256 = codes "new";
  source = codes "http";
  storage = codes "local";
  uploaded_by = 2;
  created_at = today;
}

ingest_with_source-open_download_example :
    ((open_download (λ b. b) local fresh_id uploaded).0
      ≡ ok (codes "new", record new_archive { created_at = share_time (rfc3339 today) }))
    × (codes "new" ≡ codes "new")
    × (3 ≡ length (codes "new"))
unfolding ingest_with_source groot_share.Store.Archives.stage groot_share.Store.World.may_fail
    groot_share.Store.Archives.Key.valid_archive_id groot_share.Store.World.create_file text_eq
    groot_share.Store.World.fill_file groot_share.Store.Archives.refuse_known
    groot_share.Store.Archives.archive_by_sha256 trim_space groot_share.Store.World.query
    groot_share.Store.Archives.commit_local groot_share.Store.World.rename_file
    groot_share.Store.World.exec groot_share.Store.Archives.Key.sanitize_key
ingest_with_source-open_download_example =
    ingest_with_source-open_download (λ e. []) (λ b. b) (λ b. b) local (fresh_id ∷ []) (codes "new")
      (codes "b.tar.gz") (codes "http") 2 today sample uploaded new_archive refl refl refl refl refl
