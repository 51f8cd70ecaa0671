-- ===== src/Server/Sweep/Tests.antt =====
-- A sweep of the sample store whose limits every archive breaks.
use groot_share.Prelude.{codes, false, find, ◌≡◌, refl, arith, pos, text_eq}
use groot_share.Store.Sample.{sample, today, pinned_id}
use groot_share.Store.World.{at_path}
use groot_share.Store.Archives.{archive_id}
use groot_share.Server.Settings.{Settings}
use groot_share.Server.Sweep.{sweep_once}
use groot_share.Server.Sweep.Kept.{home_path}
use groot_share.Server.Sweep.Protect.{sweep_once-protects}

abbrev strict : Settings
strict = record {
  has_blobs = false;
  vps_s3 = false;
  s3_prefix = codes "captures/";
  keep_last = pos 1;
  max_age_days = pos 1;
  staging_grace = pos 1;
}

sweep_once-protects_example :
    let w' = (sweep_once (λ b. b) strict today sample).1 in
    (find (archive_id pinned_id) w'.db.archives ≡ find (archive_id pinned_id) sample.db.archives)
    × (find (at_path (home_path pinned_id)) w'.disk
        ≡ find (at_path (home_path pinned_id)) sample.disk)
    × (find (at_path pinned_id) w'.bucket ≡ find (at_path pinned_id) sample.bucket)
unfolding text_eq
sweep_once-protects_example =
    sweep_once-protects (λ b. b) strict today sample pinned_id (omega arith) (omega arith)
      (((omega arith, omega arith), tt), tt) tt refl
