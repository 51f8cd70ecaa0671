-- ===== src/Server/Sweep.antt =====
-- internal/server/sweep.go: deleting an archive, and the retention sweep.
pub mod Leftovers
mod Tests
pub mod Kept
pub mod Protect
use groot_share.Prelude.{
  ℕ, zero, suc, ◌-◌, ◌*◌, Text, codes, text_eq, Bool, true, false, not, ◌||◌, List, [], ◌∷◌, ltb,
  leb, Option, none, some, if◌then◌else◌, map, keep_if, find, ℤ, pos, negsuc,
}
use groot_share.Time.{Time, day, zero_time, rfc3339, stamp_lt}
use groot_share.Store.Types.{Archive, Db}
use groot_share.Store.Sessions.{purge_expired_sessions}
use groot_share.Store.World.{
  World, M, File, Result, ok, err, Error, failed, not_found, object_missing, no_file, pure, raise,
  attempt, choose, each, exec, remove_file, may_fail, fails, step, system, at_path, ◌>>=◌, ◌>>◌,
}
use groot_share.Store.Audit.{Audit, insert_audit}
use groot_share.Store.Protected.{protected_archive_ids, is_protected}
use groot_share.Store.Transit.{Transit, list_transit, transit_by_s3_key, delete_transit}
use groot_share.Store.Archives.{
  archive_by_id, delete_archive, delete_archive_dependents, staging_dir,
}
use groot_share.Blob.Bucket.{Object, head, delete}
use groot_share.Blob.Keys.{under_prefix, has_prefix, source_for_key}
use groot_share.Retain.{pick}
use groot_share.Server.Settings.{Settings, use_bucket}
use groot_share.Server.Catalog.{
  bad_id, object_archive, invalidate, list_items, unless_held, or_not_found,
}

abbrev pub gone_from_transit : Transit → Archive
gone_from_transit tr = record {
  id = tr.s3_key;
  key = tr.staged.key;
  size = tr.staged.size;
  sha256 = [];
  source = source_for_key tr.s3_key;
  storage = codes "transit";
  uploaded_by = 0;
  created_at = zero_time;
}

-- `now.Sub(t) < grace`, for the grace period in nanoseconds; zero or less means 24 hours.
abbrev grace_of : ℤ → Time
grace_of (pos zero) = day
grace_of (pos (suc n)) = suc n
grace_of (negsuc n) = day

abbrev recent : Settings → Time → Time → Bool
recent cfg now t = ltb (now - t) (grace_of cfg.staging_grace)

-- One round of the loop of sweepStaging over the waiting uploads.
unfoldable pub sweep_transit : Settings → Time → Transit → M (Unit {0})
sweep_transit cfg now tr =
    choose (recent cfg now tr.staged.created_at) (pure tt)
      (attempt (delete_transit tr.staged.id) >> pure tt)

-- os.ReadDir of the staging directory, and the modification time of an entry.
unfoldable pub staging_entries : M (List Text)
staging_entries w = system (fails w) (step w) (
  ok (map (λ (f : File). f.path) (keep_if (λ (f : File). has_prefix f.path staging_dir) w.disk)),
  step w,
)

abbrev time_of : Option File → Result Time
time_of none = err no_file
time_of (some f) = ok f.modified

unfoldable pub entry_time : Text → M Time
entry_time path w = system (fails w) (step w) (time_of (find (at_path path) w.disk), step w)

abbrev pub sweep_entry_at : Settings → Time → Text → Result Time → M (Unit {0})
sweep_entry_at cfg now path (err e) = pure tt
sweep_entry_at cfg now path (ok t) =
    choose (recent cfg now t) (pure tt) (attempt (remove_file path) >> pure tt)

unfoldable pub sweep_entry : Settings → Time → Text → M (Unit {0})
unfolding entry_time
sweep_entry cfg now path = attempt (entry_time path) >>= sweep_entry_at cfg now path

abbrev pub sweep_files : Settings → Time → Result (List Text) → M (Unit {0})
sweep_files cfg now (err e) = pure tt
sweep_files cfg now (ok paths) = each (sweep_entry cfg now) paths

abbrev pub sweep_waiting : Settings → Time → Result (List Transit) → M (Unit {0})
sweep_waiting cfg now (err e) = pure tt
sweep_waiting cfg now (ok items) =
    each (sweep_transit cfg now) items >> (attempt staging_entries >>= sweep_files cfg now)

-- sweepStaging
unfoldable pub sweep_staging : Settings → Time → M (Unit {0})
unfolding sweep_transit sweep_entry staging_entries
sweep_staging cfg now = attempt list_transit >>= sweep_waiting cfg now

abbrev pub deleted_transit : Transit → M Archive
deleted_transit tr = do
  delete_transit tr.staged.id
  _ ← attempt (delete_archive_dependents tr.s3_key)
  pure (gone_from_transit tr)

-- The ETag that the bucket gives an object.
module _ (etag : Text → Text) where
  abbrev pub deleted_object : Text → Object → M Archive
  deleted_object id obj = do
    delete id
    _ ← invalidate
    _ ← attempt (delete_archive_dependents id)
    pure (object_archive obj)

  -- removeBucket
  unfoldable pub remove_bucket : Settings → Text → M Archive
  unfolding invalidate head
  remove_bucket cfg id = choose (not (under_prefix cfg.s3_prefix id)) (raise not_found) (
      attempt (head etag id)
      >>= unless_held (deleted_object id)
          (attempt (transit_by_s3_key id) >>= or_not_found deleted_transit))

  -- removeArchive
  unfoldable pub remove_archive : Settings → Text → M Archive
  unfolding remove_bucket
  remove_archive cfg id = choose (bad_id id) (raise not_found) (
      choose (use_bucket cfg) (remove_bucket cfg id)
        (do a ← archive_by_id id; delete_archive id; pure a))

  abbrev retention_audit : Archive → Audit
  retention_audit a = record {
    actor = codes "retention";
    actor_id = 0;
    action = codes "delete";
    object_id = a.id;
    object_key = a.key;
    remote_ip = [];
    created_at = zero_time;
  }

  abbrev pub swept : Archive → Time → Result Archive → M (Unit {0})
  swept a now (err e) = pure tt
  swept a now (ok gone) = attempt (insert_audit (retention_audit a) now) >> pure tt

  -- One round of the loop of SweepOnce.
  unfoldable pub sweep_archive : Settings → Time → List Text → Archive → M (Unit {0})
  unfolding remove_archive
  sweep_archive cfg now prot a =
      choose (is_protected prot a.id) (pure tt) (attempt (remove_archive cfg a.id) >>= swept a now)

  -- SweepOnce, at the time `now`.
  unfoldable pub sweep_once : Settings → Time → M (Unit {0})
  unfolding sweep_archive purge_expired_sessions list_items sweep_staging
  sweep_once cfg now = do
    _ ← attempt (purge_expired_sessions now)
    items ← list_items etag cfg now
    prot ← protected_archive_ids now
    _ ← each (sweep_archive cfg now prot) (pick items cfg.keep_last cfg.max_age_days now)
    sweep_staging cfg now
