-- ===== src/Server/Sweep/Protect.antt =====
-- The sweep and the archives of the protected set.
use groot_share.Prelude.{
  ◌<◌, ◌*◌, Text, text_eq, text_eq_iff, true, false, not, List, ◌++◌, Option, find, any, All, ◌≡◌,
  refl, ap, ◌∙◌, arith, ◌||◌, Bool-cases, inl, inr,
}
use mathlib.Core.Path.{subst}
use groot_share.Time.{Time, year_10000, second}
use groot_share.Store.Types.{Db, ArchiveRow, PinRow, ShareRow, Archive}
use groot_share.Store.World.{
  World, File, M, Result, ok, err, pure, raise, attempt, ◌>>=◌, ◌>>◌, each, query, at_path,
  not_found,
}
use groot_share.Store.World.Spares.{
  Part, Of, Spares, Spares-pure, Spares-raise, Spares-attempt, Spares-choose, Spares-system,
  Spares-query, Spares-bind, Spares-after, Spares-each, Spares-exec,
}
use groot_share.Store.Transit.{delete_transit, transit_by_s3_key}
use groot_share.Store.Archives.{
  archive_id, archive_by_id, delete_archive, delete_archive_dependents,
}
use groot_share.Store.Archives.Key.{valid_archive_id}
use groot_share.Retain.{pick}
use groot_share.Blob.Bucket.{Object, head}
use groot_share.Blob.Keys.{under_prefix}
use groot_share.Server.Settings.{Settings, use_bucket}
use groot_share.Store.Sessions.{purge_sessions, purge_expired_sessions}
use groot_share.Server.Sweep.{
  sweep_staging, remove_bucket, remove_archive, deleted_object, deleted_transit, sweep_archive,
  swept, sweep_once, gone_from_transit,
}
use groot_share.Server.Catalog.{
  invalidate, is_object_missing, or_not_found, unless_held, bad_id, object_archive, list_items,
}
use groot_share.Store.Protected.{
  protected_archive_ids, is_protected, pinned_ids, shared_ids, is_protected_iff, pinned,
  actively_shared,
}
use groot_share.Store.Shares.Active.{IsDated}
use groot_share.Server.Sweep.Kept.{
  Kept, home_path, audit-Kept, dependents-Kept, delete_archive-Kept, transit-Kept, object-Kept,
}
use groot_share.Server.Sweep.Leftovers.{staging-Kept}
use groot_share.Server.Catalog.Listing.{items-Spares}

module _ (id : Text) (row : Option ArchiveRow) (file object : Option File) (cfg : Settings)
    (now : Time) where
  abbrev L : Part
  L = Kept id row file object

  module _ (etag : Text → Text) where
    bucket-Kept : (id' : Text) → text_eq id' id ≡ false → Spares L (remove_bucket etag cfg id')
    unfolding remove_bucket head transit_by_s3_key invalidate
    bucket-Kept id' ne =
        Spares-choose (not (under_prefix cfg.s3_prefix id')) (raise not_found)
          (attempt (head etag id') >>= found) (λ _. Spares-raise not_found)
          (λ _.
            Spares-after (head etag id') found (Spares-system _ (λ w k. k)) held
              (λ e. Spares-choose (is_object_missing e) _ _ (λ _. waiting) (λ _. Spares-raise e)))
      where
        found : Result Object → M Archive
        found =
            unless_held (deleted_object etag id')
              (attempt (transit_by_s3_key id') >>= or_not_found deleted_transit)

        held : (obj : Object) → Spares L (deleted_object etag id' obj)
        held obj = Spares-bind _ _ (object-Kept id row file object id' ne) (λ _.
            Spares-bind invalidate _ (record { at = λ w h. h })
              (λ _.
                Spares-bind _ _ (Spares-attempt _ (dependents-Kept id row file object id'))
                  (λ _. Spares-pure (object_archive obj))))

        waiting : Spares L (attempt (transit_by_s3_key id') >>= or_not_found deleted_transit)
        waiting =
            Spares-after (transit_by_s3_key id') (or_not_found deleted_transit) (Spares-query _)
              (λ tr.
                Spares-bind (delete_transit tr.staged.id) _
                  (transit-Kept id row file object tr.staged.id)
                  (λ _.
                    Spares-bind (attempt (delete_archive_dependents tr.s3_key))
                      (λ _. pure (gone_from_transit tr))
                      (Spares-attempt _ (dependents-Kept id row file object tr.s3_key))
                      (λ _. Spares-pure (gone_from_transit tr))))
              (λ e. Spares-raise not_found)

    by_id-Kept : (id' : Text) → Spares L (archive_by_id id')
    unfolding archive_by_id
    by_id-Kept id' =
        Spares-choose (not (valid_archive_id id')) _ _ (λ _. Spares-raise not_found)
          (λ _. Spares-query _)

    archive-Kept : (id' : Text) → text_eq id' id ≡ false → Spares L (remove_archive etag cfg id')
    unfolding remove_archive
    archive-Kept id' ne =
        Spares-choose (bad_id id') (raise not_found) _ (λ _. Spares-raise not_found)
          (λ _.
            Spares-choose (use_bucket cfg) (remove_bucket etag cfg id')
              (archive_by_id id' >>= λ a. delete_archive id' >> pure a) (λ _. bucket-Kept id' ne)
              (λ _.
                Spares-bind (archive_by_id id') (λ a. delete_archive id' >> pure a) (by_id-Kept id')
                  (λ a.
                    Spares-bind (delete_archive id') (λ _. pure a)
                      (delete_archive-Kept id row file object id' ne) (λ _. Spares-pure a))))

    sweep_archive-Kept :
        (prot : List Text)
        → is_protected prot id ≡ true
        → (a : Archive) → Spares L (sweep_archive etag cfg now prot a)
    unfolding sweep_archive
    sweep_archive-Kept prot p a =
        Spares-choose (is_protected prot a.id) _ _ (λ _. Spares-pure tt)
          (λ n.
            Spares-after (remove_archive etag cfg a.id) (swept etag a now)
              (archive-Kept a.id (other n))
              (λ gone.
                Spares-bind _ _ (Spares-attempt _ (audit-Kept id row file object _ now))
                  (λ _. Spares-pure tt))
              (λ e. Spares-pure tt))
      where
        other : is_protected prot a.id ≡ false → text_eq a.id id ≡ false
        other n = elim (Bool-cases (text_eq a.id id)) [
          | inr e ↦ e
          | inl e ↦ ground (arith, ap (is_protected prot) ((text_eq_iff a.id id).0 e))
        ]

    -- A sweep that has read a set with the archive in it.
    rest-Kept :
        (prot : List Text) (items : List Archive)
        → is_protected prot id ≡ true
        → Spares L (each (sweep_archive etag cfg now prot) items >> sweep_staging cfg now)
    rest-Kept prot items p =
        Spares-bind _ _
          (Spares-each (sweep_archive etag cfg now prot) items (sweep_archive-Kept prot p))
          (λ _. (staging-Kept id row file object cfg now))

  -- The archive is pinned or actively shared.
  abbrev Safe : List PinRow → List ShareRow → Type 0
  Safe pins links =
      All (λ r. IsDated r.expires_at × IsDated r.revoked_at) links
      × ((any (pinned id) pins || any (actively_shared now id) links) ≡ true)

  abbrev Whole : Part
  Whole db disk bucket = L db disk bucket × Safe db.archive_pins db.share_links

  module _ (etag : Text → Text) (h : 0 < now) (late : now < year_10000 * second) where
    purge-Whole : Spares Whole (purge_expired_sessions now)
    unfolding purge_expired_sessions
    purge-Whole = Spares-exec (purge_sessions now) (λ db disk bucket a db' k e.
        subst (λ (x : Db). Whole x disk bucket) (ap (λ r. elim r [ ok x ↦ x.1 | err _ ↦ db ]) e) k)

    protected-same : Spares Whole (protected_archive_ids now)
    unfolding protected_archive_ids
    protected-same = Spares-bind (query (λ db. ok (pinned_ids db))) _ (Spares-query _) (λ pins.
        Spares-bind (query (λ db. ok (shared_ids now db))) _ (Spares-query _)
          (λ shared. Spares-pure (pins ++ shared)))

    abbrev chosen : List Archive → M (Unit {0})
    chosen items = protected_archive_ids now >>= λ prot.
        each (sweep_archive etag cfg now prot) items >> sweep_staging cfg now

    -- From the reading of the protected set on.
    chosen-Kept : (items : List Archive) (w : World) → Of Whole w → Of L (chosen items w).1
    chosen-Kept items w (k, (dated, s)) = go (protected_archive_ids now w).0 refl
      where
        go :
            (r : Result (List Text))
            → (protected_archive_ids now w).0 ≡ r
            → Of L
                (elim r as (λ _. Result (Unit {0}) × World) [
                  | ok prot ↦
                      (each (sweep_archive etag cfg now prot) items >> sweep_staging cfg now)
                        (protected_archive_ids now w).1
                  | err e ↦ (err e, (protected_archive_ids now w).1)
                ]).1
        go (err x) e = (protected-same.at w (k, (dated, s))).0
        go (ok prot) e =
            (rest-Kept etag prot items (is_protected_iff now w prot id h late dated e ∙ s)).at
              (protected_archive_ids now w).1 (protected-same.at w (k, (dated, s))).0

    -- A whole sweep.
    sweep-Kept : (w : World) → Of Whole w → Of L (sweep_once etag cfg now w).1
    unfolding sweep_once
    sweep-Kept w k = go (list_items etag cfg now w').0 refl
      where
        w' : World
        w' = (purge_expired_sessions now w).1

        k' : Of Whole (list_items etag cfg now w').1
        k' = (items-Spares {P = Whole} etag cfg now).at w' (purge-Whole.at w k)

        go :
            (r : Result (List Archive))
            → (list_items etag cfg now w').0 ≡ r
            → Of L
                (elim r as (λ _. Result (Unit {0}) × World) [
                  | ok items ↦
                      chosen
                        (pick items cfg.keep_last cfg.max_age_days now)
                        (list_items etag cfg now w').1
                  | err e ↦ (err e, (list_items etag cfg now w').1)
                ]).1
        go (err e) _ = k'.0
        go (ok items) _ =
            chosen-Kept (pick items cfg.keep_last cfg.max_age_days now)
              (list_items etag cfg now w').1 k'

-- A retention sweep leaves the row, the file and the object of an archive as they are, whatever
-- its settings and whichever of its calls fail, where some user has pinned the archive or some
-- link to it is active. The time is not Go's zero time and lies before the year 10000, and so do the times of
-- the link rows, none of which is the first second of year 1, and no waiting upload uses the path
-- of the archive's file.
pub sweep_once-protects :
    (etag : Text → Text) (cfg : Settings) (now : Time) (w : World) (id : Text)
    → 0 < now
    → now < year_10000 * second
    → All (λ r. IsDated r.expires_at × IsDated r.revoked_at) w.db.share_links
    → All (λ t. text_eq t.path (home_path id) ≡ false) w.db.transit
    → (any (pinned id) w.db.archive_pins || any (actively_shared now id) w.db.share_links) ≡ true
    → let w' = (sweep_once etag cfg now w).1 in
      (find (archive_id id) w'.db.archives ≡ find (archive_id id) w.db.archives)
      × (find (at_path (home_path id)) w'.disk ≡ find (at_path (home_path id)) w.disk)
      × (find (at_path id) w'.bucket ≡ find (at_path id) w.bucket)
sweep_once-protects etag cfg now w id h late dated paths safe =
    let (row, file, object, _) =
      sweep-Kept id (find (archive_id id) w.db.archives) (find (at_path (home_path id)) w.disk)
        (find (at_path id) w.bucket) cfg now etag h late w
        ((refl, refl, refl, paths), (dated, safe)) in
    (row, file, object)
