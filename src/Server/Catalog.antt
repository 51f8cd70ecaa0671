-- ===== src/Server/Catalog.antt =====
-- internal/server/catalog.go: uploads, the listing and downloads, over the home directory (topology
-- vps) or over the bucket (vps-s3).
-- `now` is the time of the request: every call of time.Now in it returns `now`. `ids` are the
-- values that NewArchiveID returns, in turn.
pub mod Listing
pub mod Staging
pub mod Upload
pub mod Roundtrip
mod Tests
pub mod Duplicates
use groot_share.Prelude.{
  ℕ, zero, suc, ◌-◌, ◌*◌, Text, codes, text_eq, Bool, true, false, not, ◌&&◌, ◌||◌, List, [], ◌∷◌,
  ◌++◌, ltb, leb, Option, none, some, if◌then◌else◌, map, sort_by,
}
use groot_share.Time.{Time, second, after}
use groot_share.Store.Types.{Archive, Staged}
use groot_share.Store.World.{
  World, M, File, Result, ok, err, Error, failed, not_found, object_missing, duplicate, pure, raise,
  attempt, choose, each, open_file, remove_file, may_fail, ◌>>=◌, ◌>>◌,
}
use groot_share.Store.Transit.{
  Transit, save_transit, list_transit, transit_by_s3_key, delete_transit, update_transit_error,
  transit_by_sha256,
}
use groot_share.Store.Archives.{
  stage, stage_with_id, refuse_known, commit_local, insert_archive_meta, list_archives,
  archive_by_id, blob_path, find_existing_sha256,
}
use groot_share.Store.Archives.Key.{base}
use groot_share.Blob.Bucket.{Object, head, get, put, list, delete}
use groot_share.Blob.Keys.{
  http_key, sftp_key, source_for_key, under_prefix, normalize_prefix, contains,
}
use groot_share.Server.Settings.{Settings, use_bucket}

-- listCache: get, set and invalidate
abbrev list_cache_ttl : Time
list_cache_ttl = 5 * second

abbrev fresh : Time → Option (List Archive × Time) → Option (List Archive)
fresh now none = none
fresh now (some (items, filled)) = if leb list_cache_ttl (now - filled) then none else some items

unfoldable pub cached : Time → M (Option (List Archive))
cached now w = (ok (fresh now w.listing), w)

unfoldable pub fill_cache : List Archive → Time → M (Unit {0})
fill_cache items now w = (ok tt, record w { listing = some (items, now) })

unfoldable pub invalidate : M (Unit {0})
invalidate w = (ok tt, record w { listing = none })

-- objectArchive
unfoldable pub object_archive : Object → Archive
unfolding base source_for_key
object_archive o = record {
  id = o.key;
  key = base o.key;
  size = o.size;
  sha256 = o.etag;
  source = source_for_key o.key;
  storage = codes "s3";
  uploaded_by = 0;
  created_at = o.last_modified;
}

-- The archive of a transit row, as the downloads return it.
unfoldable pub transit_archive : Transit → Archive
transit_archive tr = record {
  id = tr.s3_key;
  key = tr.staged.key;
  size = tr.staged.size;
  sha256 = tr.staged.sha256;
  source = source_for_key tr.s3_key;
  storage = codes "transit";
  uploaded_by = 0;
  created_at = tr.staged.created_at;
}

-- `id == "" || strings.Contains(id, "..")`
abbrev pub bad_id : Text → Bool
bad_id id = text_eq id [] || contains id (codes "..")

-- putFile
unfoldable pub put_file : Text → Text → Time → M (Unit {0})
put_file key path now = do f ← open_file path; put key f.body now

-- errors.Is(err, blob.ErrNotFound)
abbrev pub is_object_missing : Error → Bool
is_object_missing object_missing = true
is_object_missing _ = false

-- One round of uniqueObjectKey: a key that the bucket does not hold is taken.
abbrev pub probed : M (Text × Text) → M (Text × Text) → Result Object → M (Text × Text)
probed again taken (ok o) = again
probed again taken (err e) = choose (is_object_missing e) taken (raise e)

abbrev pub or_not_found : {A B : Type 0} → (A → M B) → Result A → M B
or_not_found f (ok a) = f a
or_not_found f (err e) = raise not_found

-- What the code does where the bucket does not hold the key.
abbrev pub unless_held : {A B : Type 0} → (A → M B) → M B → Result A → M B
unless_held held waiting (ok a) = held a
unless_held held waiting (err e) = choose (is_object_missing e) waiting (raise e)

-- The loop of uniqueObjectKey, with the rounds that are left.
unfoldable pub unique_object_key : (Text → Text) → (Text → Text) → ℕ → List Text → M (Text × Text)
unfolding head
unique_object_key etag make_key zero ids = raise failed
unique_object_key etag make_key (suc n) [] = raise failed
unique_object_key etag make_key (suc n) (id ∷ ids) =
    may_fail
    >> (attempt (head etag (make_key id))
        >>= probed (unique_object_key etag make_key n ids) (pure (id, make_key id)))

-- uniqueHTTPKey and uniqueSFTPKey
abbrev pub key_for : Settings → Text → Time → Text → Text
key_for cfg source now id =
    if text_eq source (codes "sftp")
    then sftp_key cfg.s3_prefix id now
    else http_key cfg.s3_prefix id now

abbrev pub first_id : List Text → Text
first_id [] = []
first_id (id ∷ ids) = id

-- The text of an error, which the row of a waiting upload keeps.
module _ (error_text : Error → Text) where
  abbrev retried : Time → Transit → Result (Unit {0}) → M (Unit {0})
  retried now tr (err e) = attempt (update_transit_error tr.staged.id (error_text e)) >> pure tt
  retried now tr (ok u) = attempt (delete_transit tr.staged.id) >> invalidate

  -- RetryOnce, and one round of its loop.
  unfoldable pub retry_one : Time → Transit → M (Unit {0})
  unfolding put_file invalidate
  retry_one now tr = attempt (put_file tr.s3_key tr.staged.path now) >>= retried now tr

  unfoldable pub retry_once : Settings → Time → M (Unit {0})
  unfolding retry_one
  retry_once cfg now =
      choose (not (use_bucket cfg)) (pure tt) (do items ← list_transit; each (retry_one now) items)

  abbrev s3_archive : Staged → Text → Text → Text → Archive
  s3_archive st s3_key source storage = record {
    id = s3_key;
    key = st.key;
    size = st.size;
    sha256 = st.sha256;
    source = source;
    storage = storage;
    uploaded_by = st.uploaded_by;
    created_at = st.created_at;
  }

  abbrev copied : Staged → Text → Text → Time → Result (Unit {0}) → M Archive
  copied st s3_key source now (err e) = do
    _ ← save_transit st s3_key (error_text e)
    pure (s3_archive st s3_key source (codes "transit"))
  copied st s3_key source now (ok u) = do
    _ ← attempt (remove_file st.path)
    _ ← attempt (insert_archive_meta (s3_archive st s3_key source (codes "s3")) now)
    _ ← invalidate
    pure (s3_archive st s3_key source (codes "s3"))

  abbrev or_http : Text → Text
  or_http source = if text_eq source [] then codes "http" else source

  -- copyOrTransit
  unfoldable pub copy_or_transit : Staged → Text → Text → Time → M Archive
  unfolding put_file invalidate
  copy_or_transit st s3_key source now =
      attempt (put_file s3_key st.path now) >>= copied st s3_key (or_http source) now

  -- The hash of an upload, and the ETag that the bucket gives an object.
  module _ (sha256 etag : Text → Text) where
    -- ingestTransit
    unfoldable pub ingest_transit : Settings → List Text → Text → Text → Text → ℕ → Time → M Archive
    unfolding unique_object_key copy_or_transit
    ingest_transit cfg ids body key source uploaded_by now = do
      (id, s3_key) ← unique_object_key etag (key_for cfg source now) 8 ids
      st ← stage_with_id sha256 id body key uploaded_by now
      refuse_known st (copy_or_transit st s3_key source now)

    -- The other branch of ingestWithSource.
    unfoldable pub ingest_local : Text → Text → Text → Text → ℕ → Time → M Archive
    ingest_local id body key source uploaded_by now = do
      st ← stage sha256 id body key uploaded_by now
      refuse_known st (commit_local st source)

    -- ingestWithSource
    unfoldable pub ingest_with_source :
        Settings → List Text → Text → Text → Text → ℕ → Time → M Archive
    unfolding ingest_transit ingest_local
    ingest_with_source cfg ids body key source uploaded_by now =
        choose (use_bucket cfg) (ingest_transit cfg ids body key source uploaded_by now)
          (ingest_local (first_id ids) body key source uploaded_by now)

abbrev pub later : Archive → Archive → Bool
later a b = after a.created_at b.created_at

-- The ETag that the bucket gives an object.
module _ (etag : Text → Text) where
  abbrev pub listed : Settings → Time → Option (List Archive) → M (List Archive)
  listed cfg now (some items) = pure items
  listed cfg now none = do
    objs ← list etag (normalize_prefix cfg.s3_prefix)
    _ ← fill_cache (sort_by later (map object_archive objs)) now
    pure (sort_by later (map object_archive objs))

  -- listItemsBucket
  unfoldable pub list_items_bucket : Settings → Time → M (List Archive)
  unfolding cached fill_cache sort_by
  list_items_bucket cfg now = cached now >>= listed cfg now

  -- listItems
  unfoldable pub list_items : Settings → Time → M (List Archive)
  unfolding list_items_bucket
  list_items cfg now = choose (not (use_bucket cfg)) list_archives (list_items_bucket cfg now)

  -- openVPSS3: the archive, and the bytes of the reader.
  unfoldable pub open_vps_s3 : Settings → Text → M (Text × Archive)
  unfolding get object_archive transit_archive
  open_vps_s3 cfg id = choose (not (under_prefix cfg.s3_prefix id)) (raise not_found) (
      attempt (get etag id)
      >>= unless_held (λ (body, obj). pure (body, object_archive obj))
          (attempt (transit_by_s3_key id)
            >>= or_not_found (λ (tr : Transit).
              attempt (open_file tr.staged.path)
              >>= or_not_found (λ (f : File). pure (f.body, transit_archive tr)))))

  abbrev or_local : Archive → Archive
  or_local a = if text_eq a.storage [] then record a { storage = codes "local" } else a

  abbrev opened_at : Archive → Result Text → M (Text × Archive)
  opened_at a (err e) = raise e
  opened_at a (ok path) =
      attempt (open_file path) >>= or_not_found (λ (f : File). pure (f.body, or_local a))

  -- openDownload
  unfoldable pub open_download : Settings → Text → M (Text × Archive)
  unfolding open_vps_s3 blob_path
  open_download cfg id = choose (bad_id id) (raise not_found) (
      choose (use_bucket cfg) (open_vps_s3 cfg id)
        (do a ← archive_by_id id; opened_at a (blob_path a.id)))

  -- resolveArchiveVPSS3
  unfoldable pub resolve_archive_vps_s3 : Settings → Text → M Archive
  unfolding head object_archive transit_archive
  resolve_archive_vps_s3 cfg id = choose (not (under_prefix cfg.s3_prefix id)) (raise not_found) (
      attempt (head etag id)
      >>= unless_held (λ obj. pure (object_archive obj))
          (attempt (transit_by_s3_key id) >>= or_not_found (λ tr. pure (transit_archive tr))))

  -- resolveArchive
  unfoldable pub resolve_archive : Settings → Text → M Archive
  unfolding resolve_archive_vps_s3
  resolve_archive cfg id =
      choose (bad_id id) (raise not_found)
        (choose (use_bucket cfg) (resolve_archive_vps_s3 cfg id) (archive_by_id id))
