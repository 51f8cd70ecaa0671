-- ===== src/Store/Archives.antt =====
-- internal/store/archives.go: the archives of the home directory, and the index rows of those of
-- the bucket.
pub mod Key
use groot_share.Prelude.{
  ℕ, ◌*◌, Text, codes, text_eq, Bool, true, false, not, ◌&&◌, ◌||◌, List, [], ◌∷◌, ◌++◌, ◌==◌,
  Option, none, some, if◌then◌else◌, any, find, keep_if, map, sort_by, length,
}
use groot_share.Time.{Time, is_zero, rfc3339, share_time, stamp_lt}
use groot_share.Store.Types.{Db, Archive, ArchiveRow, Staged}
use groot_share.Store.Names.{trim_space}
use groot_share.Store.World.{
  World, M, Result, ok, err, Error, not_found, constraint, invalid, empty_upload, no_file, failed,
  duplicate, pure, raise, attempt, choose, query, exec, remove_file, rename_file, create_file,
  fill_file, may_fail, ◌>>=◌, ◌>>◌,
}
use groot_share.Store.Transit.{
  Transit, optional_user_id, uploader_of, uploader_exists, transit_by_sha256,
}
use groot_share.Store.Archives.Key.{valid_archive_id, sanitize_key}

-- HomeDir and StagingDir, with the separator behind them.
abbrev pub home_dir : Text
home_dir = codes "home/"

abbrev pub staging_dir : Text
staging_dir = codes "staging/"

-- The path that BlobPath returns, and its error.
unfoldable pub blob_path : Text → Result Text
blob_path id =
    if not (valid_archive_id id) then err invalid else ok (home_dir ++ id ++ codes ".tar.gz")

abbrev pub partial_path : Text → Text
partial_path id = staging_dir ++ id ++ codes ".partial"

-- `_ = os.Remove(path)`, and then the error.
unfoldable pub discard : {A : Type 0} → Text → Error → M A
discard path e = attempt (remove_file path) >> raise e

-- `m`, and on an error the file is removed.
abbrev pub cleaned_up : {A B : Type 0} → Text → (A → M B) → Result A → M B
cleaned_up path f (ok a) = f a
cleaned_up path f (err e) = discard path e

unfoldable pub or_discard : {A B : Type 0} → Text → M A → (A → M B) → M B
unfolding discard
or_discard path m f = attempt m >>= cleaned_up path f

-- The hash of the bytes, in hexadecimal.
module _ (sha256 : Text → Text) where
  abbrev pub staged_file : Text → Text → Text → ℕ → Time → Staged
  staged_file id body key uploaded_by now = record {
    id = id;
    key = key;
    path = partial_path id;
    sha256 = sha256 body;
    size = length body;
    uploaded_by = uploaded_by;
    created_at = now;
  }

  -- StageWithID, of the bytes that the reader yields. Copying and closing may fail.
  unfoldable pub stage_with_id : Text → Text → Text → ℕ → Time → M Staged
  unfolding or_discard discard
  stage_with_id id body key uploaded_by now = choose (not (valid_archive_id id)) (raise invalid) (do
    create_file (partial_path id) now
    or_discard (partial_path id) (fill_file (partial_path id) body now) (λ _.
        or_discard (partial_path id) may_fail (λ _.
          choose (length body == 0) (discard (partial_path id) empty_upload)
            (pure (staged_file id body (sanitize_key key) uploaded_by now)))))

  -- Stage, with the id that NewArchiveID returns.
  unfoldable pub stage : Text → Text → Text → ℕ → Time → M Staged
  unfolding stage_with_id
  stage id body key uploaded_by now = do _ ← may_fail; stage_with_id id body key uploaded_by now

-- localSource
abbrev pub local_source : Text → Text
local_source source = if text_eq source (codes "sftp") then codes "sftp" else codes "http"

abbrev pub archive_id : Text → ArchiveRow → Bool
archive_id id r = text_eq r.id id

-- INSERT INTO archives: the id is the primary key, and the uploader a foreign key.
abbrev pub insert_archive_row : ArchiveRow → Db → Result (Unit {0} × Db)
insert_archive_row row db =
    if any (archive_id row.id) db.archives || not (uploader_exists db row.uploaded_by)
    then err constraint
    else ok (tt, record db { archives = row ∷ db.archives })

abbrev pub local_row : Staged → Text → ArchiveRow
local_row st source = record {
  id = st.id;
  key = st.key;
  size = st.size;
  sha256 = st.sha256;
  source = source;
  uploaded_by = optional_user_id st.uploaded_by;
  created_at = rfc3339 st.created_at;
}

abbrev pub local_archive : Staged → Text → Archive
local_archive st source = record {
  id = st.id;
  key = st.key;
  size = st.size;
  sha256 = st.sha256;
  source = source;
  storage = codes "local";
  uploaded_by = st.uploaded_by;
  created_at = st.created_at;
}

abbrev pub commit_at : Staged → Text → Result Text → M Archive
commit_at st source (err e) = discard st.path e
commit_at st source (ok home) = or_discard st.path (rename_file st.path home) (λ _.
    or_discard home (exec (insert_archive_row (local_row st source)))
      (λ _. pure (local_archive st source)))

-- CommitLocal
unfoldable pub commit_local : Staged → Text → M Archive
unfolding or_discard discard blob_path
commit_local st source = commit_at st (local_source source) (blob_path st.id)

-- InsertArchiveMeta, at the time `now`
unfoldable pub insert_archive_meta : Archive → Time → M (Unit {0})
insert_archive_meta a now =
    choose (text_eq (trim_space a.id) [] || text_eq (trim_space a.sha256) []) (raise invalid) (
      exec (
        insert_archive_row record {
          id = a.id;
          key = a.key;
          size = a.size;
          sha256 = a.sha256;
          source = if text_eq a.source [] then codes "http" else a.source;
          uploaded_by = optional_user_id a.uploaded_by;
          created_at = rfc3339 (if is_zero a.created_at then now else a.created_at);
        }))

-- scanArchive
abbrev pub scan_archive : ArchiveRow → Archive
scan_archive r = record {
  id = r.id;
  key = r.key;
  size = r.size;
  sha256 = r.sha256;
  source = r.source;
  storage = [];
  uploaded_by = uploader_of r.uploaded_by;
  created_at = share_time r.created_at;
}

abbrev pub newer : ArchiveRow → ArchiveRow → Bool
newer r q = stamp_lt q.created_at r.created_at

abbrev pub first_archive : List ArchiveRow → Result Archive
first_archive [] = err not_found
first_archive (r ∷ rs) = ok (scan_archive r)

-- ArchiveBySHA256
unfoldable pub archive_by_sha256 : Text → M Archive
unfolding sort_by
archive_by_sha256 sha =
    choose (text_eq (trim_space sha) []) (raise not_found)
      (query λ db. first_archive (sort_by newer (keep_if (λ r. text_eq r.sha256 sha) db.archives)))

-- archiveFromTransit
abbrev pub archive_from_transit : Transit → Archive
archive_from_transit tr = record {
  id = tr.s3_key;
  key = tr.staged.key;
  size = tr.staged.size;
  sha256 = tr.staged.sha256;
  source = codes "http";
  storage = codes "transit";
  uploaded_by = tr.staged.uploaded_by;
  created_at = tr.staged.created_at;
}

abbrev pub in_transit : Text → Result Archive → M Archive
in_transit sha (ok a) = pure a
in_transit sha (err not_found) = transit_by_sha256 sha >>= λ tr. pure (archive_from_transit tr)
in_transit sha (err e) = raise e

-- FindExistingSHA256
unfoldable pub find_existing_sha256 : Text → M Archive
unfolding transit_by_sha256
find_existing_sha256 sha = attempt (archive_by_sha256 sha) >>= in_transit sha

-- The test of Ingest and of ingestWithSource: a known hash is refused.
abbrev pub known : {A : Type 0} → Staged → M A → Result Archive → M A
known st next (ok existing) = discard st.path (duplicate existing)
known st next (err not_found) = next
known st next (err e) = discard st.path e

unfoldable pub refuse_known : {A : Type 0} → Staged → M A → M A
unfolding find_existing_sha256 discard
refuse_known st next = attempt (find_existing_sha256 st.sha256) >>= known st next

-- ListArchives
unfoldable pub list_archives : M (List Archive)
unfolding sort_by
list_archives = query λ db. ok (map scan_archive (sort_by newer db.archives))

abbrev pub found_archive : Option ArchiveRow → Result Archive
found_archive none = err not_found
found_archive (some r) = ok (scan_archive r)

-- ArchiveByID
unfoldable pub archive_by_id : Text → M Archive
archive_by_id id =
    choose (not (valid_archive_id id)) (raise not_found)
      (query λ db. found_archive (find (archive_id id) db.archives))

-- deleteDependentsTx
abbrev pub without_dependents : Text → Db → Db
without_dependents id db = record db {
  share_links = keep_if (λ r. not (text_eq r.archive_id id)) db.share_links;
  archive_pins = keep_if (λ p. not (text_eq p.archive_id id)) db.archive_pins;
}

-- DeleteArchiveDependents
unfoldable pub delete_archive_dependents : Text → M (Unit {0})
delete_archive_dependents id =
    choose (text_eq id []) (pure tt) (exec λ db. ok (tt, without_dependents id db))

-- The transaction of DeleteArchive.
abbrev pub delete_archive_tx : Text → Db → Result (Unit {0} × Db)
delete_archive_tx id db =
    if not (any (archive_id id) db.archives)
    then err not_found
    else ok (
      tt,
      without_dependents id
          (record db { archives = keep_if (λ r. not (archive_id id r)) db.archives }),
    )

-- os.Remove, where a file that is not there is no error.
abbrev pub is_no_file : Error → Bool
is_no_file no_file = true
is_no_file _ = false

abbrev pub unless_missing : Result (Unit {0}) → M (Unit {0})
unless_missing (ok u) = pure u
unless_missing (err e) = choose (is_no_file e) (pure tt) (raise e)

abbrev pub delete_at : Text → Result Text → M (Unit {0})
delete_at id (err e) = raise e
delete_at id (ok path) = do
  _ ← attempt (remove_file path) >>= unless_missing
  exec (delete_archive_tx id)

-- DeleteArchive
unfoldable pub delete_archive : Text → M (Unit {0})
unfolding blob_path
delete_archive id =
    choose (not (valid_archive_id id)) (raise not_found) (delete_at id (blob_path id))
