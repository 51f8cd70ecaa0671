-- ===== src/Server/Catalog/Roundtrip.antt =====
-- An upload to the home directory, and the download of what was uploaded.
use groot_share.Prelude.{
  ℕ, zero, suc, ◌≡◌, refl, sym, ap, ◌∙◌, arith, Text, codes, text_eq, text_eq_refl, true, false,
  List, [], ◌∷◌, ◌++◌, some, find, all, length,
}
use mathlib.Core.Path.{subst}
use groot_share.Time.{Time, rfc3339, share_time}
use groot_share.Store.Types.{Archive, ArchiveRow, Staged}
use groot_share.Store.World.{
  World, M, ok, Error, File, pure, may_fail, step, at_path, rename_file, open_file, query, exec,
}
use groot_share.Store.Transit.{uploader_of, optional_user_id}
use groot_share.Store.World.Runs.{Returned, bind-First, bind-ok}
use groot_share.Store.Archives.{
  home_dir, blob_path, partial_path, or_discard, staged_file, stage_with_id, stage, commit_local,
  refuse_known, commit_at, scan_archive, archive_by_id, local_row, local_archive,
  insert_archive_row, local_source,
}
use groot_share.Store.Archives.Key.{lower_hex, valid_archive_id, sanitize_key}
use groot_share.Server.Catalog.Upload.{
  or_discard-First, refuse_known-Unknown, stage_with_id-Waiting,
}
use groot_share.Server.Settings.{Settings, use_bucket}
use groot_share.Server.Catalog.{
  ingest_with_source, ingest_local, first_id, open_download, opened_at, bad_id,
}
use groot_share.Blob.Keys.{contains, has_prefix}

-- The file that a rename has moved.
rename_file-found :
    (p q : Text) (w : World) (f : File)
    → find (at_path p) w.disk ≡ some f
    → (rename_file p q w).0 ≡ ok tt
    → (find (at_path q) (rename_file p q w).1.disk ≡ some (record f { path = q }))
      × ((rename_file p q w).1.db ≡ w.db)
unfolding rename_file
rename_file-found p q w f e h = ground (arith, e, h, text_eq_refl q)

insert_row-db :
    (row : ArchiveRow) (w : World)
    → (exec (insert_archive_row row) w).0 ≡ ok tt
    → ((exec (insert_archive_row row) w).1.db.archives ≡ row ∷ w.db.archives)
      × ((exec (insert_archive_row row) w).1.disk ≡ w.disk)
unfolding exec
insert_row-db row w h = ground (arith, h)

abbrev home_path : Text → Text
home_path id = home_dir ++ id ++ codes ".tar.gz"

-- What a commit has left.
record Committed (st : Staged) (source : Text) (file : File) (w : World) (a : Archive)
    (after : World) : Type 0 where
  archive : a ≡ local_archive st (local_source source)
  stored :
      find (at_path (home_path st.id)) after.disk ≡ some (record file { path = home_path st.id })
  row : after.db.archives ≡ local_row st (local_source source) ∷ w.db.archives

blob_path-valid : (id : Text) → valid_archive_id id ≡ true → blob_path id ≡ ok (home_path id)
unfolding blob_path
blob_path-valid id valid = ground (arith, valid)

commit_local-Committed :
    (st : Staged) (source : Text) (file : File) (w : World) (a : Archive) (after : World)
    → valid_archive_id st.id ≡ true
    → find (at_path st.path) w.disk ≡ some file
    → Returned (commit_local st source) w a after
    → Committed st source file w a after
unfolding commit_local
commit_local-Committed st source file w a after valid e h = go (
    subst
      (λ r.
        ((commit_at st (local_source source) r w).0 ≡ ok a)
        × ((commit_at st (local_source source) r w).1 ≡ after))
      (blob_path-valid st.id valid) (h.result, h.world))
  where
    inserted : M Archive
    inserted =
        or_discard (home_path st.id)
          (exec (insert_archive_row (local_row st (local_source source))))
          (λ _. pure (local_archive st (local_source source)))

    go :
        ((commit_at st (local_source source) (ok (home_path st.id)) w).0 ≡ ok a)
          × ((commit_at st (local_source source) (ok (home_path st.id)) w).1 ≡ after)
        → Committed st source file w a after
    go (k, l) =
        let m =
          or_discard-First st.path (rename_file st.path (home_path st.id)) (λ _. inserted) w a after
            (record { result = k; world = l }) in
        let w1 = (rename_file st.path (home_path st.id) w).1 in
        let (found, same) = rename_file-found st.path (home_path st.id) w file e m.result in
        let i =
          or_discard-First (home_path st.id)
            (exec (insert_archive_row (local_row st (local_source source))))
            (λ _. pure (local_archive st (local_source source))) w1 a after m.rest in
        let (rows, kept) = insert_row-db (local_row st (local_source source)) w1 i.result in
        record {
          archive = ground (arith, i.rest.result);
          stored = rw (sym i.rest.world) (rw kept found);
          row = rw (sym i.rest.world) (rw rows (rw same refl));
        }

no_dots : (id : Text) → all lower_hex id ≡ true → contains id (codes "..") ≡ false
unfolding contains has_prefix
no_dots [] h = refl
no_dots (c ∷ id) h = ground (arith, h, no_dots id)

valid-not_bad : (id : Text) → valid_archive_id id ≡ true → bad_id id ≡ false
unfolding valid_archive_id text_eq
valid-not_bad [] h = cc
valid-not_bad (c ∷ id) h = no_dots (c ∷ id) (ground (arith, h))

archive_by_id-found :
    (row : ArchiveRow) (rest : List ArchiveRow) (v : World)
    → valid_archive_id row.id ≡ true
    → v.db.archives ≡ row ∷ rest
    → v.faults ≡ []
    → archive_by_id row.id v ≡ (ok (scan_archive row), step v)
unfolding archive_by_id query
archive_by_id-found row rest v valid rows fine =
    rw valid (rw fine (rw rows (rw (text_eq_refl row.id) refl)))

opened_at-found :
    (etag : Text → Text) (a : Archive) (path : Text) (file : File) (v : World)
    → find (at_path path) v.disk ≡ some file
    → v.faults ≡ []
    → a.storage ≡ []
    → (opened_at etag a (ok path) v).0 ≡ ok (file.body, record a { storage = codes "local" })
unfolding open_file text_eq
opened_at-found etag a path file v stored fine blank = rw fine (rw stored (rw blank refl))

-- A download of a row of the local topology whose file is there.
open_download-found :
    (etag : Text → Text) (cfg : Settings) (row : ArchiveRow) (rest : List ArchiveRow) (file : File)
    (v : World)
    → use_bucket cfg ≡ false
    → valid_archive_id row.id ≡ true
    → v.db.archives ≡ row ∷ rest
    → find (at_path (home_path row.id)) v.disk ≡ some file
    → v.faults ≡ []
    → (open_download etag cfg row.id v).0
      ≡ ok (file.body, record (scan_archive row) { storage = codes "local" })
unfolding open_download
open_download-found etag cfg row rest file v local valid rows stored fine =
    rw (valid-not_bad row.id valid) (
      rw local (
        ap (λ r. r.0)
          (bind-ok (archive_by_id row.id) (λ a. opened_at etag a (blob_path a.id)) v
            (scan_archive row) (step v) (archive_by_id-found row rest v valid rows fine))
        ∙ rw (blob_path-valid row.id valid) (
            opened_at-found etag (scan_archive row) (home_path row.id) file (step v) stored
              (ground (arith, fine)) refl)))

uploader-roundtrip : (n : ℕ) → uploader_of (optional_user_id n) ≡ n
uploader-roundtrip zero = refl
uploader-roundtrip (suc n) = refl

module _ (error_text : Error → Text) (sha256 etag : Text → Text) (id body key source : Text)
    (uploaded_by : ℕ) (now : Time) where
  -- What an upload to the home directory has left, in the world before its commit.
  record Uploaded (a : Archive) (after : World) : Type 0 where
    start : World
    valid : valid_archive_id id ≡ true
    committed :
        Committed
          (staged_file sha256 id body (sanitize_key key) uploaded_by now)
          source
          (record { path = partial_path id; body = body; modified = now })
          start
          a
          after

  ingest_local-Uploaded :
      (w : World) (a : Archive) (after : World)
      → Returned (ingest_local error_text sha256 etag id body key source uploaded_by now) w a after
      → Uploaded a after
  unfolding ingest_local stage
  ingest_local-Uploaded w a after h =
      let staging = stage_with_id sha256 id body key uploaded_by now in
      let committing : Staged → M Archive = λ st. refuse_known st (commit_local st source) in
      let s = bind-First (stage sha256 id body key uploaded_by now) committing w a after h in
      let m =
        bind-First may_fail (λ _. staging) w s.value (stage sha256 id body key uploaded_by now w).1
          (record { result = s.result; world = refl }) in
      let t =
        stage_with_id-Waiting sha256 id body key uploaded_by now (may_fail w).1 s.value _ m.rest in
      let u = refuse_known-Unknown s.value (commit_local s.value source) _ a after s.rest in
      go s.value u.start t.valid t.staged (rw u.same_disk t.file) u.rest
    where
      go :
          (st : Staged) (u : World)
          → valid_archive_id id ≡ true
          → st ≡ staged_file sha256 id body (sanitize_key key) uploaded_by now
          → find (at_path (partial_path id)) u.disk
            ≡ some (record { path = partial_path id; body = body; modified = now })
          → Returned (commit_local st source) u a after
          → Uploaded a after
      go st u valid staged file r = record {
        start = u;
        valid = valid;
        committed =
            commit_local-Committed (staged_file sha256 id body (sanitize_key key) uploaded_by now)
              source (record { path = partial_path id; body = body; modified = now }) u a after
              valid file (subst (λ st. Returned (commit_local st source) u a after) staged r);
      }

ingest-local :
    (error_text : Error → Text) (sha256 etag : Text → Text) (cfg : Settings) (ids : List Text)
    (body key source : Text) (uploaded_by : ℕ) (now : Time) (w : World)
    → use_bucket cfg ≡ false
    → ingest_with_source error_text sha256 etag cfg ids body key source uploaded_by now w
      ≡ ingest_local error_text sha256 etag (first_id ids) body key source uploaded_by now w
unfolding ingest_with_source
ingest-local error_text sha256 etag cfg ids body key source uploaded_by now w local = rw local refl

-- Whatever is uploaded to the home directory comes back byte for byte: when an upload has returned
-- an archive, a download of its id returns the bytes of the upload and the same archive, but for
-- the fraction of the second in its time, as long as the database and the disk are as the upload
-- left them and no call of the download fails. The archive has the hash and the length of the bytes.
pub ingest_with_source-open_download :
    (error_text : Error → Text) (sha256 etag : Text → Text) (cfg : Settings) (ids : List Text)
    (body key source : Text) (uploaded_by : ℕ) (now : Time) (w v : World) (a : Archive)
    → use_bucket cfg ≡ false
    → (ingest_with_source error_text sha256 etag cfg ids body key source uploaded_by now w).0 ≡ ok a
    → v.db
      ≡ (ingest_with_source error_text sha256 etag cfg ids body key source uploaded_by now w).1.db
    → v.disk
      ≡ (ingest_with_source error_text sha256 etag cfg ids body key source uploaded_by now w).1.disk
    → v.faults ≡ []
    → ((open_download etag cfg a.id v).0
        ≡ ok (body, record a { created_at = share_time (rfc3339 now) }))
      × (a.sha256 ≡ sha256 body)
      × (a.size ≡ length body)
ingest_with_source-open_download error_text sha256 etag cfg ids body key source uploaded_by now w v
      a local done same_db same_disk fine =
    let id = first_id ids in
    let e = ingest-local error_text sha256 etag cfg ids body key source uploaded_by now w local in
    let r = ingest_local error_text sha256 etag id body key source uploaded_by now w in
    let u =
      ingest_local-Uploaded error_text sha256 etag id body key source uploaded_by now w a r.1
        (record { result = rw (sym e) done; world = refl }) in
    let c = u.committed in
    let st = staged_file sha256 id body (sanitize_key key) uploaded_by now in
    let rows : v.db.archives ≡ local_row st (local_source source) ∷ u.start.db.archives =
      rw same_db (rw e c.row) in
    let stored : find (at_path (home_path id)) v.disk
        ≡ some (record { path = home_path id; body = body; modified = now }) =
      rw same_disk (rw e c.stored) in
    let opened =
      open_download-found etag cfg (local_row st (local_source source)) u.start.db.archives
        (record { path = home_path id; body = body; modified = now }) v local u.valid rows stored
        fine in
    (
      rw c.archive (rw (uploader-roundtrip uploaded_by) at opened),
      rw c.archive refl,
      rw c.archive refl,
    )
