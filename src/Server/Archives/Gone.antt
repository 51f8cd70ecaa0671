-- ===== src/Server/Archives/Gone.antt =====
-- Deletion and download in the topology without a bucket.
use groot_share.Prelude.{◌≡◌, refl, sym, arith, Text, codes, not, Bool, true, false, none, find}
use mathlib.Core.Path.{subst}
use groot_share.Store.Types.{Db, Archive}
use groot_share.Store.Rows.{find-erased}
use groot_share.Store.World.{
  World, M, Result, ok, err, pure, choose, attempt, exec, query, remove_file, not_found, ◌>>=◌,
  ◌>>◌,
}
use groot_share.Store.World.Laws.{Keeps, Keeps-bind, Keeps-attempt, Keeps-exec, Keeps-pure}
use groot_share.Store.World.Runs.{Returned, bind-First, choose-false}
use groot_share.Store.Audit.{insert_audit}
use groot_share.Store.Archives.{
  archive_id, archive_by_id, blob_path, delete_archive, delete_at, delete_archive_tx,
  unless_missing,
}
use groot_share.Store.Archives.Key.{valid_archive_id}
use groot_share.Server.Settings.{Settings, use_bucket}
use groot_share.Server.Users.{Request}
use groot_share.Server.Audit.{record_audit}
use groot_share.Server.Identity.Laws.{or_answer-at}
use groot_share.Server.Catalog.{bad_id, open_download}
use groot_share.Server.Sweep.{remove_archive, remove_bucket}
use groot_share.Server.Archives.{
  download_id, delete_id, deleted, missing, handle_download, handle_delete,
}

abbrev Gone : Text → Db → Type 0
Gone id db = find (archive_id id) db.archives ≡ none

record_audit-Gone :
    (id : Text) (r : Request) (action : Text) (a : Archive)
    → Keeps (Gone id) (record_audit r action a)
unfolding record_audit insert_audit
record_audit-Gone id r action a =
    Keeps-attempt _ (Keeps-exec _ λ db u db' h e. ground (arith, h, e))

deleted-Gone :
    (id : Text) (w : World) (u : Unit {0}) (after : World)
    → Returned (exec (delete_archive_tx id)) w u after
    → Gone id after.db
unfolding exec
deleted-Gone id w u after h =
    ground (arith, h.result, sym h.world, find-erased (archive_id id) w.db.archives)

delete_archive-Gone :
    (id : Text) (w : World) (u : Unit {0}) (after : World)
    → Returned (delete_archive id) w u after
    → Gone id after.db
unfolding delete_archive
delete_archive-Gone id w u after h =
    let (_, k) =
      choose-false (not (valid_archive_id id)) not_found (delete_at id (blob_path id)) w u after
        h in
    go (blob_path id) k
  where
    go : (p : Result Text) → Returned (delete_at id p) w u after → Gone id after.db
    go (err e) k = ground (arith, k.result)
    go (ok path) k =
        let f =
          bind-First (attempt (remove_file path) >>= unless_missing)
            (λ _. exec (delete_archive_tx id)) w u after k in
        deleted-Gone id ((attempt (remove_file path) >>= unless_missing) w).1 u after f.rest

abbrev is_err : {A : Type 0} → Result A → Bool
is_err (ok a) = false
is_err (err e) = true

archive_by_id-Gone : (id : Text) (v : World) → Gone id v.db → is_err (archive_by_id id v).0 ≡ true
unfolding archive_by_id query
archive_by_id-Gone id v h = ground (arith, h)

module _ (etag : Text → Text) (cfg : Settings) where
  remove_archive-Gone :
      (id : Text) (w : World) (a : Archive) (after : World)
      → use_bucket cfg ≡ false
      → Returned (remove_archive etag cfg id) w a after
      → Gone id after.db
  unfolding remove_archive
  remove_archive-Gone id w a after local h =
      let found : M Archive = archive_by_id id >>= λ x. delete_archive id >> pure x in
      let (_, k) =
        choose-false (bad_id id) not_found
          (choose (use_bucket cfg) (remove_bucket etag cfg id) found) w a after h in
      let k' =
        subst (λ b. Returned (choose b (remove_bucket etag cfg id) found) w a after) local k in
      let f = bind-First (archive_by_id id) (λ x. delete_archive id >> pure x) w a after k' in
      let w1 = (archive_by_id id w).1 in
      let g = bind-First (delete_archive id) (λ _. pure f.value) w1 a after f.rest in
      subst (λ (z : World). Gone id z.db) g.rest.world
        (delete_archive-Gone id w1 g.value (delete_archive id w1).1
          (record { result = g.result; world = refl }))

  handle_delete-Gone :
      (r : Request) (path : Text) (w : World)
      → use_bucket cfg ≡ false
      → (handle_delete etag cfg r path w).0 ≡ ok deleted
      → Gone (delete_id path) (handle_delete etag cfg r path w).1.db
  unfolding handle_delete
  handle_delete-Gone r path w local =
      or_answer-at (λ s. s.0 ≡ ok deleted → Gone (delete_id path) s.1.db)
        (remove_archive etag cfg (delete_id path)) (λ _. missing) _ w (λ e f k. cc)
        λ a e _.
          (Keeps-bind (record_audit r (codes "delete") a) (λ _. pure deleted)
              (record_audit-Gone (delete_id path) r (codes "delete") a) (λ _. Keeps-pure _)).at
            (remove_archive etag cfg (delete_id path) w).1
            (remove_archive-Gone (delete_id path) w a _ local (record { result = e; world = refl }))

  open_download-Gone :
      (id : Text) (v : World)
      → use_bucket cfg ≡ false
      → Gone id v.db
      → is_err (open_download etag cfg id v).0 ≡ true
  unfolding open_download
  open_download-Gone id v local h = ground (arith, local, archive_by_id-Gone id v h)

  -- In the topology without a bucket, once the deletion of an archive has succeeded, a request to
  -- download the same id is answered as missing, as long as the database is as the deletion left
  -- it, whatever the disk holds and whichever calls fail.
  pub handle_delete-handle_download :
      (r q : Request) (path path' : Text) (w v : World)
      → use_bucket cfg ≡ false
      → (handle_delete etag cfg r path w).0 ≡ ok deleted
      → v.db ≡ (handle_delete etag cfg r path w).1.db
      → download_id path' ≡ delete_id path
      → (handle_download etag cfg q path' v).0 ≡ ok missing
  unfolding handle_download
  handle_delete-handle_download r q path path' w v local done same id =
      let gone : Gone (download_id path') v.db =
        subst (λ i. Gone i v.db) (sym id)
          (subst (Gone (delete_id path)) (sym same) (handle_delete-Gone r path w local done)) in
      let refused = open_download-Gone (download_id path') v local gone in
      or_answer-at (λ s. s.0 ≡ ok missing) (open_download etag cfg (download_id path'))
        (λ _. missing) _ v (λ e _. refl) (λ a e. ground (arith, refused, e))
