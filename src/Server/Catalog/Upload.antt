-- ===== src/Server/Catalog/Upload.antt =====
-- What a stage that has succeeded has left on the disk, and what the refusal of known content lets
-- through.
use groot_share.Prelude.{
  ℕ, ◌≡◌, refl, sym, arith, Text, text_eq, text_eq_refl, Bool, true, false, not, List, [], some,
  find, ◌==◌, length,
}
use groot_share.Time.{Time}
use groot_share.Store.Types.{Db, Archive, Staged}
use groot_share.Store.World.{
  World, M, Result, ok, err, Error, File, pure, raise, choose, attempt, ◌>>=◌, may_fail, at_path,
  write, create_file, fill_file, query, invalid, empty_upload, not_found, duplicate,
}
use groot_share.Store.Names.{trim_space}
use groot_share.Store.Transit.{transit_by_sha256}
use groot_share.Store.World.Spares.{
  Spares, Spares-pure, Spares-raise, Spares-bind, Spares-choose, Spares-query, Spares-attempt,
}
use groot_share.Store.World.Runs.{Returned, First, bind-First, choose-false}
use groot_share.Store.Archives.{
  partial_path, discard, cleaned_up, or_discard, staged_file, stage_with_id, refuse_known, known,
  find_existing_sha256, archive_by_sha256, in_transit,
}
use groot_share.Store.Archives.Key.{valid_archive_id, sanitize_key}

pub discard-err :
    {A : Type 0} (path : Text) (e : Error) (w : World) → (discard {A = A} path e w).0 ≡ err e
unfolding discard
discard-err path e w = refl

module _ {A B : Type 0} where
  -- A step whose failure would have been reported has succeeded.
  pub or_discard-First :
      (path : Text) (m : M A) (f : A → M B) (w : World) (b : B) (after : World)
      → Returned (or_discard path m f) w b after
      → First m f w b after
  unfolding or_discard
  or_discard-First path m f w b after h = go (m w).0 refl (h.result, h.world)
    where
      go :
          (r : Result A)
          → (m w).0 ≡ r
          → ((cleaned_up path f r (m w).1).0 ≡ ok b) × ((cleaned_up path f r (m w).1).1 ≡ after)
          → First m f w b after
      go (ok a) e (k, l) = record { value = a; result = e; rest = record { result = k; world = l } }
      go (err x) e (k, l) = ground (arith, k, discard-err path x (m w).1)

-- What follows the refusal of known content runs on the same database and disk.
pub record Unknown {A : Type 0} (next : M A) (w : World) (a : A) (after : World) : Type 0 where
  pub start : World
  pub same_db : start.db ≡ w.db
  pub same_disk : start.disk ≡ w.disk
  pub rest : Returned next start a after

module _ (w : World) where
  abbrev Kept : Db → List File → List File → Type 0
  Kept db disk bucket = (db ≡ w.db) × (disk ≡ w.disk)

  lookup-Kept :
      {A : Type 0} (blank : Bool) (q : Db → Result A)
      → Spares Kept (choose blank (raise not_found) (query q))
  lookup-Kept blank q =
      Spares-choose blank (raise not_found) (query q) (λ _. Spares-raise not_found)
        (λ _. Spares-query q)

  in_transit-Kept : (sha : Text) (r : Result Archive) → Spares Kept (in_transit sha r)
  unfolding transit_by_sha256
  in_transit-Kept sha (ok a) = Spares-pure a
  in_transit-Kept sha (err not_found) =
      Spares-bind (transit_by_sha256 sha) _ (lookup-Kept (text_eq (trim_space sha) []) _)
        (λ tr. Spares-pure _)
  in_transit-Kept sha (err _) = Spares-raise _

  find_existing-Kept : (sha : Text) → Spares Kept (find_existing_sha256 sha)
  unfolding find_existing_sha256 archive_by_sha256
  find_existing-Kept sha =
      Spares-bind (attempt (archive_by_sha256 sha)) (in_transit sha)
        (Spares-attempt _ (lookup-Kept (text_eq (trim_space sha) []) _)) (in_transit-Kept sha)

pub refuse_known-Unknown :
    {A : Type 0} (st : Staged) (next : M A) (w : World) (a : A) (after : World)
    → Returned (refuse_known st next) w a after
    → Unknown next w a after
unfolding refuse_known
refuse_known-Unknown {A} st next w a after h =
    go (find_existing_sha256 st.sha256 w).0 (find_existing_sha256 st.sha256 w).1
      ((find_existing-Kept w st.sha256).at w (refl, refl)) h.result h.world
  where
    go :
        (r : Result Archive) (v : World)
        → Kept w v.db v.disk v.bucket
        → (known st next r v).0 ≡ ok a
        → (known st next r v).1 ≡ after
        → Unknown next w a after
    go (ok x) v (d, f) k l = ground (arith, k, discard-err {A = A} st.path (duplicate x) v)
    go (err not_found) v (d, f) k l = record {
      start = v;
      same_db = d;
      same_disk = f;
      rest = record { result = k; world = l };
    }
    go (err e) v (d, f) k l = ground (arith, k, discard-err {A = A} st.path e v)

-- The file that a write leaves at its path.
find-write : (f : File) (files : List File) → find (at_path f.path) (write f files) ≡ some f
find-write f files = ground (arith, text_eq_refl f.path)

disk-may_fail : (w : World) → (may_fail w).1.disk ≡ w.disk
unfolding may_fail
disk-may_fail w = ground arith

fill_file-found :
    (p body : Text) (now : Time) (w : World)
    → (fill_file p body now w).0 ≡ ok tt
    → find (at_path p) (fill_file p body now w).1.disk
      ≡ some (record { path = p; body = body; modified = now })
unfolding fill_file
fill_file-found p body now w h = ground (arith, h, text_eq_refl p)

module _ (sha256 : Text → Text) (id body key : Text) (uploaded_by : ℕ) (now : Time) where
  -- What a stage has left.
  pub record Waiting (st : Staged) (after : World) : Type 0 where
    pub valid : valid_archive_id id ≡ true
    pub staged : st ≡ staged_file sha256 id body (sanitize_key key) uploaded_by now
    pub file :
        find (at_path (partial_path id)) after.disk
        ≡ some (record { path = partial_path id; body = body; modified = now })

  -- The rest of StageWithID after the file has been opened, filled and closed.
  abbrev sized : M Staged
  sized =
      choose (length body == 0) (discard (partial_path id) empty_upload)
        (pure (staged_file sha256 id body (sanitize_key key) uploaded_by now))

  abbrev filled : M Staged
  filled = or_discard (partial_path id) may_fail (λ _. sized)

  abbrev opened : M Staged
  opened = or_discard (partial_path id) (fill_file (partial_path id) body now) (λ _. filled)

  sized-Waiting :
      (empty : Bool) (u after : World) (st : Staged)
      → find (at_path (partial_path id)) u.disk
        ≡ some (record { path = partial_path id; body = body; modified = now })
      → not (valid_archive_id id) ≡ false
      → Returned
          (choose empty
            (discard (partial_path id) empty_upload)
            (pure (staged_file sha256 id body (sanitize_key key) uploaded_by now)))
          u
          st
          after
      → Waiting st after
  sized-Waiting true u after st file v h =
      ground (arith, h.result, discard-err {A = Staged} (partial_path id) empty_upload u)
  sized-Waiting false u after st file v h = record {
    valid = ground (arith, v);
    staged = ground (arith, h.result);
    file = rw (sym h.world) file;
  }

  pub stage_with_id-Waiting :
      (w : World) (st : Staged) (after : World)
      → Returned (stage_with_id sha256 id body key uploaded_by now) w st after
      → Waiting st after
  unfolding stage_with_id
  stage_with_id-Waiting w st after h =
      let (v, made) =
        choose-false (not (valid_archive_id id)) invalid
          (create_file (partial_path id) now >>= λ _. opened) w st after h in
      let c = bind-First (create_file (partial_path id) now) (λ _. opened) w st after made in
      let w1 = (create_file (partial_path id) now w).1 in
      let f =
        or_discard-First (partial_path id) (fill_file (partial_path id) body now) (λ _. filled) w1
          st after c.rest in
      let w2 = (fill_file (partial_path id) body now w1).1 in
      let m = or_discard-First (partial_path id) may_fail (λ _. sized) w2 st after f.rest in
      sized-Waiting (length body == 0) (may_fail w2).1 after st
        (rw (disk-may_fail w2) (fill_file-found (partial_path id) body now w1 f.result)) v m.rest
