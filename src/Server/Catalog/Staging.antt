-- ===== src/Server/Catalog/Staging.antt =====
-- What the steps before the look for a known hash leave, and yield.
use groot_share.Prelude.{
  ℕ, zero, suc, Text, Bool, true, false, not, List, [], ◌∷◌, any, ◌≡◌, ◌==◌, length, refl,
}
use groot_share.Time.{Time}
use groot_share.Store.Types.{Db, Staged}
use groot_share.Store.World.{
  World, M, ok, err, Error, failed, pure, raise, attempt, choose, ◌>>=◌, remove_file, invalid,
  empty_upload, created, created_if, at_path, create_file, fill_file, may_fail,
}
use groot_share.Store.World.Spares.{Spares, Spares-attempt, Spares-system, Spares-remove_file}
use groot_share.Store.World.Quiet.{
  Quiet, Quiet-pure, Quiet-raise, Quiet-choose, Quiet-Spares, Quiet-bind,
}
use groot_share.Store.Archives.Key.{valid_archive_id, sanitize_key}
use groot_share.Blob.Bucket.{head}
use groot_share.Server.Catalog.{unique_object_key, probed, is_object_missing}
use groot_share.Store.Archives.{
  discard, or_discard, cleaned_up, partial_path, staged_file, stage_with_id, stage,
}

pub create_file-Spares :
    (path : Text) (now : Time) (db : Db) → Spares (λ db' _ _. db' ≡ db) (create_file path now)
unfolding create_file
create_file-Spares path now db =
    Spares-system (created path now) (λ w h. go w h (any (at_path path) w.disk))
  where
    go : (w : World) → w.db ≡ db → (b : Bool) → (created_if path now w b).1.db ≡ db
    go w h true = h
    go w h false = h

pub discard-Quiet :
    {A : Type 0} {db : Db} {Q : A → Type 0} (path : Text) (e : Error)
    → Quiet db Q (discard {A = A} path e)
unfolding discard
discard-Quiet path e =
    Quiet-bind (λ _. Unit) (attempt (remove_file path)) _
      (Quiet-Spares _
        (Spares-attempt (remove_file path) (Spares-remove_file path (λ db disk bucket h. h))))
      (λ _ _. Quiet-raise e)

module _ (sha256 : Text → Text) (db : Db) where
  -- The staged upload carries the hash of its bytes.
  abbrev pub Hashed : Text → Staged → Type 0
  Hashed body st = st.sha256 ≡ sha256 body

  pub or_discard-Quiet :
      {A B : Type 0} {Q : B → Type 0} (path : Text) (m : M A) (f : A → M B)
      → Spares (λ db' _ _. db' ≡ db) m
      → ((a : A) → Quiet db Q (f a))
      → Quiet db Q (or_discard path m f)
  unfolding or_discard
  or_discard-Quiet {A} {B} {Q} path m f s k =
      Quiet-bind (λ _. Unit) (attempt m) (cleaned_up path f)
        (Quiet-Spares (attempt m) (Spares-attempt m s))
        (λ r _. elim r as (λ r. Quiet db Q (cleaned_up path f r)) [
          | ok a ↦ k a
          | err e ↦ discard-Quiet path e
        ])

  pub stage_with_id-Quiet :
      (id body key : Text) (uploaded_by : ℕ) (now : Time)
      → Quiet db (Hashed body) (stage_with_id sha256 id body key uploaded_by now)
  unfolding stage_with_id fill_file may_fail
  stage_with_id-Quiet id body key uploaded_by now =
      Quiet-choose (not (valid_archive_id id)) (raise invalid)
        (create_file path now >>= λ _. filled) (Quiet-raise invalid)
        (Quiet-bind (λ _. Unit) (create_file path now) (λ _. filled) (Quiet-Spares _ created-Spares)
          (λ _ _.
            or_discard-Quiet path (fill_file path body now) (λ _. closed)
              (Spares-system _ (λ w h. h))
              (λ _.
                or_discard-Quiet path may_fail (λ _. last) (Spares-system _ (λ w h. h))
                  (λ _.
                    Quiet-choose (length body == 0) (discard path empty_upload) (pure st)
                      (discard-Quiet path empty_upload) (Quiet-pure st refl)))))
    where
      path : Text
      path = partial_path id

      st : Staged
      st = staged_file sha256 id body (sanitize_key key) uploaded_by now

      last : M Staged
      last = choose (length body == 0) (discard path empty_upload) (pure st)

      closed : M Staged
      closed = or_discard path may_fail (λ _. last)

      filled : M Staged
      filled = or_discard path (fill_file path body now) (λ _. closed)

      created-Spares : Spares (λ db' _ _. db' ≡ db) (create_file path now)
      created-Spares = create_file-Spares path now db

  pub stage-Quiet :
      (id body key : Text) (uploaded_by : ℕ) (now : Time)
      → Quiet db (Hashed body) (stage sha256 id body key uploaded_by now)
  unfolding stage may_fail
  stage-Quiet id body key uploaded_by now =
      Quiet-bind (λ _. Unit) may_fail _ (Quiet-Spares may_fail (Spares-system _ (λ w h. h)))
        (λ _ _. stage_with_id-Quiet id body key uploaded_by now)

  pub key-Quiet :
      (etag : Text → Text) (make_key : Text → Text) (n : ℕ) (ids : List Text)
      → Quiet db (λ _. Unit) (unique_object_key etag make_key n ids)
  unfolding unique_object_key may_fail head
  key-Quiet etag make_key zero ids = Quiet-raise failed
  key-Quiet etag make_key (suc n) [] = Quiet-raise failed
  key-Quiet etag make_key (suc n) (id ∷ ids) =
      Quiet-bind (λ _. Unit) may_fail _ (Quiet-Spares may_fail (Spares-system _ (λ w h. h)))
        (λ _ _.
          Quiet-bind (λ _. Unit) (attempt (head etag (make_key id)))
            (probed (unique_object_key etag make_key n ids) (pure (id, make_key id)))
            (Quiet-Spares _ (Spares-attempt (head etag (make_key id)) (Spares-system _ (λ w h. h))))
            (λ r _.
              elim r
                as (λ r.
                  Quiet db (λ _. Unit)
                    (probed (unique_object_key etag make_key n ids) (pure (id, make_key id)) r)) [
                      | ok o ↦ key-Quiet etag make_key n ids
                      | err e ↦
                          Quiet-choose (is_object_missing e) _ _ (Quiet-pure (id, make_key id) tt)
                            (Quiet-raise e)
                    ]))
