-- ===== src/Server/Catalog/Duplicates.antt =====
-- Uploads of content that the store already has.
use groot_share.Prelude.{
  ℕ, Text, text_eq, Bool, true, false, List, [], ◌∷◌, any, keep_if, sort_by, insert_by, ◌≡◌, refl,
  ◌∙◌, arith, Bool-cases, inl, inr,
}
use groot_share.Time.{Time}
use groot_share.Store.Types.{ArchiveRow, Archive, Staged}
use groot_share.Store.Names.{trim_space}
use groot_share.Store.World.{
  World, M, Result, ok, err, Error, failed, duplicate, attempt, choose, ◌>>=◌, query, answer, fails,
  step, remove_file,
}
use groot_share.Store.World.Spares.{Spares-attempt, Spares-remove_file}
use groot_share.Store.World.Quiet.{Post, Quiet}
use groot_share.Server.Catalog.{
  unique_object_key, ingest_local, ingest_transit, ingest_with_source, first_id, key_for,
  copy_or_transit,
}
use groot_share.Server.Settings.{Settings, use_bucket}
use groot_share.Store.Archives.{
  archive_by_sha256, find_existing_sha256, in_transit, known, refuse_known, discard, first_archive,
  newer, stage_with_id, stage, commit_local,
}
use groot_share.Server.Catalog.Staging.{Hashed, stage_with_id-Quiet, stage-Quiet, key-Quiet}

abbrev pub has_hash : Text → ArchiveRow → Bool
has_hash sha r = text_eq r.sha256 sha

-- A refusal, which leaves the database as it was.
abbrev pub Refused : {A : Type 0} → World → Result A × World → Type 0
Refused w (ok a, w') = true ≡ false
Refused w (err e, w') = w'.db ≡ w.db

discard-Refused :
    (A : Type 0) (path : Text) (e : Error) (w : World) → Refused w (discard {A = A} path e w)
unfolding discard
discard-Refused A path e w =
    (Spares-attempt (remove_file path)
        (Spares-remove_file {P = λ db _ _. db ≡ w.db} path (λ db disk bucket h. h))).at
      w refl

abbrev is_ok : {A : Type 0} → Result A → Bool
is_ok (ok a) = true
is_ok (err e) = false

inserted-some :
    (r : ArchiveRow) (rows : List ArchiveRow)
    → is_ok (first_archive (insert_by newer r rows)) ≡ true
unfolding insert_by
inserted-some r [] = refl
inserted-some r (q ∷ rows) = ground arith

sorted-some :
    (sha : Text) (rows : List ArchiveRow)
    → any (has_hash sha) rows ≡ true
    → is_ok (first_archive (sort_by newer (keep_if (has_hash sha) rows))) ≡ true
unfolding sort_by
sorted-some sha [] h = ground arith
sorted-some sha (r ∷ rows) h = elim (Bool-cases (has_hash sha r)) [
  | inl e ↦ rw e (inserted-some r (sort_by newer (keep_if (has_hash sha) rows)))
  | inr e ↦ rw e (sorted-some sha rows (ground arith))
]

-- The lookup of a hash that some row of `archives` has either fails or finds an archive.
found-Refused :
    {A : Type 0} (st : Staged) (next : M A) (w : World)
    → text_eq (trim_space st.sha256) [] ≡ false
    → any (has_hash st.sha256) w.db.archives ≡ true
    → Refused w (refuse_known st next w)
unfolding refuse_known find_existing_sha256 archive_by_sha256 query
found-Refused {A} st next w blank h = rw blank (
    go (fails w) (first_archive (sort_by newer (keep_if (has_hash st.sha256) w.db.archives)))
      (sorted-some st.sha256 w.db.archives h))
  where
    go :
        (b : Bool) (r : Result Archive)
        → is_ok r ≡ true
        → Refused w (
            (attempt (attempt (λ _. answer b r (step w)) >>= in_transit st.sha256)
                >>= known st next)
              w)
    go true r k = discard-Refused A st.path failed (step w)
    go false (ok a) k = discard-Refused A st.path (duplicate a) (step w)
    go false (err e) k = ground arith

Refused-later :
    {A : Type 0} (w w' : World) (r : Result A × World) → w'.db ≡ w.db → Refused w' r → Refused w r
Refused-later w w' (ok a, v) e h = h
Refused-later w w' (err x, v) e h = h ∙ e

-- What is refused after calls that leave the database alone.
Refused-bind :
    {A B : Type 0} (R : A → Type 0) (m : M A) (f : A → M B) (w : World)
    → Quiet w.db R m
    → ((a : A) (w' : World) → R a → w'.db ≡ w.db → Refused w (f a w'))
    → Refused w ((m >>= f) w)
Refused-bind {A} {B} R m f w q k = go (m w).0 (m w).1 (q.at w refl)
  where
    go :
        (r : Result A) (w' : World)
        → (w'.db ≡ w.db) × Post R r
        → Refused w (elim r as (λ _. Result B × World) [ ok a ↦ f a w' | err e ↦ (err e, w') ])
    go (ok a) w' (h, p) = k a w' p h
    go (err e) w' (h, p) = h

choose-Refused :
    {A : Type 0} (b : Bool) (m n : M A) (w : World)
    → Refused w (m w)
    → Refused w (n w)
    → Refused w (choose b m n w)
choose-Refused true m n w hm hn = hm
choose-Refused false m n w hm hn = hn

module _ (sha256 : Text → Text) (body : Text) (w : World)
    (blank : text_eq (trim_space (sha256 body)) [] ≡ false)
    (have : any (has_hash (sha256 body)) w.db.archives ≡ true) where
  staged-Refused :
      {A : Type 0} (st : Staged) (next : M A) (w' : World)
      → st.sha256 ≡ sha256 body
      → w'.db ≡ w.db
      → Refused w (refuse_known st next w')
  staged-Refused st next w' hash same =
      Refused-later w w' (refuse_known st next w') same
        (found-Refused st next w' (rw hash blank) (rw (hash, same) have))

-- An upload whose content has the hash of a row of `archives` never succeeds and leaves the
-- database as it was, in either topology and whichever calls fail. The hash of the upload is not
-- blank.
pub ingest_with_source-duplicate :
    (error_text : Error → Text) (sha256 etag : Text → Text) (cfg : Settings) (ids : List Text)
    (body key source : Text) (uploaded_by : ℕ) (now : Time) (w : World)
    → text_eq (trim_space (sha256 body)) [] ≡ false
    → any (has_hash (sha256 body)) w.db.archives ≡ true
    → Refused w
        (ingest_with_source error_text sha256 etag cfg ids body key source uploaded_by now w)
unfolding ingest_with_source ingest_transit ingest_local
ingest_with_source-duplicate error_text sha256 etag cfg ids body key source uploaded_by now w blank
      have =
    choose-Refused (use_bucket cfg)
      (ingest_transit error_text sha256 etag cfg ids body key source uploaded_by now)
      (ingest_local error_text sha256 etag (first_id ids) body key source uploaded_by now) w
      (Refused-bind (λ _. Unit) (unique_object_key etag (key_for cfg source now) 8 ids) with_key w
        (key-Quiet sha256 w.db etag (key_for cfg source now) 8 ids)
        (λ (id, s3_key) w' _ same. Refused-later w w' (with_key (id, s3_key) w') same (
          Refused-bind (Hashed sha256 w'.db body) (stage_with_id sha256 id body key uploaded_by now)
            (copied s3_key) w' (stage_with_id-Quiet sha256 w'.db id body key uploaded_by now)
            (λ st w'' hash same'.
              staged-Refused sha256 body w' blank (rw same have) st
                (copy_or_transit error_text st s3_key source now) w'' hash same'))))
      (Refused-bind (Hashed sha256 w.db body) (stage sha256 (first_id ids) body key uploaded_by now)
        (λ st. refuse_known st (commit_local st source)) w
        (stage-Quiet sha256 w.db (first_id ids) body key uploaded_by now)
        (λ st w' hash same.
          staged-Refused sha256 body w blank have st (commit_local st source) w' hash same))
  where
    copied : Text → Staged → M Archive
    copied s3_key st = refuse_known st (copy_or_transit error_text st s3_key source now)

    with_key : Text × Text → M Archive
    with_key (id, s3_key) = stage_with_id sha256 id body key uploaded_by now >>= copied s3_key
