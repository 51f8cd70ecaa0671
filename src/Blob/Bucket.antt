-- ===== src/Blob/Bucket.antt =====
-- internal/blob/store.go and memory.go: the bucket that the Store interface stands for, with the
-- behaviour of the in-process implementation.
use groot_share.Prelude.{
  ℕ, Text, codes, Bool, true, false, not, ◌&&◌, List, Option, none, some, find, any, keep_if, map,
  length,
}
use groot_share.Time.{Time}
use groot_share.Store.World.{
  World, M, File, Result, ok, err, object_missing, at_path, erase, write, fails, step, system,
}
use groot_share.Blob.Keys.{has_prefix, has_suffix}

pub record Object : Type 0 where
  pub key : Text
  pub etag : Text
  pub size : ℕ
  pub last_modified : Time

-- The hash that is the ETag, of the bytes of the object.
module _ (sha256 : Text → Text) where
  unfoldable pub object : File → Object
  object f = record {
    key = f.path;
    etag = sha256 f.body;
    size = length f.body;
    last_modified = f.modified;
  }

  abbrev found : Option File → Result Object
  found none = err object_missing
  found (some f) = ok (object f)

  -- Head
  unfoldable pub head : Text → M Object
  unfolding object
  head key w = system (fails w) (step w) (found (find (at_path key) w.bucket), step w)

  abbrev fetched : Option File → Result (Text × Object)
  fetched none = err object_missing
  fetched (some f) = ok (f.body, object f)

  -- Get
  unfoldable pub get : Text → M (Text × Object)
  unfolding object
  get key w = system (fails w) (step w) (fetched (find (at_path key) w.bucket), step w)

  -- List
  unfoldable pub list : Text → M (List Object)
  unfolding object
  list prefix w = system (fails w) (step w) (
    ok (
        map object (
          keep_if (λ (f : File). has_prefix f.path prefix && not (has_suffix f.path (codes "/")))
            w.bucket)),
    step w,
  )

-- Put, at the time `now`.
unfoldable pub put : Text → Text → Time → M (Unit {0})
put key body now w = system (fails w) (step w) (
  ok tt,
  record (step w) { bucket = write (record { path = key; body = body; modified = now }) w.bucket },
)

abbrev pub deleted_if : Text → World → Bool → Result (Unit {0}) × World
deleted_if key w true = (ok tt, record (step w) { bucket = erase key w.bucket })
deleted_if key w false = (err object_missing, step w)

abbrev pub deleted : Text → World → Result (Unit {0}) × World
deleted key w = deleted_if key w (any (at_path key) w.bucket)

-- Delete
unfoldable pub delete : Text → M (Unit {0})
delete key w = system (fails w) (step w) (deleted key w)
