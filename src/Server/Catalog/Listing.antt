-- ===== src/Server/Catalog/Listing.antt =====
-- What a listing of the archives leaves.
use groot_share.Prelude.{Text, not, List, Option, none, some, map, sort_by}
use groot_share.Time.{Time}
use groot_share.Store.Types.{Archive}
use groot_share.Store.World.{pure, ◌>>=◌}
use groot_share.Store.World.Spares.{
  Part, Spares, Spares-pure, Spares-choose, Spares-system, Spares-query, Spares-bind,
}
use groot_share.Store.Archives.{list_archives}
use groot_share.Blob.Bucket.{list}
use groot_share.Blob.Keys.{normalize_prefix}
use groot_share.Server.Settings.{Settings, use_bucket}
use groot_share.Server.Catalog.{
  object_archive, later, list_items, list_items_bucket, cached, fill_cache, listed,
}

module _ {P : Part} (etag : Text → Text) (cfg : Settings) (now : Time) where
  pub list_archives-Spares : Spares P list_archives
  unfolding list_archives
  list_archives-Spares = Spares-query _

  pub listed-Spares : (r : Option (List Archive)) → Spares P (listed etag cfg now r)
  unfolding list fill_cache
  listed-Spares (some items) = Spares-pure items
  listed-Spares none =
      Spares-bind (list etag (normalize_prefix cfg.s3_prefix)) _ (Spares-system _ (λ w k. k))
        (λ objs.
          Spares-bind (fill_cache (sort_by later (map object_archive objs)) now)
            (λ _. pure (sort_by later (map object_archive objs))) (record { at = λ w h. h })
            (λ _. Spares-pure (sort_by later (map object_archive objs))))

  pub items-Spares : Spares P (list_items etag cfg now)
  unfolding list_items list_items_bucket cached
  items-Spares =
      Spares-choose (not (use_bucket cfg)) list_archives (cached now >>= listed etag cfg now)
        (λ _. list_archives-Spares)
        (λ _.
          Spares-bind (cached now) (listed etag cfg now) (record { at = λ w h. h }) listed-Spares)
