-- ===== src/Server/Routes/Tests.antt =====
-- A key of the uploader of the sample.
use groot_share.Prelude.{
  any, find, text_eq, codes, true, none, [], ◌∷◌, ◌≡◌, refl, inl, some, map, keep_if,
}
use groot_share.Auth.{archives_read, api_key, read}
use groot_share.Store.Sample.{sample, sample_db, today, ana}
use groot_share.Server.Actor.{Actor, Credentials, require_permission, actor_from_request}
use groot_share.Time.{blank}
use groot_share.Store.Types.{ApiKey}
use groot_share.Store.World.{World, pure}
use groot_share.Store.ApiKeys.{auth_by_api_key_hash}
use groot_share.Server.Routes.{route, asks, Route, routes, grants}
use groot_share.Server.Routes.Keyed.{
  open_patterns, require_permission-open_patterns, key_patterns, routes-key_patterns,
}

abbrev reader : Actor
reader = record { user = ana; method = api_key; key_scope = read }

routes-key_patterns_example :
    map (λ r. r.pattern) (keep_if (λ (r : Route). grants (some reader) r.gate) routes)
    ≡ key_patterns read
routes-key_patterns_example = routes-key_patterns reader refl (inl refl)

-- The uploader's key, which asks for the listing.
abbrev key : ApiKey
key = record {
  id = 1;
  user_id = 2;
  key_hash = codes "gfs_ab07";
  prefix = codes "gfs_ab07";
  scope = read;
  last_used_at = blank;
}

abbrev with_key : World
with_key = record sample { db = record sample_db { api_keys = key ∷ []; next_key = 2 } }

abbrev presenting : Credentials
presenting = record { x_api_key = codes "gfs_ab07"; authorization = []; cookie = none; now = today }

listing_found :
    find (λ (x : Route). text_eq x.pattern (codes "GET /v1/archives")) routes
    ≡ some (route (codes "GET /v1/archives") (asks archives_read))
unfolding routes text_eq
listing_found = refl

require_permission-open_patterns_example :
    any (text_eq (codes "GET /v1/archives")) open_patterns ≡ true
unfolding groot_share.Auth.Secrets.extract_key groot_share.Store.Names.trim_space require_permission
    actor_from_request auth_by_api_key_hash groot_share.Store.World.query text_eq
    groot_share.Server.Actor.actor_can groot_share.Auth.can
require_permission-open_patterns_example =
    require_permission-open_patterns (λ s. s)
      (route (codes "GET /v1/archives") (asks archives_read)) archives_read (λ a. pure a) presenting
      with_key b'g' (codes "fs_ab07") listing_found refl refl refl
