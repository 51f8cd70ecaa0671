-- ===== src/Store/Users/Tests.antt =====
-- The first start of a server.
use groot_share.Prelude.{◌⊎◌, ◌≡◌, Text, codes, [], some, inl, refl}
use groot_share.Store.World.{World}
use groot_share.Store.Sample.{sample, sample_db}
use groot_share.Store.Users.Admins.{HasAdmin}
use groot_share.Store.Users.Bootstrap.{ensure_admin, ensure_admin-HasAdmin}

abbrev empty : World
empty = record sample { db = record sample_db { users = []; share_links = []; archive_pins = [] } }

ensure_admin-HasAdmin_example :
    HasAdmin (ensure_admin (λ p. some p) (codes "root") (codes "password") [] empty).1.db
    × ((empty.db.users ≡ [])
        ⊎ ((ensure_admin (λ p. some p) (codes "root") (codes "password") [] empty).1.db ≡ empty.db))
unfolding ensure_admin groot_share.Store.Users.user_count groot_share.Store.World.query
    groot_share.Prelude.text_eq groot_share.Store.Names.trim_space
    groot_share.Auth.Secrets.hash_password groot_share.Store.Users.create_user
    groot_share.Store.Names.normalize_username groot_share.Store.Names.normalize_name
    groot_share.Auth.valid_role groot_share.Store.World.exec
ensure_admin-HasAdmin_example =
    ensure_admin-HasAdmin (λ p. some p) (codes "root") (codes "password") [] empty (inl refl) refl
