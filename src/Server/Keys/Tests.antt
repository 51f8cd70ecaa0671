-- ===== src/Server/Keys/Tests.antt =====
-- Keys of the sample's users.
use groot_share.Prelude.{
  ℕ, ◌≡◌, ◌≢◌, refl, arith, Text, codes, List, [], ◌∷◌, none, some, find, true,
}
use groot_share.Time.{blank}
use groot_share.Auth.{upload, granted, check_scope, api_key, archives_write, archives_delete}
use groot_share.Auth.Secrets.{FreshKey, new_api_key}
use groot_share.Store.Types.{ApiKey}
use groot_share.Store.World.{World, ok, pure}
use groot_share.Store.ApiKeys.{auth_by_api_key_hash, delete_api_key, has_hash, ApiKeyAuth}
use groot_share.Store.Users.{has_id}
use groot_share.Store.Sample.{sample, sample_db, root, ana, today}
use groot_share.Server.Users.{Request}
use groot_share.Server.Actor.{Actor, Credentials, actor_from_request, require_permission}
use groot_share.Server.Actor.Gate.{actor_from_request-Standing}
use groot_share.Server.Actor.Refused.{require_permission-turned_away}
use groot_share.Server.Identity.Signed.{session_of}
use groot_share.Server.Keys.{
  settings_revoke_key, json, handle_create_api_key, handle_delete_api_key,
}
use groot_share.Server.Keys.Laws.{handle_delete_api_key-HasKey, delete_api_key-revoked}
use groot_share.Server.Keys.Fresh.{handle_create_api_key-actor, key_made}

abbrev identity : Text → Text
identity s = s

abbrev made : FreshKey
made = record { raw = codes "gfs_ab07"; hash = codes "gfs_ab07"; prefix = codes "gfs_ab07" }

abbrev answered : World
answered =
    (handle_create_api_key identity (some (session_of ana)) (json none) (171 ∷ 7 ∷ []) sample).1

abbrev presenting : Credentials
presenting = record { x_api_key = codes "gfs_ab07"; authorization = []; cookie = none; now = today }

shown :
    key_made
      (handle_create_api_key identity (some (session_of ana)) (json none) (171 ∷ 7 ∷ []) sample).0
    ≡ some (made, upload)
unfolding handle_create_api_key groot_share.Server.Keys.create_api_key_for_user check_scope
    groot_share.Server.Keys.requested_scope groot_share.Store.World.may_fail
    groot_share.Store.ApiKeys.create_api_key groot_share.Auth.valid_key_scope
    groot_share.Store.World.exec new_api_key groot_share.Auth.Secrets.hex_encode
shown = refl

handle_create_api_key-actor_example :
    ((actor_from_request identity presenting answered).0
      ≡ ok (some (record { user = ana; method = api_key; key_scope = upload })))
    × (check_scope ana.role upload ≡ granted)
unfolding handle_create_api_key groot_share.Server.Keys.create_api_key_for_user check_scope
    groot_share.Server.Keys.requested_scope groot_share.Store.World.may_fail
    groot_share.Store.ApiKeys.create_api_key groot_share.Auth.valid_key_scope
    groot_share.Store.World.exec
handle_create_api_key-actor_example =
    handle_create_api_key-actor identity (session_of ana) (json none) (171 ∷ 7 ∷ []) sample answered
      made upload presenting (omega arith, (omega arith, tt)) refl refl shown refl refl refl

abbrev key : ApiKey
key = record {
  id = 1;
  user_id = 2;
  key_hash = codes "gfs_ab07";
  prefix = codes "gfs_ab07";
  scope = upload;
  last_used_at = blank;
}

abbrev with_key : World
with_key = record sample { db = record sample_db { api_keys = key ∷ []; next_key = 2 } }

abbrev by_root : Request
by_root = record { actor = codes "root"; actor_id = 1; remote_ip = []; now = today }

-- The admin asks for the key of another user.
handle_delete_api_key-HasKey_example :
    (find
        (has_hash (codes "gfs_ab07"))
        (handle_delete_api_key
          (λ n. n ∷ [])
          by_root
          (some (session_of root))
          (some 1)
          with_key).1.db.api_keys
      ≡ some key)
    × (find
          (has_hash (codes "gfs_ab07"))
          (settings_revoke_key
            (λ n. n ∷ [])
            by_root
            (some (session_of root))
            (some 1)
            with_key).1.db.api_keys
        ≡ some key)
unfolding groot_share.Prelude.text_eq
handle_delete_api_key-HasKey_example =
    handle_delete_api_key-HasKey (codes "gfs_ab07") key (λ n. n ∷ []) by_root (session_of root)
      (some 1) with_key (λ e. cc) refl

known :
    (actor_from_request identity presenting with_key).0
    ≡ ok (some (record { user = ana; method = api_key; key_scope = upload }))
unfolding actor_from_request groot_share.Auth.Secrets.extract_key groot_share.Store.Names.trim_space
    auth_by_api_key_hash groot_share.Store.World.query groot_share.Prelude.text_eq
known = refl

actor_from_request-Standing_example :
    (ana.active ≡ true) × (find (has_id 2) with_key.db.users ≡ some ana)
actor_from_request-Standing_example =
    actor_from_request-Standing identity presenting with_key
      (record { user = ana; method = api_key; key_scope = upload }) known

-- Another key of the same user, after the first one has been revoked.
abbrev second_key : ApiKey
second_key = record key { id = 2; key_hash = codes "h" }

abbrev two_keys : World
two_keys = record sample {
  db = record sample_db { api_keys = key ∷ second_key ∷ []; next_key = 3 };
}

abbrev other_auth : ApiKeyAuth
other_auth = record { key_id = 2; user = ana; scope = upload }

delete_api_key-revoked_example : ¬ ((other_auth.key_id ≡ 1) × (ana.id ≡ 2))
unfolding delete_api_key groot_share.Store.World.exec auth_by_api_key_hash
    groot_share.Store.World.query groot_share.Prelude.text_eq
delete_api_key-revoked_example =
    delete_api_key-revoked 1 2 (codes "h") two_keys (delete_api_key 1 2 two_keys).1 other_auth refl
      refl refl

-- A deletion by the key.
require_permission-turned_away_example :
    let v = (require_permission identity archives_delete (λ a. pure a) presenting with_key).1 in
    (v.db ≡ record with_key.db { api_keys = v.db.api_keys })
    × (v.disk ≡ with_key.disk)
    × (v.bucket ≡ with_key.bucket)
unfolding require_permission actor_from_request groot_share.Auth.Secrets.extract_key
    groot_share.Store.Names.trim_space auth_by_api_key_hash groot_share.Store.World.query
    groot_share.Prelude.text_eq groot_share.Server.Actor.actor_can groot_share.Auth.can
require_permission-turned_away_example =
    require_permission-turned_away identity archives_delete (λ a. pure a) presenting with_key refl
