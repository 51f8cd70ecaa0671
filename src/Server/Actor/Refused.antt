-- ===== src/Server/Actor/Refused.antt =====
-- What a request that the gate turns away has changed.
use groot_share.Prelude.{
  ℕ, ◌≡◌, refl, arith, Text, Bool, true, false, List, [], ◌∷◌, Option, none, some, leb, find,
}
use groot_share.Time.{Time}
use groot_share.Auth.{Permission, api_key, can}
use groot_share.Auth.Secrets.{hash_secret, extract_key}
use groot_share.Store.Types.{Db}
use groot_share.Store.World.{World, File, M, Result, ok, err, pure, choose, attempt, exec, ◌>>=◌}
use groot_share.Store.World.Spares.{
  Spares, Spares-pure, Spares-attempt, Spares-choose, Spares-query, Spares-exec, Spares-bind,
  Spares-after,
}
use groot_share.Store.Sessions.{user_by_session_hash, session_user, has_token}
use groot_share.Store.ApiKeys.{
  auth_by_api_key_hash, touch_api_key_last_used, touched, key_auth, has_hash,
}
use groot_share.Server.Actor.{
  Actor, actor_can, Credentials, actor_from_request, presented, cookie_actor, key_actor,
  session_actor, Gated, handled, unauthorized, forbidden, permitted, require_permission,
}

module _ (w : World) where
  -- Only the table of keys may have changed.
  abbrev ButKeys : Db → List File → List File → Type 0
  ButKeys db disk bucket =
      (db ≡ record w.db { api_keys = db.api_keys }) × (disk ≡ w.disk) × (bucket ≡ w.bucket)

  touch-ButKeys : (id : ℕ) (now : Time) → Spares ButKeys (touch_api_key_last_used id now)
  unfolding touch_api_key_last_used
  touch-ButKeys id now =
      Spares-choose (leb id 0) (pure tt) (exec (touched id now)) (λ _. Spares-pure tt)
        (λ _.
          Spares-exec (touched id now)
            (λ db disk bucket a db' (k, d, b) e. (ground (arith, k, e), d, b)))

  key_actor-ButKeys :
      (now : Time) (key : Text)
      → Spares ButKeys (attempt (auth_by_api_key_hash key) >>= key_actor now)
  unfolding auth_by_api_key_hash
  key_actor-ButKeys now key =
      Spares-after (auth_by_api_key_hash key) (key_actor now)
        (Spares-query (λ db. key_auth db.users (find (has_hash key) db.api_keys)))
        (λ ka.
          Spares-bind (attempt (touch_api_key_last_used ka.key_id now)) _
            (Spares-attempt _ (touch-ButKeys ka.key_id now))
            (λ _.
              Spares-pure
                (some (record { user = ka.user; method = api_key; key_scope = ka.scope }))))
        (λ e. Spares-pure none)

  module _ (sha256_hex : Text → Text) (q : Credentials) where
    cookie-ButKeys : (cookie : Option Text) → Spares ButKeys (cookie_actor sha256_hex q.now cookie)
    unfolding user_by_session_hash
    cookie-ButKeys none = Spares-pure none
    cookie-ButKeys (some []) = Spares-pure none
    cookie-ButKeys (some (c ∷ value)) =
        let hash = hash_secret sha256_hex (c ∷ value) in
        Spares-after (user_by_session_hash hash q.now) session_actor
          (Spares-query (λ db. session_user db.users q.now (find (has_token hash) db.sessions)))
          (λ u. Spares-pure _) (λ e. Spares-pure none)

    presented-ButKeys : (key : Text) → Spares ButKeys (presented sha256_hex q key)
    presented-ButKeys [] = cookie-ButKeys q.cookie
    presented-ButKeys (c ∷ key) = key_actor-ButKeys q.now (hash_secret sha256_hex (c ∷ key))

    actor-ButKeys : Spares ButKeys (actor_from_request sha256_hex q)
    unfolding actor_from_request
    actor-ButKeys = presented-ButKeys (extract_key q.x_api_key q.authorization)

-- The replies of the gate itself.
abbrev pub turned_away : {R : Type 0} → Result (Gated R) → Bool
turned_away (ok unauthorized) = true
turned_away (ok forbidden) = true
turned_away _ = false

-- A request that the gate turns away, for want of a caller or of the permission, has no effect but
-- on the table of keys, which has the time of their last use: the rest of the database, the disk
-- and the bucket are as before, whatever the handler would have done.
pub require_permission-turned_away :
    {R : Type 0} (sha256_hex : Text → Text) (perm : Permission) (next : Actor → M R)
    (q : Credentials) (w : World)
    → turned_away (require_permission sha256_hex perm next q w).0 ≡ true
    → let v = (require_permission sha256_hex perm next q w).1 in
      (v.db ≡ record w.db { api_keys = v.db.api_keys }) × (v.disk ≡ w.disk) × (v.bucket ≡ w.bucket)
unfolding require_permission actor_can
require_permission-turned_away {R} sha256_hex perm next q w h =
    go (actor_from_request sha256_hex q w).0 (actor_from_request sha256_hex q w).1
      ((actor-ButKeys w sha256_hex q).at w (refl, refl, refl)) h
  where
    ran : (a : Actor) (u : World) → turned_away ((next a >>= λ x. pure (handled x)) u).0 ≡ false
    ran a u = outcome (next a u).0 (next a u).1
      where
        outcome :
            (r : Result R) (v : World)
            → turned_away
                (elim r as (λ _. Result (Gated R) × World) [
                  | ok x ↦ (ok (handled x), v)
                  | err e ↦ (err e, v)
                ]).0
              ≡ false
        outcome (ok x) v = refl
        outcome (err e) v = refl

    gate :
        (a : Actor) (allowed : Bool) (u : World)
        → ButKeys w u.db u.disk u.bucket
        → let r = choose allowed (next a >>= λ x. pure (handled x)) (pure forbidden) u in
          turned_away r.0 ≡ true → ButKeys w r.1.db r.1.disk r.1.bucket
    gate a false u k t = k
    gate a true u k t = ground (arith, t, ran a u)

    go :
        (r : Result (Option Actor)) (u : World)
        → ButKeys w u.db u.disk u.bucket
        → let s = elim r as (λ _. Result (Gated R) × World) [
          | ok a ↦ permitted perm next a u
          | err e ↦ (err e, u)
        ] in
          turned_away s.0 ≡ true → ButKeys w s.1.db s.1.disk s.1.bucket
    go (err e) u k t = k
    go (ok none) u k t = k
    go (ok (some a)) u k t = gate a (can a.user.role perm a.method a.key_scope) u k t
