-- ===== src/Server/Actor/Gate.antt =====
-- Whom a request is taken for, and what the gates let through.
use groot_share.Prelude.{
  ℕ, ◌≡◌, refl, sym, arith, Text, Bool, true, false, [], ◌∷◌, Option, none, some, find, inl, inr,
  Option-cases, ==_iff,
}
use mathlib.Core.Path.{subst}
use groot_share.Auth.{
  Role, Permission, api_key, KeyScope, can, archives_write, archives_read, audit_read,
}
use groot_share.Auth.Secrets.{hash_secret, extract_key}
use groot_share.Store.Types.{User, Db}
use groot_share.Store.Rows.{find-passes}
use groot_share.Store.World.{World, M, Result, ok, err, query, pure, choose, attempt, ◌>>=◌}
use groot_share.Store.Users.{has_id}
use groot_share.Store.Sessions.{user_by_session_hash}
use groot_share.Store.Sessions.Laws.{user_by_session_hash-Backed}
use groot_share.Store.ApiKeys.{ApiKeyAuth, auth_by_api_key_hash, has_hash}
use groot_share.Server.Actor.{
  Actor, actor_can, Credentials, actor_from_request, presented, cookie_actor, key_actor,
  session_actor, Gated, handled, forbidden, permitted, require_permission,
}

-- An active user of the table.
abbrev pub Standing : Db → User → Type 0
Standing db u = (u.active ≡ true) × (find (has_id u.id) db.users ≡ some u)

owner-Standing :
    (db : Db) (id : ℕ) (u : User)
    → u.active ≡ true
    → find (has_id id) db.users ≡ some u
    → Standing db u
owner-Standing db id u a e = (
  a,
  subst (λ k. find (has_id k) db.users ≡ some u)
      (sym ((==_iff u.id id).0 (find-passes (has_id id) db.users u e))) e,
)

auth_by_api_key_hash-Standing :
    (key_hash : Text) (w : World) (ka : ApiKeyAuth)
    → (auth_by_api_key_hash key_hash w).0 ≡ ok ka
    → Standing w.db ka.user
unfolding auth_by_api_key_hash query
auth_by_api_key_hash-Standing key_hash w ka h =
    elim (Option-cases (find (has_hash key_hash) w.db.api_keys)) [
      | inl e ↦ ground (arith, h, e)
      | inr (k, e) ↦ elim (Option-cases (find (has_id k.user_id) w.db.users)) [
        | inl e' ↦ ground (arith, h, e, e')
        | inr (u, e') ↦
            owner-Standing w.db k.user_id ka.user (ground (arith, h, e, e'))
              (ground (arith, h, e, e'))
      ]
    ]

-- What an answer says of the caller: nobody, or an active user of the table.
abbrev pub Caller : Db → Result (Option Actor) → Type 0
Caller db (ok (some a)) = Standing db a.user
Caller db _ = Unit {0}

module _ (sha256_hex : Text → Text) (q : Credentials) (w : World) where
  by_key : (key : Text) → Caller w.db ((attempt (auth_by_api_key_hash key) >>= key_actor q.now) w).0
  by_key key =
      go (auth_by_api_key_hash key w).0 (auth_by_api_key_hash key w).1
        (auth_by_api_key_hash-Standing key w)
    where
      go :
          (r : Result ApiKeyAuth) (v : World)
          → ((ka : ApiKeyAuth) → r ≡ ok ka → Standing w.db ka.user)
          → Caller w.db (key_actor q.now r v).0
      go (err e) v s = tt
      go (ok ka) v s = s ka refl

  by_token :
      (hash : Text)
      → Caller w.db ((attempt (user_by_session_hash hash q.now) >>= session_actor) w).0
  by_token hash =
      go (user_by_session_hash hash q.now w).0 (user_by_session_hash hash q.now w).1 λ u e.
        let b = user_by_session_hash-Backed hash q.now w u e in
        owner-Standing w.db b.row.user_id u b.active b.owner
    where
      go :
          (r : Result User) (v : World)
          → ((u : User) → r ≡ ok u → Standing w.db u)
          → Caller w.db (session_actor r v).0
      go (err e) v s = tt
      go (ok u) v s = s u refl

  by_cookie : (cookie : Option Text) → Caller w.db (cookie_actor sha256_hex q.now cookie w).0
  by_cookie none = tt
  by_cookie (some []) = tt
  by_cookie (some (c ∷ value)) = by_token (hash_secret sha256_hex (c ∷ value))

  by_presented : (key : Text) → Caller w.db (presented sha256_hex q key w).0
  by_presented [] = by_cookie q.cookie
  by_presented (c ∷ key) = by_key (hash_secret sha256_hex (c ∷ key))

  caller : Caller w.db (actor_from_request sha256_hex q w).0
  unfolding actor_from_request
  caller = by_presented (extract_key q.x_api_key q.authorization)

-- Whoever a request is taken for, by a key or by a session, is a user of the table who is active.
pub actor_from_request-Standing :
    (sha256_hex : Text → Text) (q : Credentials) (w : World) (a : Actor)
    → (actor_from_request sha256_hex q w).0 ≡ ok (some a)
    → (a.user.active ≡ true) × (find (has_id a.user.id) w.db.users ≡ some a.user)
actor_from_request-Standing sha256_hex q w a h = subst (Caller w.db) h (caller sha256_hex q w)

abbrev pub reached : {R : Type 0} → Result (Gated R) → Bool
reached (ok (handled r)) = true
reached _ = false

module _ {R : Type 0} (sha256_hex : Text → Text) (perm : Permission) (next : Actor → M R)
    (q : Credentials) (w : World) where
  -- A handler behind requirePermission only runs for a caller whose role has the permission by the
  -- method of the request, and with the scope of the key.
  pub require_permission-reached :
      reached (require_permission sha256_hex perm next q w).0 ≡ true
      → (a : Actor) × ((actor_from_request sha256_hex q w).0 ≡ ok (some a))
        × (can a.user.role perm a.method a.key_scope ≡ true)
  unfolding require_permission actor_can
  require_permission-reached h =
      go (actor_from_request sha256_hex q w).0 (actor_from_request sha256_hex q w).1 refl h
    where
      gate :
          (a : Actor) (b : Bool) (v : World)
          → reached (choose b (next a >>= λ r. pure (handled r)) (pure forbidden) v).0 ≡ true
          → b ≡ true
      gate a true v k = refl
      gate a false v k = cc

      go :
          (r : Result (Option Actor)) (v : World)
          → (actor_from_request sha256_hex q w).0 ≡ r
          → reached
              (elim r as (λ _. Result (Gated R) × World) [
                | ok a ↦ permitted perm next a v
                | err e ↦ (err e, v)
              ]).0
            ≡ true
          → (a : Actor) × ((actor_from_request sha256_hex q w).0 ≡ ok (some a))
            × (can a.user.role perm a.method a.key_scope ≡ true)
      go (err e) v same k = cc
      go (ok none) v same k = cc
      go (ok (some a)) v same k = (a, same, gate a (can a.user.role perm a.method a.key_scope) v k)

-- The permissions that a key can ever have.
abbrev pub key_permission : Permission → Bool
key_permission archives_read = true
key_permission archives_write = true
key_permission audit_read = true
key_permission _ = false

can-key_permission :
    (r : Role) (perm : Permission) (s : KeyScope)
    → can r perm api_key s ≡ true
    → key_permission perm ≡ true
unfolding can
can-key_permission r perm s h = ground arith

presented-api_key :
    (sha256_hex : Text → Text) (q : Credentials) (c : ℕ) (key : Text) (w : World) (a : Actor)
    → (presented sha256_hex q (c ∷ key) w).0 ≡ ok (some a)
    → a.method ≡ api_key
presented-api_key sha256_hex q c key w a h = go (auth_by_api_key_hash hash w).0 _ h
  where
    hash : Text
    hash = hash_secret sha256_hex (c ∷ key)

    go :
        (r : Result ApiKeyAuth) (v : World)
        → (key_actor q.now r v).0 ≡ ok (some a)
        → a.method ≡ api_key
    go (err e) v k = cc
    go (ok ka) v k = cc

actor-presented :
    (sha256_hex : Text → Text) (q : Credentials) (w : World) (a : Actor)
    → (actor_from_request sha256_hex q w).0 ≡ ok (some a)
    → (presented sha256_hex q (extract_key q.x_api_key q.authorization) w).0 ≡ ok (some a)
unfolding actor_from_request
actor-presented sha256_hex q w a e = e

-- A request that presents an API key, whatever cookie it has and whoever owns the key, passes
-- requirePermission only for a permission that a key can have.
pub require_permission-key :
    {R : Type 0} (sha256_hex : Text → Text) (perm : Permission) (next : Actor → M R)
    (q : Credentials) (w : World) (c : ℕ) (key : Text)
    → extract_key q.x_api_key q.authorization ≡ c ∷ key
    → reached (require_permission sha256_hex perm next q w).0 ≡ true
    → key_permission perm ≡ true
require_permission-key sha256_hex perm next q w c key shown h =
    let (a, known, allowed) = require_permission-reached sha256_hex perm next q w h in
    let by_key = presented-api_key sha256_hex q c key w a (
      subst (λ k. (presented sha256_hex q k w).0 ≡ ok (some a)) shown
        (actor-presented sha256_hex q w a known)) in
    can-key_permission a.user.role perm a.key_scope
      (subst (λ m. can a.user.role perm m a.key_scope ≡ true) by_key allowed)
