-- ===== src/Server/Actor.antt =====
-- internal/server/actor.go, and actorFromRequest of identity.go: who makes a request, and the gates
-- in front of the handlers.
pub mod Gate
pub mod Refused
use groot_share.Prelude.{ℕ, Text, Bool, true, false, List, [], ◌∷◌, Option, none, some}
use groot_share.Time.{Time}
use groot_share.Auth.{Permission, AuthMethod, KeyScope, session, api_key, can}
use groot_share.Auth.Secrets.{hash_secret, extract_key}
use groot_share.Store.Types.{User}
use groot_share.Store.World.{M, Result, ok, err, pure, attempt, choose, ◌>>=◌, ◌>>◌}
use groot_share.Store.Sessions.{user_by_session_hash}
use groot_share.Store.ApiKeys.{ApiKeyAuth, auth_by_api_key_hash, touch_api_key_last_used}

-- Actor; a session has the empty key scope.
pub record Actor : Type 0 where
  pub user : User
  pub method : AuthMethod
  pub key_scope : KeyScope

-- Actor.Can, of a pointer that may be nil.
unfoldable pub actor_can : Option Actor → Permission → Bool
actor_can none perm = false
actor_can (some a) perm = can a.user.role perm a.method a.key_scope

-- What identifies the caller: two headers and the cookie gfs_session, and when it arrives.
pub record Credentials : Type 0 where
  pub x_api_key : Text
  pub authorization : Text
  pub cookie : Option Text
  pub now : Time

abbrev pub key_actor : Time → Result ApiKeyAuth → M (Option Actor)
key_actor now (err e) = pure none
key_actor now (ok ka) =
    attempt (touch_api_key_last_used ka.key_id now)
    >> pure (some (record { user = ka.user; method = api_key; key_scope = ka.scope }))

abbrev pub session_actor : Result User → M (Option Actor)
session_actor (err e) = pure none
session_actor (ok u) =
    pure (some (record { user = u; method = session; key_scope = KeyScope.other [] }))

module _ (sha256_hex : Text → Text) where
  abbrev pub cookie_actor : Time → Option Text → M (Option Actor)
  cookie_actor now none = pure none
  cookie_actor now (some []) = pure none
  cookie_actor now (some (c ∷ value)) =
      attempt (user_by_session_hash (hash_secret sha256_hex (c ∷ value)) now) >>= session_actor

  abbrev pub presented : Credentials → Text → M (Option Actor)
  presented q [] = cookie_actor q.now q.cookie
  presented q (c ∷ key) =
      attempt (auth_by_api_key_hash (hash_secret sha256_hex (c ∷ key))) >>= key_actor q.now

  -- actorFromRequest
  unfoldable pub actor_from_request : Credentials → M (Option Actor)
  actor_from_request q = presented q (extract_key q.x_api_key q.authorization)

-- A reply of the gate, or of the handler behind it.
pub data Gated (R : Type 0) : Type 0 where
  unauthorized forbidden : Gated R
  handled : R → Gated R

module _ {R : Type 0} where
  abbrev handle_with : R → M (Gated R)
  handle_with r = pure (handled r)

  abbrev pub permitted : Permission → (Actor → M R) → Option Actor → M (Gated R)
  permitted perm next none = pure unauthorized
  permitted perm next (some a) =
      choose (actor_can (some a) perm) (next a >>= handle_with) (pure forbidden)

  abbrev pub authenticated : (Actor → M R) → Option Actor → M (Gated R)
  authenticated next none = pure unauthorized
  authenticated next (some a) = next a >>= handle_with

  -- requirePermission
  unfoldable pub require_permission :
      (Text → Text) → Permission → (Actor → M R) → Credentials → M (Gated R)
  require_permission sha256_hex perm next q =
      actor_from_request sha256_hex q >>= permitted perm next

  -- requireAuth
  unfoldable pub require_auth : (Text → Text) → (Actor → M R) → Credentials → M (Gated R)
  require_auth sha256_hex next q = actor_from_request sha256_hex q >>= authenticated next
