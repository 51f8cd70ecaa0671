-- ===== src/Server/Identity.antt =====
-- internal/server/identity.go and apikeys.go: signing in and out, and the handlers of API keys,
-- from the point where the request has been decoded.
pub mod Laws
pub mod Signed
mod Tests
use groot_share.Prelude.{
  ℕ, ◌+◌, Text, text_eq, codes, Bool, true, false, not, ◌&&◌, ◌||◌, List, [], ◌∷◌, ◌++◌, Option,
  none, some, if◌then◌else◌,
}
use groot_share.Time.{Time, day}
use groot_share.Auth.{
  Role, KeyScope, AuthMethod, session, api_key, upload, read, viewer, uploader, admin, valid_role,
  ScopeCheck, granted, bad_scope, forbidden_scope, check_scope, users_manage,
}
use groot_share.Auth.Secrets.{
  hash_secret, check_password, hash_password, new_session_token, new_api_key, FreshKey,
}
use groot_share.RateLimit.{Limiter, allow}
use groot_share.Store.Types.{User}
use groot_share.Store.World.{
  M, World, Result, ok, err, Error, not_found, name_required, name_too_long, pure, attempt, choose,
  may_fail, ◌>>=◌, ◌>>◌,
}
use groot_share.Store.Names.{trim_space}
use groot_share.Store.Users.{user_by_username, create_user, user_count}
use groot_share.Store.Sessions.{create_session, delete_session, purge_expired_sessions}
use groot_share.Store.ApiKeys.{ApiKeyRecord, create_api_key, list_api_keys_by_user, delete_api_key}
use groot_share.Server.Users.{Request, record_user_audit}
use groot_share.Server.Actor.{Actor, actor_can}

-- `if err := m; err != nil { answer; return }`
abbrev pub or_answer : {A R : Type 0} → M A → (Error → R) → (A → M R) → M R
or_answer m reply k = do r ← attempt m; elim r [ ok a ↦ k a | err e ↦ pure (reply e) ]

-- sessionTTL
abbrev pub session_ttl : ℕ
session_ttl = day

-- The form or the JSON body of POST /login.
pub record Login : Type 0 where
  pub username : Text
  pub password : Text

-- A sign-in: where it comes from, when, its body unless it cannot be decoded, and the random bytes
-- that are drawn for it.
pub record LoginRequest : Type 0 where
  pub remote_ip : Text
  pub now : Time
  pub body : Option Login
  pub bytes : List ℕ

-- parseLogin
unfoldable pub parse_login : Option Login → Option Login
parse_login none = none
parse_login (some l) = some (record l { username = trim_space l.username })

pub data LoginReply : Type 0 where
  bad_request rate_limited unauthorized internal : LoginReply
  signed_in : Text → User → LoginReply

abbrev pub user_key : Text → Text
user_key [] = codes "user:empty"
user_key (c ∷ name) = codes "user:" ++ c ∷ name

-- `l.Allow(a) && l.Allow(b)`, where the second is not called if the first refuses.
abbrev pub allow_then : Bool × Option Limiter → Text → Time → Bool × Option Limiter
allow_then (true, l) key now = allow l key now
allow_then (false, l) key now = (false, l)

-- The zero User, which a failed lookup returns.
abbrev zero_user : User
zero_user = record {
  id = 0;
  username = [];
  name = [];
  password_hash = [];
  role = Role.other [];
  active = false;
}

module _ (to_lower : Text → Text) where
  -- allowLoginAttempt; a nil limiter allows every call.
  unfoldable pub allow_login_attempt : Option Limiter → Text → Text → Time → Bool × Option Limiter
  allow_login_attempt l ip username now =
      allow_then (allow l (codes "ip:" ++ ip) now) (user_key (to_lower (trim_space username))) now

-- `accepts` is the comparison of bcrypt.
module _ (sha256_hex : Text → Text) (accepts : Text → Text → Bool) where
  abbrev pub opened_session : LoginRequest → User → Text × Text → M LoginReply
  opened_session q u (raw, hash) =
      or_answer (create_session u.id hash (q.now + session_ttl)) (λ _. internal)
        λ _. attempt (purge_expired_sessions q.now) >> pure (signed_in raw u)

  -- The user that has been looked up, checked against the password.
  unfoldable pub checked_login : LoginRequest → Text → User → M LoginReply
  checked_login q password u =
      choose (not (check_password accepts u.password_hash password) || not u.active)
        (pure unauthorized)
        (or_answer may_fail (λ _. internal)
          λ _. opened_session q u (new_session_token sha256_hex q.bytes))

  abbrev pub looked_up : LoginRequest → Text → Result User → M LoginReply
  looked_up q password (ok u) = checked_login q password u
  looked_up q password (err not_found) = checked_login q password zero_user
  looked_up q password (err e) = pure internal

  -- handleLoginPOST after the rate limiter.
  unfoldable pub sign_in : LoginRequest → Login → M LoginReply
  sign_in q l = attempt (user_by_username l.username) >>= looked_up q l.password

  abbrev pub limited : LoginRequest → Login → Bool → M LoginReply
  limited q l allowed = choose allowed (sign_in q l) (pure rate_limited)

  abbrev pub login_of :
      (Text → Text)
      → Option Limiter
      → LoginRequest
      → Option Login
      → World
      → Option Limiter × (Result LoginReply × World)
  login_of to_lower limiter q none w = (limiter, pure bad_request w)
  login_of to_lower limiter q (some l) w =
      let (allowed, limiter') = allow_login_attempt to_lower limiter q.remote_ip l.username q.now in
      (limiter', limited q l allowed w)

  -- handleLoginPOST, with the limiter that it leaves.
  unfoldable pub handle_login_post :
      (Text → Text)
      → Option Limiter
      → LoginRequest
      → World
      → Option Limiter × (Result LoginReply × World)
  handle_login_post to_lower limiter q w = login_of to_lower limiter q (parse_login q.body) w

-- handleLogout, of the cookie of the request.
unfoldable pub handle_logout : (Text → Text) → Option Text → M (Unit {0})
handle_logout sha256_hex none = pure tt
handle_logout sha256_hex (some []) = pure tt
handle_logout sha256_hex (some (c ∷ value)) =
    attempt (delete_session (hash_secret sha256_hex (c ∷ value))) >> pure tt
