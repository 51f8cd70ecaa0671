-- ===== src/Server/Identity/Tests.antt =====
-- The root user of the sample signs in, with a comparison that asks for the right password.
use groot_share.Prelude.{
  ◌+◌, ◌≡◌, ◌≢◌, refl, arith, Text, text_eq, codes, [], ◌∷◌, Option, none, some, true, find, Bool,
}
use groot_share.Time.{hour, second, at}
use groot_share.RateLimit.{Limiter}
use groot_share.Auth.Secrets.{check_password, hash_secret, hex_encode}
use groot_share.Store.Types.{Session}
use groot_share.Store.Sessions.{user_by_session_hash}
use groot_share.Store.Sessions.Laws.{set_password-signed_out}
use groot_share.Store.World.{World, ok}
use groot_share.Store.Users.{has_username}
use groot_share.Store.Names.{trim_space}
use groot_share.Store.Sample.{sample, sample_db, root, ana, today, today_second}
use groot_share.Server.Actor.{actor_from_request}
use groot_share.Server.Identity.{
  Login, LoginRequest, allow_login_attempt, handle_login_post, handle_logout,
}
use groot_share.Server.Identity.Laws.{token_of}
use groot_share.Server.Identity.Signed.{
  handle_login_post-checked, handle_login_post-actor, handle_logout-gone, by_cookie, session_of,
}

abbrev asked : Login
asked = record { username = codes " root"; password = codes "correct" }

abbrev request : LoginRequest
request = record {
  remote_ip = codes "10.0.0.1";
  now = today;
  body = some asked;
  bytes = 171 ∷ 7 ∷ [];
}

abbrev compare : Text → Text → Bool
compare hash password = text_eq password (codes "correct")

abbrev limits : Option Limiter
limits = some (record { events = λ key. none; max = 2; window = second; last_sweep = 0 })

abbrev answered : World
answered = (handle_login_post (λ s. s) compare (λ s. s) limits request sample).1.1

token :
    token_of (handle_login_post (λ s. s) compare (λ s. s) limits request sample).1.0
    ≡ some (codes "ab07", root)
unfolding handle_login_post groot_share.Server.Identity.parse_login allow_login_attempt
    groot_share.RateLimit.allow text_eq trim_space groot_share.Server.Identity.sign_in
    groot_share.Store.Users.user_by_username groot_share.Store.World.query
    groot_share.Server.Identity.checked_login check_password groot_share.Store.World.may_fail
    groot_share.Store.Sessions.create_session groot_share.Store.World.exec
    groot_share.Auth.Secrets.new_session_token hex_encode
token = refl

handle_login_post-checked_example :
    (l : Login) × (some asked ≡ some l)
    × ((allow_login_attempt (λ s. s) limits (codes "10.0.0.1") (trim_space l.username) today).0
        ≡ true)
    × (find (has_username (trim_space (trim_space l.username))) sample.db.users ≡ some root)
    × (check_password compare root.password_hash l.password ≡ true)
    × (root.active ≡ true)
    × (codes "ab07" ≡ hex_encode request.bytes)
handle_login_post-checked_example =
    handle_login_post-checked (λ s. s) compare (λ s. s) limits request sample (codes "ab07") root
      token

-- An hour later.
handle_login_post-actor_example :
    (actor_from_request (λ s. s) (by_cookie (codes "ab07") (today + hour)) answered).0
    ≡ ok (some (session_of root))
unfolding handle_login_post groot_share.Server.Identity.parse_login allow_login_attempt
    groot_share.RateLimit.allow text_eq trim_space groot_share.Server.Identity.sign_in
    groot_share.Store.Users.user_by_username groot_share.Store.World.query
    groot_share.Server.Identity.checked_login check_password groot_share.Store.World.may_fail
    groot_share.Store.Sessions.create_session groot_share.Store.World.exec
    groot_share.Store.Sessions.purge_expired_sessions
handle_login_post-actor_example =
    handle_login_post-actor (λ s. s) compare (λ s. s) limits request sample answered (codes "ab07")
      root 171 (7 ∷ []) (today + hour) refl (λ id. ground arith) token refl refl (omega arith)
      (omega arith)

abbrev cookie_session : Session
cookie_session = record {
  user_id = 1;
  token_hash = codes "ab07";
  expires_at = at (today_second + 60);
}

abbrev with_session : World
with_session = record sample { db = record sample_db { sessions = cookie_session ∷ [] } }

handle_logout-gone_example :
    (user_by_session_hash
      (codes "ab07")
      today
      (handle_logout (λ s. s) (some (codes "ab07")) with_session).1).0
    ≢ ok root
handle_logout-gone_example =
    handle_logout-gone (λ s. s) b'a' (codes "b07") with_session today root refl

-- The session of another user lives on.
abbrev two_sessions : World
two_sessions = record sample {
  db = record sample_db {
    sessions =
        cookie_session
        ∷ record { user_id = 2; token_hash = codes "cd"; expires_at = at (today_second + 60) }
        ∷ [];
  };
}

set_password-signed_out_example : ana.id ≢ 1
unfolding groot_share.Store.Users.set_password groot_share.Store.World.exec user_by_session_hash
    groot_share.Store.World.query text_eq
set_password-signed_out_example =
    set_password-signed_out 1 (codes "y") (codes "cd") today two_sessions ana refl refl
