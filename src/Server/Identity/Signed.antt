-- ===== src/Server/Identity/Signed.antt =====
-- Signing in: who may, and what the token is good for afterwards.
use groot_share.Prelude.{
  ℕ, ◌≢◌, ◌*◌, ◌<◌, ◌+◌, ◌≡◌, ◌≤◌, refl, arith, Text, Bool, true, false, List, [], ◌∷◌, Option,
  some, find, inl, inr,
}
use mathlib.Core.Path.{subst}
use groot_share.Time.{Time, second, day, rfc3339, year_10000}
use groot_share.Auth.{session, KeyScope}
use groot_share.Auth.Secrets.{check_password, hash_secret, hex_encode, extract_key}
use groot_share.RateLimit.{Limiter}
use groot_share.Store.Types.{User}
use groot_share.Store.World.{World, Result, ok, fails, query, exec}
use groot_share.Store.Names.{trim_space, trim_left, trim_right}
use groot_share.Store.Rows.{IsUnique, find_unique}
use groot_share.Store.Users.{has_id, has_username}
use groot_share.Store.Sessions.{
  delete_session, user_by_session_hash, has_token, session_user, create_session,
  purge_expired_sessions,
}
use groot_share.Store.Sessions.Laws.{delete_session-gone, top-lookup, create_session-db}
use groot_share.Server.Actor.{Actor, Credentials, actor_from_request}
use groot_share.Server.Identity.{
  Login, LoginRequest, LoginReply, allow_login_attempt, handle_login_post, handle_logout,
}
use groot_share.Server.Identity.Laws.{token_of, SignedIn, handle_login_post-Explained}

-- A token is only handed out if the limiter allows the attempt, to the active user who has the
-- login id and whose password hash accepts the password; and it is the one drawn for this request.
pub handle_login_post-checked :
    (sha256_hex : Text → Text) (accepts : Text → Text → Bool) (to_lower : Text → Text)
    (limiter : Option Limiter) (q : LoginRequest) (w : World) (raw : Text) (u : User)
    → token_of (handle_login_post sha256_hex accepts to_lower limiter q w).1.0 ≡ some (raw, u)
    → (l : Login) × (q.body ≡ some l)
      × ((allow_login_attempt to_lower limiter q.remote_ip (trim_space l.username) q.now).0 ≡ true)
      × (find (has_username (trim_space (trim_space l.username))) w.db.users ≡ some u)
      × (check_password accepts u.password_hash l.password ≡ true)
      × (u.active ≡ true)
      × (raw ≡ hex_encode q.bytes)
handle_login_post-checked sha256_hex accepts to_lower limiter q w raw u h =
    elim (handle_login_post-Explained sha256_hex accepts to_lower limiter q w) [
      | inl none_out ↦ cc
      | inr (l, b, allowed, s) ↦
          let e : (raw ≡ hex_encode q.bytes) × (u ≡ s.user) = ground (arith, h, s.opened.answer) in
          (l, b, allowed, rw (e.1) s.named, rw (e.1) s.accepted, rw (e.1) s.active, e.0)
    ]

module _ (sha256_hex : Text → Text) (accepts : Text → Text → Bool) (q : LoginRequest) (l : Login)
    (w : World) where
  -- The token of a sign-in, looked up in a world with the same database.
  SignedIn-lookup :
      (r : Result LoginReply × World) (now : Time) (v : World)
      (s : SignedIn sha256_hex accepts q l w r)
      → ((id : ℕ) → IsUnique (has_id id) w.db.users)
      → q.now + day < year_10000 * second
      → now + second ≤ q.now + day
      → v.db ≡ r.1.db
      → fails v ≡ false
      → (user_by_session_hash (hash_secret sha256_hex (hex_encode q.bytes)) now v).0 ≡ ok s.user
  unfolding user_by_session_hash query
  SignedIn-lookup r now v s unique bound early same fine =
      rw fine (rw same (rw s.opened.purged looked))
    where
      hash : Text
      hash = hash_secret sha256_hex (hex_encode q.bytes)

      stored : World
      stored = (create_session s.user.id hash (q.now + day) s.after).1

      table : stored.db ≡ record s.after.db {
        sessions =
            record { user_id = s.user.id; token_hash = hash; expires_at = rfc3339 (q.now + day) }
            ∷ s.after.db.sessions;
      }
      table = create_session-db s.user.id hash (q.now + day) s.after s.opened.stored

      owner : find (has_id s.user.id) stored.db.users ≡ some s.user
      owner = rw table (
          rw s.same (
            find_unique (has_username (trim_space l.username)) (has_id s.user.id) w.db.users s.user
              (unique s.user.id) s.named (ground arith)))

      looked :
          session_user
            (purge_expired_sessions q.now stored).1.db.users
            now
            (find (has_token hash) (purge_expired_sessions q.now stored).1.db.sessions)
          ≡ ok s.user
      looked =
          top-lookup s.user hash q.now (q.now + day) now stored s.after.db.sessions (rw table refl)
            owner s.active (omega arith) bound early

-- A browser's request, which has the cookie and no key.
abbrev pub by_cookie : Text → Time → Credentials
by_cookie cookie now = record {
  x_api_key = [];
  authorization = [];
  cookie = some cookie;
  now = now;
}

abbrev pub session_of : User → Actor
session_of u = record { user = u; method = session; key_scope = KeyScope.other [] }

cookie-actor :
    (sha256_hex : Text → Text) (c : ℕ) (value : Text) (now : Time) (v : World) (u : User)
    → (user_by_session_hash (hash_secret sha256_hex (c ∷ value)) now v).0 ≡ ok u
    → (actor_from_request sha256_hex (by_cookie (c ∷ value) now) v).0 ≡ ok (some (session_of u))
unfolding actor_from_request extract_key trim_space trim_left trim_right
cookie-actor sha256_hex c value now v u h = rw h refl

-- The token that a sign-in has handed out makes its holder the signed-in user: as long as the
-- database stays as the sign-in left it, a request that presents the token as its cookie more than
-- a second before the 24 hours are over is the user's, where ids are unique, the lookup does not
-- fail and the year 10000 is more than 24 hours away.
pub handle_login_post-actor :
    (sha256_hex : Text → Text) (accepts : Text → Text → Bool) (to_lower : Text → Text)
    (limiter : Option Limiter) (q : LoginRequest) (w v : World) (raw : Text) (u : User) (b : ℕ)
    (bytes : List ℕ) (now : Time)
    → q.bytes ≡ b ∷ bytes
    → ((id : ℕ) → IsUnique (has_id id) w.db.users)
    → token_of (handle_login_post sha256_hex accepts to_lower limiter q w).1.0 ≡ some (raw, u)
    → v.db ≡ (handle_login_post sha256_hex accepts to_lower limiter q w).1.1.db
    → fails v ≡ false
    → q.now + day < year_10000 * second
    → now + second ≤ q.now + day
    → (actor_from_request sha256_hex (by_cookie raw now) v).0 ≡ ok (some (session_of u))
unfolding hex_encode
handle_login_post-actor sha256_hex accepts to_lower limiter q w v raw u b bytes now drawn unique h
      same fine bound early =
    elim (handle_login_post-Explained sha256_hex accepts to_lower limiter q w) [
      | inl none_out ↦ cc
      | inr (l, _, _, s) ↦
          let e : (raw ≡ hex_encode q.bytes) × (u ≡ s.user) = ground (arith, h, s.opened.answer) in
          let looked =
            SignedIn-lookup sha256_hex accepts q (record l { username = trim_space l.username }) w _
              now v s unique bound early same fine in
          rw (e.0) (
            rw (e.1) (
              rw drawn (
                cookie-actor sha256_hex _ _ now v s.user (
                  subst
                    (λ t.
                      (user_by_session_hash (hash_secret sha256_hex (hex_encode t)) now v).0
                      ≡ ok s.user)
                    drawn looked))))
    ]

deleted : (hash : Text) (w : World) → fails w ≡ false → (delete_session hash w).0 ≡ ok tt
unfolding delete_session exec
deleted hash w fine = ground (arith, fine)

-- A browser that has signed out, by a request that reached the database, is nobody to the store:
-- its token stands for no user at any later time.
pub handle_logout-gone :
    (sha256_hex : Text → Text) (c : ℕ) (value : Text) (w : World) (now : Time) (u : User)
    → fails w ≡ false
    → (user_by_session_hash
        (hash_secret sha256_hex (c ∷ value))
        now
        (handle_logout sha256_hex (some (c ∷ value)) w).1).0
      ≢ ok u
unfolding handle_logout
handle_logout-gone sha256_hex c value w now u fine =
    delete_session-gone (hash_secret sha256_hex (c ∷ value)) now w u
      (deleted (hash_secret sha256_hex (c ∷ value)) w fine)
