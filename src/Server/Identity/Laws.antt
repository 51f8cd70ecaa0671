-- ===== src/Server/Identity/Laws.antt =====
-- Who signs in, and what the token that they get is good for.
use groot_share.Prelude.{
  ◌+◌, ◌≡◌, refl, arith, Text, text_eq, Bool, true, false, not, ◌||◌, ◌⊎◌, Option, none, some, find,
  inl, inr,
}
use groot_share.Auth.Secrets.{check_password, new_session_token, hash_secret, hex_encode}
use groot_share.RateLimit.{Limiter}
use groot_share.Store.Types.{User, Db}
use groot_share.Store.World.{
  World, M, Result, ok, err, Error, fails, step, query, answer, may_fail, choose, pure, attempt,
  ◌>>=◌, ◌>>◌,
}
use groot_share.Store.World.Laws.{Keeps}
use groot_share.Store.Names.{trim_space}
use groot_share.Store.Users.{has_username, user_by_username, found_user}
use groot_share.Store.Sessions.{create_session, purge_expired_sessions}
use groot_share.Server.Identity.{
  Login, LoginRequest, LoginReply, signed_in, session_ttl, allow_login_attempt, parse_login,
  checked_login, looked_up, sign_in, opened_session, handle_login_post, login_of, limited,
  or_answer, unauthorized, internal,
}

-- A call whose error is answered: what holds of each outcome.
pub or_answer-at :
    {A R : Type 0} (Q : Result R × World → Type 0) (m : M A) (reply : Error → R) (k : A → M R)
    (w : World)
    → ((e : Error) → (m w).0 ≡ err e → Q (ok (reply e), (m w).1))
    → ((a : A) → (m w).0 ≡ ok a → Q (k a (m w).1))
    → Q (or_answer m reply k w)
or_answer-at {A} {R} Q m reply k w failed passed = go (m w).0 refl
  where
    go :
        (r : Result A)
        → (m w).0 ≡ r
        → Q ((elim r as (λ _. M R) [ ok a ↦ k a | err e ↦ pure (reply e) ]) (m w).1)
    go (ok a) e = passed a e
    go (err x) e = failed x e

pub Keeps-or_answer :
    {A R : Type 0} {Q : Db → Type 0} (m : M A) (reply : Error → R) (f : A → M R)
    → Keeps Q m
    → ((a : A) → Keeps Q (f a))
    → Keeps Q (or_answer m reply f)
Keeps-or_answer {Q = Q} m reply f km kf = record {
  at = λ w h.
      or_answer-at (λ r. Q r.1.db) m reply f w (λ e _. km.at w h)
        (λ a _. (kf a).at (m w).1 (km.at w h));
}

pub db-may_fail : (v : World) → (may_fail v).1.db ≡ v.db
unfolding may_fail
db-may_fail v = ground arith

-- The answer is a token of a user.
abbrev pub token_of : Result LoginReply → Option (Text × User)
token_of (ok (signed_in t v)) = some (t, v)
token_of _ = none

-- What is so of a token that is handed out in world `w`: it is `raw`, and its session is on top of
-- a table that has been purged.
pub record Opened (q : LoginRequest) (u : User) (raw hash : Text) (w : World)
    (r : Result LoginReply × World) : Type 0 where
  pub stored : (create_session u.id hash (q.now + session_ttl) w).0 ≡ ok tt
  pub answer : r.0 ≡ ok (signed_in raw u)
  pub purged :
      r.1 ≡ (purge_expired_sessions q.now (create_session u.id hash (q.now + session_ttl) w).1).1

module _ (sha256_hex : Text → Text) (accepts : Text → Text → Bool) where
  opened_session-Opened :
      (q : LoginRequest) (u : User) (raw hash : Text) (w : World)
      → (token_of (opened_session sha256_hex accepts q u (raw, hash) w).0 ≡ none)
        ⊎ Opened q u raw hash w (opened_session sha256_hex accepts q u (raw, hash) w)
  opened_session-Opened q u raw hash w =
      or_answer-at (λ r. (token_of r.0 ≡ none) ⊎ Opened q u raw hash w r)
        (create_session u.id hash (q.now + session_ttl)) (λ _. internal)
        (λ _. attempt (purge_expired_sessions q.now) >> pure (signed_in raw u)) w (λ e _. inl refl)
        (λ a e. inr (record { stored = e; answer = refl; purged = refl }))

  -- A sign-in that has been answered with a token.
  pub record SignedIn (q : LoginRequest) (l : Login) (w : World) (r : Result LoginReply × World)
      : Type 0 where
    pub user : User
    pub named : find (has_username (trim_space l.username)) w.db.users ≡ some user
    pub accepted : check_password accepts user.password_hash l.password ≡ true
    pub active : user.active ≡ true
    pub after : World
    pub same : after.db ≡ w.db
    pub opened :
        Opened q user (hex_encode q.bytes) (hash_secret sha256_hex (hex_encode q.bytes)) after r

  -- The three ways through the check of a user.
  checked_login-SignedIn :
      (q : LoginRequest) (l : Login) (w v : World) (u : User)
      → v.db ≡ w.db
      → (check_password accepts u.password_hash l.password ≡ true
          → find (has_username (trim_space l.username)) w.db.users ≡ some u)
      → (token_of (checked_login sha256_hex accepts q l.password u v).0 ≡ none)
        ⊎ SignedIn q l w (checked_login sha256_hex accepts q l.password u v)
  unfolding checked_login new_session_token
  checked_login-SignedIn q l w v u same named =
      go (check_password accepts u.password_hash l.password) u.active refl refl
    where
      raw : Text
      raw = hex_encode q.bytes

      hash : Text
      hash = hash_secret sha256_hex raw

      started : M LoginReply
      started =
          or_answer may_fail (λ _. internal) λ _. opened_session sha256_hex accepts q u (raw, hash)

      go :
          (good active : Bool)
          → check_password accepts u.password_hash l.password ≡ good
          → u.active ≡ active
          → (token_of (choose (not good || not active) (pure unauthorized) started v).0 ≡ none)
            ⊎ SignedIn q l w (choose (not good || not active) (pure unauthorized) started v)
      go false active e e' = inl refl
      go true false e e' = inl refl
      go true true e e' =
          or_answer-at (λ r. (token_of r.0 ≡ none) ⊎ SignedIn q l w r) may_fail (λ _. internal)
            (λ _. opened_session sha256_hex accepts q u (raw, hash)) v (λ _ _. inl refl)
            (λ _ _. elim (opened_session-Opened q u raw hash (may_fail v).1) [
              | inl none_out ↦ inl none_out
              | inr o ↦ inr (record {
                user = u;
                named = named e;
                accepted = e;
                active = e';
                after = (may_fail v).1;
                same = rw (db-may_fail v) same;
                opened = o;
              })
            ])

  -- A token is handed out to an active user of that name whose password was given.
  pub sign_in-SignedIn :
      (q : LoginRequest) (l : Login) (w : World)
      → (token_of (sign_in sha256_hex accepts q l w).0 ≡ none)
        ⊎ SignedIn q l w (sign_in sha256_hex accepts q l w)
  unfolding sign_in user_by_username query check_password text_eq
  sign_in-SignedIn q l w =
      go (fails w) (find (has_username (trim_space l.username)) w.db.users) refl
    where
      go :
          (failed : Bool) (found : Option User)
          → find (has_username (trim_space l.username)) w.db.users ≡ found
          → let r =
              (attempt (λ v. answer failed (found_user found) (step v))
                  >>= looked_up sha256_hex accepts q l.password)
                w in
            (token_of r.0 ≡ none) ⊎ SignedIn q l w r
      go true found e = inl refl
      go false none e = checked_login-SignedIn q l w (step w) _ refl (λ bad. cc)
      go false (some u) e = checked_login-SignedIn q l w (step w) u refl (λ _. e)

  -- A reply with no token, or one that the limiter, the password and the store stand behind.
  abbrev pub Explained :
      (Text → Text) → Option Limiter → LoginRequest → World → Result LoginReply × World → Type 0
  Explained to_lower limiter q w r =
      (token_of r.0 ≡ none)
      ⊎ ((l : Login) × (q.body ≡ some l)
          × ((allow_login_attempt to_lower limiter q.remote_ip (trim_space l.username) q.now).0
              ≡ true)
          × SignedIn q (record l { username = trim_space l.username }) w r)

  pub handle_login_post-Explained :
      (to_lower : Text → Text) (limiter : Option Limiter) (q : LoginRequest) (w : World)
      → Explained to_lower limiter q w (handle_login_post sha256_hex accepts to_lower limiter q w).1
  unfolding handle_login_post parse_login
  handle_login_post-Explained to_lower limiter q w = go q.body refl
    where
      limited-Explained :
          (l : Login) (allowed : Bool)
          → q.body ≡ some l
          → (allow_login_attempt to_lower limiter q.remote_ip (trim_space l.username) q.now).0
            ≡ allowed
          → Explained to_lower limiter q w (
              limited sha256_hex accepts q
                (record l { username = trim_space l.username })
                allowed
                w)
      limited-Explained l false b e = inl refl
      limited-Explained l true b e =
          elim (sign_in-SignedIn q (record l { username = trim_space l.username }) w) [
            | inl none_out ↦ inl none_out
            | inr s ↦ inr (l, b, e, s)
          ]

      go :
          (body : Option Login)
          → q.body ≡ body
          → Explained to_lower limiter q w
              (login_of sha256_hex accepts to_lower limiter q (parse_login body) w).1
      go none b = inl refl
      go (some l) b = limited-Explained l _ b refl
