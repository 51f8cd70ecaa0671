-- ===== src/Store/Sessions.antt =====
-- internal/store/identity.go: the sessions of signed-in users.
pub mod Laws
use groot_share.Prelude.{
  ℕ, ◌*◌, Text, text_eq, Bool, true, not, ◌||◌, List, [], ◌∷◌, ltb, Option, none, some,
  if◌then◌else◌, find, any, keep_if,
}
use groot_share.Time.{Time, Stamp, blank, at, second, year_10000, after, rfc3339, stamp_lt}
use groot_share.Store.Types.{User, Session, Db}
use groot_share.Store.World.{M, Result, ok, err, Error, not_found, constraint, query, exec}
use groot_share.Store.Users.{has_id}

abbrev pub has_token : Text → Session → Bool
has_token hash s = text_eq s.token_hash hash

-- A user that a foreign key names must exist, where foreign keys are enforced.
abbrev pub user_exists : Db → ℕ → Bool
user_exists db id = not db.foreign_keys || any (has_id id) db.users

unfoldable pub insert_session : ℕ → Text → Time → Db → Result (Unit {0} × Db)
insert_session user_id token_hash expires db =
    if any (has_token token_hash) db.sessions
    then err constraint
    else if not (user_exists db user_id)
    then err constraint
    else ok (
      tt,
      record db {
        sessions =
            record { user_id = user_id; token_hash = token_hash; expires_at = rfc3339 expires }
            ∷ db.sessions;
      },
    )

-- CreateSession
unfoldable pub create_session : ℕ → Text → Time → M (Unit {0})
unfolding insert_session
create_session user_id token_hash expires = exec (insert_session user_id token_hash expires)

-- `time.Now().After(until)`, and time.Parse refuses the empty string and years of five digits.
abbrev pub over : Time → Stamp → Bool
over now blank = true
over now (at s) = not (ltb s year_10000) || after now (s * second)

-- The row of the join, if there is one.
abbrev pub joined : Option User → Time → Stamp → Result User
joined none now expires = err not_found
joined (some u) now expires =
    if over now expires then err not_found else if not u.active then err not_found else ok u

abbrev pub session_user : List User → Time → Option Session → Result User
session_user users now none = err not_found
session_user users now (some s) = joined (find (has_id s.user_id) users) now s.expires_at

-- UserBySessionHash, at the time `now`.
unfoldable pub user_by_session_hash : Text → Time → M User
user_by_session_hash token_hash now =
    query λ db. session_user db.users now (find (has_token token_hash) db.sessions)

abbrev pub without_session : Text → Db → Result (Unit {0} × Db)
without_session token_hash db =
    ok (tt, record db { sessions = keep_if (λ s. not (has_token token_hash s)) db.sessions })

-- DeleteSession
unfoldable pub delete_session : Text → M (Unit {0})
delete_session token_hash = exec (without_session token_hash)

abbrev pub purge_sessions : Time → Db → Result (Unit {0} × Db)
purge_sessions now db = ok (
  tt,
  record db { sessions = keep_if (λ s. not (stamp_lt s.expires_at (rfc3339 now))) db.sessions },
)

-- PurgeExpiredSessions; the count is only logged.
unfoldable pub purge_expired_sessions : Time → M (Unit {0})
purge_expired_sessions now = exec (purge_sessions now)
