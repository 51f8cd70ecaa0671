-- ===== src/Store/Sessions/Laws.antt =====
-- Who a session token stands for, and when it stops to.
use groot_share.Prelude.{
  ℕ, ◌+◌, ◌*◌, ◌<◌, ◌≡◌, ◌≢◌, ◌≤◌, arith, Text, text_eq_refl, true, false, not, List, ◌∷◌, some,
  find, keep_if, ◌==◌, sym, inl, inr, Option-cases,
}
use groot_share.Time.{Time, rfc3339, second, year_10000}
use groot_share.Store.Types.{User, Session, Db}
use groot_share.Store.World.{World, ok, query, exec}
use groot_share.Store.Users.{has_id, set_password}
use groot_share.Store.Rows.{find-passes, find-kept, find-erased}
use groot_share.Store.Sessions.{
  has_token, over, session_user, user_by_session_hash, delete_session, create_session,
  insert_session, purge_expired_sessions,
}

-- The row behind an answer: an unexpired session of an active user.
pub record Backed (db : Db) (token_hash : Text) (now : Time) (u : User) : Type 0 where
  pub row : Session
  pub found : find (has_token token_hash) db.sessions ≡ some row
  pub current : over now row.expires_at ≡ false
  pub owner : find (has_id row.user_id) db.users ≡ some u
  pub active : u.active ≡ true

pub user_by_session_hash-Backed :
    (token_hash : Text) (now : Time) (w : World) (u : User)
    → (user_by_session_hash token_hash now w).0 ≡ ok u
    → Backed w.db token_hash now u
unfolding user_by_session_hash query
user_by_session_hash-Backed token_hash now w u h =
    elim (Option-cases (find (has_token token_hash) w.db.sessions)) [
      | inl e ↦ ground (arith, h, e)
      | inr (s, e) ↦ elim (Option-cases (find (has_id s.user_id) w.db.users)) [
        | inl e' ↦ ground (arith, h, e, e')
        | inr (v, e') ↦ record {
          row = s;
          found = e;
          current = ground (arith, h, e, e');
          owner = ground (arith, h, e, e');
          active = ground (arith, h, e, e');
        }
      ]
    ]

set_password-sessions :
    (id : ℕ) (password_hash : Text) (w : World)
    → (set_password id password_hash w).0 ≡ ok tt
    → (set_password id password_hash w).1.db.sessions
      ≡ keep_if (λ s. not (s.user_id == id)) w.db.sessions
unfolding set_password exec
set_password-sessions id password_hash w done = ground (arith, done)

-- The owner of a session that survived the deletion of a user's sessions is another user.
kept_owner :
    (id : ℕ) (db db' : Db) (token_hash : Text) (now : Time) (u : User)
    → db'.sessions ≡ keep_if (λ s. not (s.user_id == id)) db.sessions
    → Backed db' token_hash now u
    → u.id ≢ id
kept_owner id db db' token_hash now u same b = ground (
  arith,
  find-kept (has_token token_hash) (λ s. not (s.user_id == id)) db.sessions b.row
      (rw (sym same) b.found),
  find-passes (has_id b.row.user_id) db'.users u b.owner,
)

-- After a change of password has succeeded, no token of that user is good for anything, at any
-- time and whatever happens to the lookup.
pub set_password-signed_out :
    (id : ℕ) (password_hash token_hash : Text) (now : Time) (w : World) (u : User)
    → (set_password id password_hash w).0 ≡ ok tt
    → (user_by_session_hash token_hash now (set_password id password_hash w).1).0 ≡ ok u
    → u.id ≢ id
set_password-signed_out id password_hash token_hash now w u done h =
    let w' = (set_password id password_hash w).1 in
    kept_owner id w.db w'.db token_hash now u (set_password-sessions id password_hash w done)
      (user_by_session_hash-Backed token_hash now w' u h)

-- A token whose session has been deleted stands for nobody, whenever it is looked up.
pub delete_session-gone :
    (token_hash : Text) (now : Time) (w : World) (u : User)
    → (delete_session token_hash w).0 ≡ ok tt
    → (user_by_session_hash token_hash now (delete_session token_hash w).1).0 ≢ ok u
unfolding delete_session user_by_session_hash query exec
delete_session-gone token_hash now w u done =
    ground (arith, done, find-erased (has_token token_hash) w.db.sessions)

-- What the table holds once a session has been stored.
pub create_session-db :
    (user_id : ℕ) (token_hash : Text) (expires : Time) (w : World)
    → (create_session user_id token_hash expires w).0 ≡ ok tt
    → (create_session user_id token_hash expires w).1.db ≡ record w.db {
      sessions =
          record { user_id = user_id; token_hash = token_hash; expires_at = rfc3339 expires }
          ∷ w.db.sessions;
    }
unfolding create_session insert_session exec
create_session-db user_id token_hash expires w done = ground (arith, done)

-- A session that is on top of the table stands for its owner until it expires, also after a purge
-- of what has expired by the time that it was stored.
pub top-lookup :
    (u : User) (token_hash : Text) (stored expires now : Time) (w : World) (rest : List Session)
    → w.db.sessions
      ≡ record { user_id = u.id; token_hash = token_hash; expires_at = rfc3339 expires } ∷ rest
    → find (has_id u.id) w.db.users ≡ some u
    → u.active ≡ true
    → stored ≤ expires
    → expires < year_10000 * second
    → now + second ≤ expires
    → session_user
        (purge_expired_sessions stored w).1.db.users
        now
        (find (has_token token_hash) (purge_expired_sessions stored w).1.db.sessions)
      ≡ ok u
unfolding purge_expired_sessions exec
top-lookup u token_hash stored expires now w rest top found active later bound early =
    ground (arith, top, found, active, text_eq_refl token_hash)
