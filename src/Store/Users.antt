-- ===== src/Store/Users.antt =====
-- internal/store/identity.go: the users, and the guard of the last admin; name.go: the rules for
-- login ids and display names.
pub mod Kept
pub mod Admins
pub mod Bootstrap
mod Tests
use groot_share.Prelude.{
  ℕ, suc, Text, text_eq, codes, Bool, true, false, not, ◌&&◌, ◌||◌, List, [], ◌∷◌, ◌++◌, ltb, leb,
  ◌==◌, Option, none, some, if◌then◌else◌, find, any, keep_if, update_if, count_if, length, map,
}
use groot_share.Auth.{Role, admin, is_admin, valid_role}
use groot_share.Store.Types.{User, Session, ApiKey, ArchiveRow, TransitRow, PinRow, ShareRow, Db}
use groot_share.Store.World.{
  M, Result, ok, err, Error, not_found, last_admin, constraint, invalid, pure, raise, choose, query,
  exec, ◌>>=◌, ◌>>◌,
}
use groot_share.Store.Names.{normalize_username, normalize_name, trim_space}

abbrev pub has_id : ℕ → User → Bool
has_id id u = u.id == id

abbrev pub has_username : Text → User → Bool
has_username name u = text_eq u.username name

-- scanUser
abbrev pub found_user : Option User → Result User
found_user none = err not_found
found_user (some u) = ok u

unfoldable pub user_by_id : ℕ → M User
user_by_id id = query λ db. found_user (find (has_id id) db.users)

unfoldable pub user_by_username : Text → M User
user_by_username name = query λ db. found_user (find (has_username (trim_space name)) db.users)

unfoldable pub user_count : M ℕ
user_count = query λ db. ok (length db.users)

abbrev pub is_active_admin : User → Bool
is_active_admin u = is_admin u.role && u.active

abbrev pub active_admins : Db → ℕ
active_admins db = count_if is_active_admin db.users

unfoldable pub count_active_admins : M ℕ
count_active_admins = query λ db. ok (active_admins db)

-- INSERT INTO users: login ids are unique.
unfoldable pub insert_user : Text → Text → Text → Role → Db → Result (User × Db)
insert_user username name password_hash role db =
    if any (has_username username) db.users
    then err constraint
    else ok (row, record db { users = db.users ++ row ∷ []; next_user = suc db.next_user })
  where
    row : User
    row = record {
      id = db.next_user;
      username = username;
      name = name;
      password_hash = password_hash;
      role = role;
      active = true;
    }

abbrev pub lift : {A : Type 0} → Result A → M A
lift (ok a) = pure a
lift (err e) = raise e

-- CreateUser
unfoldable pub create_user : Text → Text → Text → Role → M User
unfolding insert_user
create_user username name password_hash role = do
  login ← lift (normalize_username username)
  shown ← lift (normalize_name name)
  choose (valid_role role) (exec (insert_user login shown password_hash role)) (raise invalid)

-- An UPDATE of one user, which the caller reports as missing where no row has the id.
abbrev pub update_user_row : ℕ → (User → User) → Db → Result (ℕ × Db)
update_user_row id f db =
    ok (count_if (has_id id) db.users, record db { users = update_if (has_id id) f db.users })

abbrev pub found_rows : ℕ → M (Unit {0})
found_rows n = choose (n == 0) (raise not_found) (pure tt)

-- UpdateUser
unfoldable pub update_user : ℕ → Role → Bool → M (Unit {0})
update_user id role active =
    choose (valid_role role)
      (do
        n ← exec (update_user_row id (λ u. record u { role = role; active = active }))
        found_rows n)
      (raise invalid)

-- SetName
unfoldable pub set_name : ℕ → Text → M (Unit {0})
set_name id name = do
  shown ← lift (normalize_name name)
  n ← exec (update_user_row id (λ u. record u { name = shown }))
  found_rows n

-- The unique constraint, which an UPDATE of another row's login id meets.
unfoldable pub set_username_row : ℕ → Text → Db → Result (ℕ × Db)
set_username_row id login db =
    if any (λ u. has_username login u && not (has_id id u)) db.users && any (has_id id) db.users
    then err constraint
    else update_user_row id (λ u. record u { username = login }) db

-- SetUsername
unfoldable pub set_username : ℕ → Text → M (Unit {0})
unfolding set_username_row
set_username id username = do
  login ← lift (normalize_username username)
  n ← exec (set_username_row id login)
  found_rows n

-- GuardLastAdmin
unfoldable pub guard_last_admin : ℕ → Role → Bool → M (Unit {0})
unfolding user_by_id count_active_admins
guard_last_admin id new_role new_active = do
  u ← user_by_id id
  choose (not (is_admin u.role) || not u.active) (pure tt) (
      choose (new_active && is_admin new_role) (pure tt)
        (do n ← count_active_admins; choose (leb n 1) (raise last_admin) (pure tt)))

-- SetPassword: the update and the deletion of the sessions are one transaction.
set_password_tx : ℕ → Text → Db → Result (Unit {0} × Db)
set_password_tx id password_hash db =
    if count_if (has_id id) db.users == 0
    then err not_found
    else ok (
      tt,
      record db {
        users = update_if (has_id id) (λ u. record u { password_hash = password_hash }) db.users;
        sessions = keep_if (λ s. not (s.user_id == id)) db.sessions;
      },
    )

unfoldable pub set_password : ℕ → Text → M (Unit {0})
unfolding set_password_tx
set_password id password_hash = exec (set_password_tx id password_hash)

-- The statements of RemoveUser before the last.
abbrev clear_user : ℕ → Option ℕ → Option ℕ
clear_user id none = none
clear_user id (some u) = if u == id then none else some u

abbrev pub detached : ℕ → Db → Db
detached id db = record db {
  sessions = keep_if (λ s. not (s.user_id == id)) db.sessions;
  api_keys = keep_if (λ k. not (k.user_id == id)) db.api_keys;
  archives =
      map (λ (a : ArchiveRow). record a { uploaded_by = clear_user id a.uploaded_by }) db.archives;
  transit =
      map (λ (t : TransitRow). record t { uploaded_by = clear_user id t.uploaded_by }) db.transit;
}

-- DELETE FROM users: where foreign keys are enforced, a share link of the user forbids it, and
-- the user's pins go with the row.
abbrev pub delete_user_row : ℕ → Db → Result (Unit {0} × Db)
delete_user_row id db =
    if count_if (has_id id) db.users == 0
    then err not_found
    else if db.foreign_keys && any (λ r. r.created_by == id) db.share_links
    then err constraint
    else ok (
      tt,
      record db {
        users = keep_if (λ u. not (has_id id u)) db.users;
        archive_pins =
            if db.foreign_keys
            then keep_if (λ p. not (p.user_id == id)) db.archive_pins
            else db.archive_pins;
      },
    )

-- RemoveUser
unfoldable pub remove_user : ℕ → M (Unit {0})
remove_user id = do
  u ← user_by_id id
  guard_last_admin id u.role false
  exec (λ db. delete_user_row id (detached id db))
