-- ===== src/Store/Users/Kept.antt =====
-- The operations on users and the last active admin.
use groot_share.Prelude.{
  count_if, List, [], ◌∷◌, ◌++◌, ◌+◌, suc, if◌then◌else◌, ℕ, ◌≡◌, refl, sym, Bool, false, some,
  find, update_if, keep_if, arith, Text, not, ◌==◌,
}
use mathlib.Core.Path.{subst}
use groot_share.Auth.{Role, valid_role}
use groot_share.Store.Types.{Db, User}
use groot_share.Store.Rows.{count-update_if, count-delete, count-keep_if-le}
use groot_share.Store.World.{World, M, Result, ok, err, ◌>>◌, exec}
use groot_share.Store.World.Laws.{
  db-query, exec-at, bind-at, Keeps, Keeps-same, Keeps-exec, Keeps-bind, Keeps-choose, Keeps-raise,
  Keeps-pure,
}
use groot_share.Store.Users.{
  insert_user, create_user, has_id, is_active_admin, guard_last_admin, user_by_id, set_password,
  set_name, set_username, remove_user, lift, found_rows, update_user_row, set_username_row,
  delete_user_row, detached,
}
use groot_share.Store.Names.{normalize_name, normalize_username}
use groot_share.Store.Users.Admins.{HasAdmin, Harmless, guard-Harmless}
use groot_share.Store.Audit.{Audit, insert_audit}

-- A statement that leaves the table of users alone.
pub HasAdmin-users :
    {db db' : Db} → db'.users ≡ db.users → db'.next_user ≡ db.next_user → HasAdmin db → HasAdmin db'
HasAdmin-users e n h = record {
  unique = λ id. rw e (h.unique id);
  present = rw e h.present;
  fresh = λ id below. rw e (h.fresh id (rw (sym n) below));
}

pub insert_audit-HasAdmin : (ev : Audit) (now : ℕ) → Keeps HasAdmin (insert_audit ev now)
unfolding insert_audit
insert_audit-HasAdmin ev now =
    Keeps-exec _ (λ db a db' h e. HasAdmin-users (ground arith) (ground arith) h)

-- A statement that changes neither ids, roles nor states of the users.
pub update_fields-HasAdmin :
    (db db' : Db) (q : User → Bool) (f : User → User)
    → ((u : User) → (f u).id ≡ u.id)
    → ((u : User) → is_active_admin (f u) ≡ is_active_admin u)
    → db'.users ≡ update_if q f db.users
    → db'.next_user ≡ db.next_user
    → HasAdmin db
    → HasAdmin db'
update_fields-HasAdmin db db' q f same_id same_tier e n h = record {
  unique = λ id.
      rw e (rw (count-update_if (has_id id) q f (λ u. rw (same_id u)) db.users) (h.unique id));
  present = rw e (rw (count-update_if is_active_admin q f same_tier db.users) h.present);
  fresh = λ id below. rw e (
      rw (count-update_if (has_id id) q f (λ u. rw (same_id u)) db.users)
        (h.fresh id (rw (sym n) below)));
}

pub set_password-HasAdmin : (id : ℕ) (hash : Text) → Keeps HasAdmin (set_password id hash)
unfolding set_password
set_password-HasAdmin id hash = Keeps-exec _ λ db a db' h e.
    update_fields-HasAdmin db db' (has_id id) (λ u. record u { password_hash = hash }) (λ u. refl)
      (λ u. refl) (ground arith) (ground arith) h

pub Keeps-lift : {A : Type 0} {Q : Db → Type 0} (r : Result A) → Keeps Q (lift r)
Keeps-lift (ok a) = record { at = λ w h. h }
Keeps-lift (err e) = record { at = λ w h. h }

pub update_row-HasAdmin :
    (id : ℕ) (f : User → User)
    → ((u : User) → (f u).id ≡ u.id)
    → ((u : User) → is_active_admin (f u) ≡ is_active_admin u)
    → Keeps HasAdmin (exec (update_user_row id f))
update_row-HasAdmin id f same_id same_tier = Keeps-exec _ λ db a db' h e.
    update_fields-HasAdmin db db' (has_id id) f same_id same_tier (ground arith) (ground arith) h

pub set_name-HasAdmin : (id : ℕ) (name : Text) → Keeps HasAdmin (set_name id name)
unfolding set_name
set_name-HasAdmin id name = Keeps-bind (lift (normalize_name name)) _ (Keeps-lift _) λ shown.
    Keeps-bind (exec (update_user_row id (λ u. record u { name = shown }))) found_rows
      (update_row-HasAdmin id (λ u. record u { name = shown }) (λ u. refl) (λ u. refl))
      λ n. Keeps-choose (n == 0) _ _ (Keeps-raise _) (Keeps-pure _)

pub set_username-HasAdmin : (id : ℕ) (username : Text) → Keeps HasAdmin (set_username id username)
unfolding set_username
set_username-HasAdmin id username =
    Keeps-bind (lift (normalize_username username)) _ (Keeps-lift _) λ login.
      Keeps-bind (exec (set_username_row id login)) found_rows
        (Keeps-exec _ λ db a db' h e.
          update_fields-HasAdmin db db' (has_id id) (λ u. record u { username = login }) (λ u. refl)
            (λ u. refl) (renamed login db a db' e) (same_next login db a db' e) h)
        λ n. Keeps-choose (n == 0) _ _ (Keeps-raise _) (Keeps-pure _)
  where
    renamed :
        (login : Text) (db : Db) (n : ℕ) (db' : Db)
        → set_username_row id login db ≡ ok (n, db')
        → db'.users ≡ update_if (has_id id) (λ u. record u { username = login }) db.users
    renamed login db n db' e = unfold set_username_row in ground arith

    same_next :
        (login : Text) (db : Db) (n : ℕ) (db' : Db)
        → set_username_row id login db ≡ ok (n, db')
        → db'.next_user ≡ db.next_user
    same_next login db n db' e = unfold set_username_row in ground arith

pub db-user_by_id : (id : ℕ) (w : World) → (user_by_id id w).1.db ≡ w.db
unfolding user_by_id
db-user_by_id id w = db-query _ w

pub delete-HasAdmin :
    (id : ℕ) (u : User) (role : Role) (db db' : Db)
    → HasAdmin db
    → find (has_id id) db.users ≡ some u
    → Harmless db u role false
    → delete_user_row id (detached id db) ≡ ok (tt, db')
    → HasAdmin db'
delete-HasAdmin id u role db db' h found harmless e = record {
  unique = λ k.
      rw left
        (omega (arith, h.unique k, count-keep_if-le (has_id k) (λ x. not (has_id id x)) db.users));
  present = rw left (
      ground (
        arith,
        h.present,
        count-delete (has_id id) is_active_admin db.users u (h.unique id) found,
      ));
  fresh = λ k below. rw left (
      omega (
        arith,
        h.fresh k (rw (sym next) below),
        count-keep_if-le (has_id k) (λ x. not (has_id id x)) db.users,
      ));
}
  where
    left : db'.users ≡ keep_if (λ x. not (has_id id x)) db.users
    left = ground arith

    next : db'.next_user ≡ db.next_user
    next = ground arith

-- The removal of a user that the guard lets through as if it were a deactivation.
pub remove_user-HasAdmin : (id : ℕ) → Keeps HasAdmin (remove_user id)
unfolding remove_user
remove_user-HasAdmin id = record {
  at = λ w h.
      let erase_row : M (Unit {0}) = exec (λ db. delete_user_row id (detached id db)) in
      let guarded : User → M (Unit {0}) = λ u. guard_last_admin id u.role false >> erase_row in
      let w1 = (user_by_id id w).1 in
      let h1 = subst HasAdmin (sym (db-user_by_id id w)) h in
      bind-at HasAdmin (user_by_id id) guarded w (λ e _. h1)
        λ u _.
          let (same, passes) = guard-Harmless id u.role false w1 in
          let w2 = (guard_last_admin id u.role false w1).1 in
          let h2 = subst HasAdmin (sym same) h1 in
          bind-at HasAdmin (guard_last_admin id u.role false) (λ _. erase_row) w1 (λ e _. h2)
            λ a e.
              let (v, found, harmless) = passes e in
              exec-at HasAdmin (λ db. delete_user_row id (detached id db)) w2 h2
                λ b db' e'.
                  delete-HasAdmin id v u.role w2.db db' h2 (rw same found)
                    (subst (λ db. Harmless db v u.role false) (sym same) harmless) e';
}

pub user_by_id-HasAdmin : (id : ℕ) → Keeps HasAdmin (user_by_id id)
user_by_id-HasAdmin id = Keeps-same _ (db-user_by_id id)

-- What a new row adds.
count_if-snoc :
    (q : User → Bool) (users : List User) (u : User)
    → count_if q (users ++ u ∷ []) ≡ count_if q users + (if q u then 1 else 0)
count_if-snoc q [] u = ground arith
count_if-snoc q (x ∷ users) u = ground (arith, count_if-snoc q users u)

insert-HasAdmin :
    (login name hash : Text) (role : Role) (db db' : Db) (u : User)
    → insert_user login name hash role db ≡ ok (u, db')
    → HasAdmin db
    → HasAdmin db'
insert-HasAdmin login name hash role db db' u e h = record {
  unique = λ k.
      rw added (ground (arith, own, h.unique k, h.fresh k, count_if-snoc (has_id k) db.users u));
  present = rw added (ground (arith, h.present, count_if-snoc is_active_admin db.users u));
  fresh = λ k below.
      rw added (ground (arith, own, next, below, h.fresh k, count_if-snoc (has_id k) db.users u));
}
  where
    added : db'.users ≡ db.users ++ u ∷ []
    added = unfold insert_user in ground (arith, e)

    own : u.id ≡ db.next_user
    own = unfold insert_user in ground (arith, e)

    next : db'.next_user ≡ suc db.next_user
    next = unfold insert_user in ground (arith, e)

pub create_user-HasAdmin :
    (username name hash : Text) (role : Role) → Keeps HasAdmin (create_user username name hash role)
unfolding create_user
create_user-HasAdmin username name hash role =
    Keeps-bind (lift (normalize_username username)) _ (Keeps-lift _) λ login.
      Keeps-bind (lift (normalize_name name)) _ (Keeps-lift _) λ shown.
        Keeps-choose (valid_role role) _ _
          (Keeps-exec (insert_user login shown hash role)
            λ db u db' h e. insert-HasAdmin login shown hash role db db' u e h)
          (Keeps-raise _)
