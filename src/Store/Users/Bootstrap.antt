-- ===== src/Store/Users/Bootstrap.antt =====
-- internal/store/identity.go, EnsureAdmin: the first admin.
use groot_share.Prelude.{
  ◌<◌, ℕ, ◌≤◌, ◌≡◌, ◌⊎◌, inl, inr, refl, sym, arith, Text, codes, text_eq, Bool, true, false, ◌||◌,
  List, [], ◌∷◌, ltb, Option, if◌then◌else◌, length, count_if,
}
use mathlib.Core.Path.{subst}
use groot_share.Auth.{admin, valid_role}
use groot_share.Auth.Secrets.{hash_password}
use groot_share.Store.Types.{User, Db}
use groot_share.Store.World.{
  World, M, Result, ok, err, invalid, pure, raise, choose, query, exec, ◌>>=◌,
}
use groot_share.Store.World.Runs.{bind-First}
use groot_share.Store.Names.{trim_space, normalize_username, normalize_name}
use groot_share.Store.Users.{lift, insert_user, is_active_admin, create_user, user_count}
use groot_share.Store.Users.Admins.{HasAdmin}

-- DefaultName
abbrev default_name : Text
default_name = codes "Administrator"

abbrev name_or_default : Text → Text
name_or_default name = if text_eq (trim_space name) [] then default_name else name

module _ (bcrypt : Text → Option Text) where
  abbrev pub first_admin : Text → Text → Text → M (Unit {0})
  first_admin username password name =
      choose (text_eq username [] || text_eq password []) (raise invalid) (do
        hash ← hash_password bcrypt password
        _ ← create_user username (name_or_default name) hash admin
        pure tt)

  -- EnsureAdmin; `invalid` also stands for the missing settings.
  unfoldable pub ensure_admin : Text → Text → Text → M (Unit {0})
  ensure_admin username password name = do
    n ← user_count
    choose (ltb 0 n) (pure tt) (first_admin (trim_space username) password name)

-- The table of one active admin.
one_admin :
    (db : Db) (u : User)
    → db.users ≡ u ∷ []
    → u.id < db.next_user
    → is_active_admin u ≡ true
    → HasAdmin db
one_admin db u e below h = record {
  unique = λ id. rw e (ground arith);
  present = rw e (ground (arith, h));
  fresh = λ id k. rw e (ground (arith, below, k));
}

inserted-users :
    (login shown hash : Text) (w : World) (u : User)
    → w.db.users ≡ []
    → (exec (insert_user login shown hash admin) w).0 ≡ ok u
    → ((exec (insert_user login shown hash admin) w).1.db.users ≡ u ∷ [])
      × (u.id < (exec (insert_user login shown hash admin) w).1.db.next_user)
      × (is_active_admin u ≡ true)
unfolding exec insert_user
inserted-users login shown hash w u empty h = ground (arith, empty, h)

-- A user created in an empty table as an admin.
first_user-HasAdmin :
    (username name hash : Text) (w : World) (u : User)
    → w.db.users ≡ []
    → (create_user username name hash admin w).0 ≡ ok u
    → HasAdmin (create_user username name hash admin w).1.db
unfolding create_user valid_role
first_user-HasAdmin username name hash w u empty h =
    go (normalize_username username) (normalize_name name) h
  where
    go :
        (login shown : Result Text)
        → let r =
            (lift login >>= λ l. lift shown >>= λ n.
            choose (valid_role admin) (exec (insert_user l n hash admin)) (raise invalid))
              w in
          r.0 ≡ ok u → HasAdmin r.1.db
    go (err e) shown k = cc
    go (ok l) (err e) k = cc
    go (ok l) (ok n) k =
        let (users, below, tier) = inserted-users l n hash w u empty k in
        one_admin _ u users below tier

user_count-ok :
    (w : World) (n : ℕ)
    → (user_count w).0 ≡ ok n
    → (n ≡ length w.db.users) × ((user_count w).1.db ≡ w.db)
unfolding user_count query
user_count-ok w n h = ground (arith, h)

count_if-length-le : (p : User → Bool) (users : List User) → count_if p users ≤ length users
count_if-length-le p [] = omega arith
count_if-length-le p (u ∷ users) = ground (arith, count_if-length-le p users)

hash_password-db :
    (bcrypt : Text → Option Text) (p : Text) (w : World) → (hash_password bcrypt p w).1.db ≡ w.db
unfolding hash_password
hash_password-db bcrypt p w = ground arith

module _ (bcrypt : Text → Option Text) where
  first_admin-HasAdmin :
      (username password name : Text) (w : World)
      → w.db.users ≡ []
      → (first_admin bcrypt username password name w).0 ≡ ok tt
      → HasAdmin (first_admin bcrypt username password name w).1.db
  first_admin-HasAdmin username password name w empty h =
      go (text_eq username [] || text_eq password []) h
    where
      created : Text → M (Unit {0})
      created hash = create_user username (name_or_default name) hash admin >>= λ _. pure tt

      made : M (Unit {0})
      made = hash_password bcrypt password >>= created

      go :
          (missing : Bool)
          → (choose missing (raise invalid) made w).0 ≡ ok tt
          → HasAdmin (choose missing (raise invalid) made w).1.db
      go true k = cc
      go false k =
          let m =
            bind-First (hash_password bcrypt password) created w tt (made w).1
              (record { result = k; world = refl }) in
          let v = (hash_password bcrypt password w).1 in
          let c =
            bind-First (create_user username (name_or_default name) m.value admin) (λ _. pure tt) v
              tt (made w).1 m.rest in
          subst (λ u. HasAdmin u.db) c.rest.world
            (first_user-HasAdmin username (name_or_default name) m.value v c.value
              (rw (hash_password-db bcrypt password w) empty) c.result)

  -- On a table of users that is empty, or whose ids are unique and below the next one and that has an
  -- active admin, a start of the server that has succeeded leaves such an admin and such ids. It
  -- changes nothing in the database unless the table was empty.
  pub ensure_admin-HasAdmin :
      (username password name : Text) (w : World)
      → (w.db.users ≡ []) ⊎ HasAdmin w.db
      → (ensure_admin bcrypt username password name w).0 ≡ ok tt
      → HasAdmin (ensure_admin bcrypt username password name w).1.db
        × ((w.db.users ≡ []) ⊎ ((ensure_admin bcrypt username password name w).1.db ≡ w.db))
  unfolding ensure_admin
  ensure_admin-HasAdmin username password name w before h =
      let m = bind-First user_count checked w tt _ (record { result = h; world = refl }) in
      let (count, same) = user_count-ok w m.value m.result in
      subst (λ (u : World). HasAdmin u.db × ((w.db.users ≡ []) ⊎ (u.db ≡ w.db))) m.rest.world
        (go m.value (ltb 0 m.value) (user_count w).1 refl count same m.rest.result)
    where
      checked : ℕ → M (Unit {0})
      checked n =
          choose (ltb 0 n) (pure tt) (first_admin bcrypt (trim_space username) password name)

      go :
          (n : ℕ) (some_user : Bool) (v : World)
          → ltb 0 n ≡ some_user
          → n ≡ length w.db.users
          → v.db ≡ w.db
          → let r =
              choose some_user
                (pure tt)
                (first_admin bcrypt (trim_space username) password name)
                v in
            r.0 ≡ ok tt → HasAdmin r.1.db × ((w.db.users ≡ []) ⊎ (r.1.db ≡ w.db))
      go n true v test count same k = elim before [
        | inl empty ↦ ground (arith, test, count, empty)
        | inr has ↦ (subst HasAdmin (sym same) has, inr same)
      ]
      go n false v test count same k = elim before [
        | inl empty ↦ (
          first_admin-HasAdmin (trim_space username) password name v (rw same empty) k,
          inl empty,
        )
        | inr has ↦
            ground (arith, test, count, has.present, count_if-length-le is_active_admin w.db.users)
      ]
