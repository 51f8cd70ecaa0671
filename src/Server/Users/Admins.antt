-- ===== src/Server/Users/Admins.antt =====
-- The handlers that create, change and remove users, and the last active admin.
use groot_share.Prelude.{
  codes, text_eq, not, ℕ, ◌≡◌, sym, true, false, List, [], ◌∷◌, Option, none, some, arith, Text,
}
use mathlib.Core.Path.{subst}
use groot_share.Auth.{valid_role, Role, AuthMethod}
use groot_share.Auth.Secrets.{hash_password}
use groot_share.Store.Types.{User}
use groot_share.Store.World.{World, M, ok, Error, pure, query, attempt, may_fail}
use groot_share.Store.World.Laws.{
  Keeps, Keeps-attempt, Keeps-bind, Keeps-may_fail, Keeps-choose, Keeps-raise, Keeps-pure,
}
use groot_share.Store.Users.{
  update_user, user_by_id, set_password, set_name, set_username, remove_user, create_user,
}
use groot_share.Store.Users.Admins.{HasAdmin, update-HasAdmin}
use groot_share.Server.Users.{
  Reply, Request, Patch, username_reply, done, patch_role_active, patch_password, patch_name,
  patch_username, or_else, bad_request, new_password, settings_name, settings_password, patch_me,
  admin_set_role, admin_set_username, handle_patch_user, handle_delete_user, admin_deactivate,
  admin_activate, admin_remove,
}
use groot_share.Store.Names.{trim_space}
use groot_share.Server.Users.Create.{
  json_role, form_role, json_reply, form_reply, form_hash_reply, NewUser, hashed_user,
  handle_create_user, admin_users_create,
}
use groot_share.Server.Users.Serve.{
  UserRequest, patch, delete, deactivate, activate, remove, set_role, rename, own_name,
  own_password, own_patch, create, admin_create, handle, serve,
}
use groot_share.Store.Users.Kept.{
  create_user-HasAdmin, db-user_by_id, remove_user-HasAdmin, set_name-HasAdmin,
  set_password-HasAdmin, set_username-HasAdmin, user_by_id-HasAdmin,
}
use groot_share.Server.Users.Steps.{
  or_reply-at, Keeps-or_reply, guarded-HasAdmin, then-HasAdmin, Keeps-hashed,
}

module _ (bcrypt : Text → Option Text) (digits : ℕ → Text) where
  hash_password-HasAdmin : (p : Text) → Keeps HasAdmin (hash_password bcrypt p)
  unfolding hash_password
  hash_password-HasAdmin p = Keeps-choose _ _ _ (Keeps-raise _) (Keeps-hashed (bcrypt p))

  new_password-HasAdmin : (id : ℕ) (p : Text) → Keeps HasAdmin (new_password bcrypt id p)
  new_password-HasAdmin id p =
      Keeps-or_reply (hash_password bcrypt p) _ _ (hash_password-HasAdmin p) λ hash.
        Keeps-or_reply (set_password id hash) _ _ (set_password-HasAdmin id hash) λ _. Keeps-pure _

  patch_role_active-HasAdmin :
      (r : Request) (id : ℕ) (u : User) (body : Patch) (next : M Reply)
      → Keeps HasAdmin next
      → Keeps HasAdmin (patch_role_active bcrypt digits r id u body next)
  unfolding patch_role_active
  patch_role_active-HasAdmin r id u body next k = Keeps-choose _ _ _ (Keeps-pure _) (
      Keeps-choose _ _ _ k (
        guarded-HasAdmin id (or_else u.role body.role) (or_else u.active body.active) _ _ _
          (then-HasAdmin r _ _ _ _ k)))

  patch_password-HasAdmin :
      (id : ℕ) (body : Patch) (next : M Reply)
      → Keeps HasAdmin next
      → Keeps HasAdmin (patch_password bcrypt digits id body next)
  unfolding patch_password
  patch_password-HasAdmin id body next k = Keeps-choose _ _ _ k (
      Keeps-or_reply (hash_password bcrypt body.password) _ _ (hash_password-HasAdmin _)
        λ hash. Keeps-or_reply (set_password id hash) _ _ (set_password-HasAdmin id hash) λ _. k)

  patch_name-HasAdmin :
      (id : ℕ) (name : Option Text) (next : M Reply)
      → Keeps HasAdmin next
      → Keeps HasAdmin (patch_name bcrypt digits id name next)
  unfolding patch_name
  patch_name-HasAdmin id none next k = k
  patch_name-HasAdmin id (some name) next k =
      Keeps-or_reply (set_name id name) _ _ (set_name-HasAdmin id name) λ _. k

  patch_username-HasAdmin :
      (r : Request) (id : ℕ) (username : Option Text) (next : M Reply)
      → Keeps HasAdmin next
      → Keeps HasAdmin (patch_username bcrypt digits r id username next)
  unfolding patch_username
  patch_username-HasAdmin r id none next k = k
  patch_username-HasAdmin r id (some username) next k =
      Keeps-or_reply (set_username id username) _ _ (set_username-HasAdmin id username)
        λ _. then-HasAdmin r _ _ _ _ k

  activated-HasAdmin :
      (id : ℕ) (u : User) (w : World)
      → HasAdmin w.db
      → (user_by_id id w).0 ≡ ok u
      → HasAdmin (update_user id u.role true (user_by_id id w).1).1.db
  activated-HasAdmin id u w h e =
      update-HasAdmin id u u.role true (user_by_id id w).1
        (subst HasAdmin (sym (db-user_by_id id w)) h)
        (rw (db-user_by_id id w) (unfold user_by_id query in ground arith)) (ground arith)

  -- Each handler that changes users leaves at least one active admin, and distinct user ids, if
  -- there was one before, whatever calls to the database fail in it.
  admin_set_role-HasAdmin : (id : ℕ) (role : Role) → Keeps HasAdmin (admin_set_role id role)
  unfolding admin_set_role
  admin_set_role-HasAdmin id role = Keeps-choose _ _ _ (Keeps-pure _) (
      Keeps-or_reply (user_by_id id) _ _ (user_by_id-HasAdmin id)
        λ u. guarded-HasAdmin id role u.active _ _ _ (Keeps-pure _))

  admin_set_username-HasAdmin :
      (id : ℕ) (username : Text) → Keeps HasAdmin (admin_set_username id username)
  unfolding admin_set_username
  admin_set_username-HasAdmin id username =
      Keeps-or_reply (set_username id username) username_reply (λ _. pure done)
        (set_username-HasAdmin id username) λ _. Keeps-pure _

  settings_name-HasAdmin :
      (method : AuthMethod) (id : ℕ) (name : Text) → Keeps HasAdmin (settings_name method id name)
  unfolding settings_name
  settings_name-HasAdmin method id name =
      Keeps-choose _ _ _
        (Keeps-or_reply (set_name id name) _ _ (set_name-HasAdmin id name) λ _. Keeps-pure _)
        (Keeps-pure _)

  settings_password-HasAdmin :
      (method : AuthMethod) (id : ℕ) (p : Text)
      → Keeps HasAdmin (settings_password bcrypt method id p)
  unfolding settings_password
  settings_password-HasAdmin method id p =
      Keeps-choose _ _ _ (new_password-HasAdmin id p) (Keeps-pure _)

  patch_me-HasAdmin :
      (method : AuthMethod) (id : ℕ) (p : Text) → Keeps HasAdmin (patch_me bcrypt method id p)
  unfolding patch_me
  patch_me-HasAdmin method id p =
      Keeps-choose _ _ _ (Keeps-choose _ _ _ (Keeps-pure _) (new_password-HasAdmin id p))
        (Keeps-pure _)

  hashed_user-HasAdmin :
      (hash_reply reply : Error → Reply) (username name password : Text) (role : Role)
      (next : User → M Reply)
      → ((u : User) → Keeps HasAdmin (next u))
      → Keeps HasAdmin (hashed_user bcrypt hash_reply reply username name password role next)
  hashed_user-HasAdmin hash_reply reply username name password role next k =
      Keeps-or_reply (hash_password bcrypt password) hash_reply _ (hash_password-HasAdmin password)
        λ hash.
          Keeps-or_reply (create_user username name hash role) reply next
            (create_user-HasAdmin username name hash role) k

  create-HasAdmin :
      (r : Request) (b : NewUser) → Keeps HasAdmin (handle_create_user bcrypt digits r b)
  unfolding handle_create_user
  create-HasAdmin r b =
      Keeps-choose (not (valid_role (json_role b))) (pure bad_request) _ (Keeps-pure _) (
        Keeps-choose (text_eq (trim_space b.name) []) (pure bad_request) _ (Keeps-pure _) (
          hashed_user-HasAdmin (λ _. bad_request) json_reply b.username (trim_space b.name)
            b.password (json_role b) _
            λ u. then-HasAdmin r (codes "user.create") (digits u.id) u.username _ (
              Keeps-bind (attempt may_fail) (λ _. pure done) (Keeps-attempt _ Keeps-may_fail)
                λ _. Keeps-pure _)))

  admin_create-HasAdmin : (b : NewUser) → Keeps HasAdmin (admin_users_create bcrypt b)
  unfolding admin_users_create
  admin_create-HasAdmin b =
      Keeps-choose (text_eq (trim_space b.username) []) (pure bad_request) _ (Keeps-pure _) (
        Keeps-choose (text_eq (trim_space b.name) []) (pure bad_request) _ (Keeps-pure _) (
          Keeps-choose (not (valid_role (form_role (trim_space b.role)))) (pure bad_request) _
            (Keeps-pure _)
            (hashed_user-HasAdmin form_hash_reply form_reply b.username (trim_space b.name)
              b.password (form_role (trim_space b.role)) _ λ _. Keeps-pure _)))

  pub handle-HasAdmin : (q : UserRequest) → Keeps HasAdmin (handle bcrypt digits q)
  unfolding handle handle_patch_user handle_delete_user admin_deactivate admin_activate admin_remove
  handle-HasAdmin (patch r id body) =
      Keeps-or_reply (user_by_id id) _ _ (user_by_id-HasAdmin id) λ u.
        patch_role_active-HasAdmin r id u body _ (
          patch_password-HasAdmin id body _ (
            patch_name-HasAdmin id body.name _ (
              patch_username-HasAdmin r id body.username _
                (Keeps-or_reply (user_by_id id) _ _ (user_by_id-HasAdmin id) λ _. Keeps-pure _))))
  handle-HasAdmin (delete r id) =
      Keeps-or_reply (user_by_id id) _ _ (user_by_id-HasAdmin id)
        λ u. guarded-HasAdmin id u.role false _ _ _ (then-HasAdmin r _ _ _ _ (Keeps-pure _))
  handle-HasAdmin (deactivate id) =
      Keeps-or_reply (user_by_id id) _ _ (user_by_id-HasAdmin id)
        λ u. guarded-HasAdmin id u.role false _ _ _ (Keeps-pure _)
  handle-HasAdmin (activate id) = record {
    at = λ w h.
        or_reply-at HasAdmin (user_by_id id) _ _ w
          (λ e _. subst HasAdmin (sym (db-user_by_id id w)) h)
          λ u e.
            let h' = activated-HasAdmin id u w h e in
            or_reply-at HasAdmin (update_user id u.role true) _ _ (user_by_id id w).1 (λ _ _. h')
              (λ _ _. h');
  }
  handle-HasAdmin (remove actor_id id) = Keeps-choose _ _ _ (Keeps-pure _) (
      Keeps-or_reply (user_by_id id) _ _ (user_by_id-HasAdmin id) λ u.
        Keeps-choose u.active _ _ (Keeps-pure _)
          (Keeps-or_reply (remove_user id) _ _ (remove_user-HasAdmin id) λ _. Keeps-pure _))
  handle-HasAdmin (create r b) = create-HasAdmin r b
  handle-HasAdmin (admin_create b) = admin_create-HasAdmin b
  handle-HasAdmin (set_role id role) = admin_set_role-HasAdmin id role
  handle-HasAdmin (rename id username) = admin_set_username-HasAdmin id username
  handle-HasAdmin (own_name method id name) = settings_name-HasAdmin method id name
  handle-HasAdmin (own_password method id password) = settings_password-HasAdmin method id password
  handle-HasAdmin (own_patch method id password) = patch_me-HasAdmin method id password

  -- If user ids are unique and below the next one to give out and some user is an active admin,
  -- then this is still so after any requests that create or change users have been served one after the other, whichever of their calls to
  -- the database fail.
  pub serve-HasAdmin :
      (requests : List UserRequest) (w : World)
      → HasAdmin w.db
      → HasAdmin (serve bcrypt digits requests w).db
  unfolding serve
  serve-HasAdmin [] w h = h
  serve-HasAdmin (q ∷ requests) w h =
      serve-HasAdmin requests (handle bcrypt digits q w).1 ((handle-HasAdmin q).at w h)
