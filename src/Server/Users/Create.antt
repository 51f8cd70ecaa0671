-- ===== src/Server/Users/Create.antt =====
-- The handlers that create users, of internal/server/identity.go and admin.go, from the point where
-- the request has been decoded.
use groot_share.Prelude.{ℕ, Text, codes, text_eq, Bool, not, [], Option, if◌then◌else◌}
use groot_share.Auth.{Role, viewer, uploader, admin, valid_role}
use groot_share.Auth.Secrets.{hash_password}
use groot_share.Store.Types.{User}
use groot_share.Store.World.{
  M, Error, name_required, name_too_long, constraint, invalid, pure, attempt, choose, may_fail,
  ◌>>◌,
}
use groot_share.Store.Names.{trim_space}
use groot_share.Store.Users.{create_user}
use groot_share.Server.Users.{
  Reply, Request, done, bad_request, conflict, internal, or_reply, record_user_audit,
}

-- The body of the request, or the form, which has no field `admin`.
pub record NewUser : Type 0 where
  pub username : Text
  pub name : Text
  pub password : Text
  pub role : Text
  pub is_admin : Bool

-- auth.Role(text)
abbrev role_named : Text → Role
role_named t =
    if text_eq t (codes "viewer")
    then viewer
    else if text_eq t (codes "uploader")
    then uploader
    else if text_eq t (codes "admin")
    then admin
    else Role.other t

abbrev pub json_role : NewUser → Role
json_role b =
    if not (text_eq b.role []) then role_named b.role else if b.is_admin then admin else uploader

abbrev pub form_role : Text → Role
form_role t = if not (text_eq t []) then role_named t else uploader

-- Replies to the error of CreateUser.
abbrev pub json_reply : Error → Reply
json_reply name_required = bad_request
json_reply name_too_long = bad_request
json_reply _ = conflict

abbrev pub form_reply : Error → Reply
form_reply name_required = bad_request
form_reply name_too_long = bad_request
form_reply constraint = conflict
form_reply _ = internal

-- Replies to the error of HashPassword.
abbrev pub form_hash_reply : Error → Reply
form_hash_reply invalid = bad_request
form_hash_reply _ = internal

module _ (bcrypt : Text → Option Text) where
  -- The password is hashed and the user created.
  abbrev pub hashed_user :
      (hash_reply reply : Error → Reply) → Text → Text → Text → Role → (User → M Reply) → M Reply
  hashed_user hash_reply reply username name password role next =
      or_reply (hash_password bcrypt password) hash_reply
        λ hash. or_reply (create_user username name hash role) reply next

  -- handleCreateUser; userRecord reads the list of users for the body of the reply, and its error
  -- is ignored.
  unfoldable pub handle_create_user : (ℕ → Text) → Request → NewUser → M Reply
  handle_create_user digits r b = choose (not (valid_role (json_role b))) (pure bad_request) (
      choose (text_eq (trim_space b.name) []) (pure bad_request) (
        hashed_user (λ _. bad_request) json_reply b.username (trim_space b.name) b.password
          (json_role b)
          λ u.
            record_user_audit r (codes "user.create") (digits u.id) u.username
            >> (attempt may_fail >> pure done)))

  -- handleAdminUsersCreatePOST
  unfoldable pub admin_users_create : NewUser → M Reply
  admin_users_create b = choose (text_eq (trim_space b.username) []) (pure bad_request) (
      choose (text_eq (trim_space b.name) []) (pure bad_request) (
        choose (not (valid_role (form_role (trim_space b.role)))) (pure bad_request) (
          hashed_user form_hash_reply form_reply b.username (trim_space b.name) b.password
            (form_role (trim_space b.role)) λ _. pure done)))
