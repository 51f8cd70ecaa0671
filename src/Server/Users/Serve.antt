-- ===== src/Server/Users/Serve.antt =====
-- The requests that change users, one after the other.
use groot_share.Prelude.{ℕ, Text, List, [], ◌∷◌, Option}
use groot_share.Auth.{Role, AuthMethod}
use groot_share.Store.World.{M, World}
use groot_share.Server.Users.{
  Reply, Request, Patch, handle_patch_user, handle_delete_user, admin_deactivate, admin_activate,
  admin_remove, admin_set_role, admin_set_username, settings_name, settings_password, patch_me,
}
use groot_share.Server.Users.Create.{NewUser, handle_create_user, admin_users_create}

-- A request to one of these routes of the mux.
pub data UserRequest : Type 0 where
  set_role : ℕ → Role → UserRequest
  rename : ℕ → Text → UserRequest
  own_name own_password own_patch : AuthMethod → ℕ → Text → UserRequest
  patch : Request → ℕ → Patch → UserRequest
  delete : Request → ℕ → UserRequest
  deactivate activate : ℕ → UserRequest
  remove : (actor_id id : ℕ) → UserRequest
  create : Request → NewUser → UserRequest
  admin_create : NewUser → UserRequest

module _ (bcrypt : Text → Option Text) (digits : ℕ → Text) where
  unfoldable pub handle : UserRequest → M Reply
  handle (patch r id body) = handle_patch_user bcrypt digits r id body
  handle (delete r id) = handle_delete_user bcrypt digits r id
  handle (deactivate id) = admin_deactivate id
  handle (activate id) = admin_activate id
  handle (remove actor_id id) = admin_remove actor_id id
  handle (create r body) = handle_create_user bcrypt digits r body
  handle (admin_create body) = admin_users_create bcrypt body
  handle (set_role id role) = admin_set_role id role
  handle (rename id username) = admin_set_username id username
  handle (own_name method actor_id name) = settings_name method actor_id name
  handle (own_password method actor_id password) = settings_password bcrypt method actor_id password
  handle (own_patch method actor_id password) = patch_me bcrypt method actor_id password

  -- Requests that are served one after the other.
  unfoldable pub serve : List UserRequest → World → World
  serve [] w = w
  serve (q ∷ requests) w = serve requests (handle q w).1
