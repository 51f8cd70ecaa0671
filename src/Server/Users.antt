-- ===== src/Server/Users.antt =====
-- internal/server/users.go and admin.go: the handlers that change users, from the point where the
-- request has been decoded. A reply stands for the status and body, or the redirect, of the code.
pub mod Create
pub mod Serve
pub mod Steps
pub mod Admins
mod Tests
use groot_share.Prelude.{
  ℕ, Text, codes, text_eq, Bool, true, false, not, ◌&&◌, ◌||◌, List, [], ◌∷◌, Option, none, some,
  if◌then◌else◌, ◌==◌, ltb, byte_length,
}
use groot_share.Time.{Time, zero_time}
use groot_share.Auth.{Role, valid_role, AuthMethod, is_session}
use groot_share.Auth.Secrets.{hash_password}
use groot_share.Store.Types.{User}
use groot_share.Store.World.{
  M, World, Result, ok, err, Error, not_found, last_admin, share_not_found, share_exhausted,
  constraint, failed, invalid, empty_upload, no_file, object_missing, name_required, name_too_long,
  username_required, username_too_long, duplicate, pure, raise, attempt, choose, ◌>>=◌, ◌>>◌,
}
use groot_share.Store.Audit.{Audit, insert_audit}
use groot_share.Store.Names.{trim_space}
use groot_share.Store.Users.{
  user_by_id, guard_last_admin, update_user, set_password, set_name, set_username, remove_user,
}

pub data Reply : Type 0 where
  done bad_request missing conflict last_one internal forbidden self_refused active_refused : Reply

-- What does not come from the body of the request: who asks, from where, and when.
pub record Request : Type 0 where
  pub actor : Text
  pub actor_id : ℕ
  pub remote_ip : Text
  pub now : Time

-- recordUserAudit: a failed insert is only logged.
unfoldable pub record_user_audit : Request → Text → Text → Text → M (Result (Unit {0}))
record_user_audit r action object_id object_key = attempt (
    insert_audit
      (record {
        actor = r.actor;
        actor_id = r.actor_id;
        action = action;
        object_id = object_id;
        object_key = object_key;
        remote_ip = r.remote_ip;
        created_at = zero_time;
      })
      r.now)

-- Replies to the error of UserByID and of the writes.
abbrev lookup_reply : Error → Reply
lookup_reply not_found = missing
lookup_reply _ = internal

abbrev guard_reply : Error → Reply
guard_reply last_admin = last_one
guard_reply _ = internal

abbrev name_reply : Error → Reply
name_reply name_required = bad_request
name_reply name_too_long = bad_request
name_reply _ = internal

abbrev pub username_reply : Error → Reply
username_reply username_required = bad_request
username_reply username_too_long = bad_request
username_reply constraint = conflict
username_reply _ = internal

-- `if err := m; err != nil { reply; return }`
abbrev or_reply : {A : Type 0} → M A → (Error → Reply) → (A → M Reply) → M Reply
or_reply m reply k = do r ← attempt m; elim r [ ok a ↦ k a | err e ↦ pure (reply e) ]

abbrev pub or_else {ℓ} : {A : Type ℓ} → A → Option A → A
or_else d none = d
or_else d (some a) = a

-- patchUserBody; an absent field of the JSON is `none`.
pub record Patch : Type 0 where
  pub role : Option Role
  pub active : Option Bool
  pub password : Text
  pub name : Option Text
  pub username : Option Text

abbrev is_none {ℓ} : {A : Type ℓ} → Option A → Bool
is_none none = true
is_none (some a) = false

module _ (bcrypt : Text → Option Text) (digits : ℕ → Text) where
  -- patchUserRoleActive, and then what follows it.
  unfoldable pub patch_role_active : Request → ℕ → User → Patch → M Reply → M Reply
  patch_role_active r id u body next =
      choose (not (valid_role (or_else u.role body.role)) && not (is_none body.role))
        (pure bad_request)
        (choose (is_none body.role && is_none body.active) next (
          or_reply (guard_last_admin id (or_else u.role body.role) (or_else u.active body.active))
            guard_reply
            λ _.
              or_reply (update_user id (or_else u.role body.role) (or_else u.active body.active))
                (λ _. internal)
                λ _. record_user_audit r (codes "user.update") (digits id) u.username >> next))

  -- patchUserPassword
  unfoldable pub patch_password : ℕ → Patch → M Reply → M Reply
  patch_password id body next = choose (text_eq body.password []) next (
      or_reply (hash_password bcrypt body.password) (λ _. bad_request)
        λ hash. or_reply (set_password id hash) (λ _. internal) λ _. next)

  -- patchUserName, where the body has a name.
  unfoldable pub patch_name : ℕ → Option Text → M Reply → M Reply
  patch_name id none next = next
  patch_name id (some name) next = or_reply (set_name id name) name_reply λ _. next

  -- patchUserUsername, where the body has a login id.
  unfoldable pub patch_username : Request → ℕ → Option Text → M Reply → M Reply
  patch_username r id none next = next
  patch_username r id (some username) next =
      or_reply (set_username id username) username_reply
        λ _. record_user_audit r (codes "user.update") (digits id) (trim_space username) >> next

  -- handlePatchUser; writeUserJSON loads the user once more.
  unfoldable pub handle_patch_user : Request → ℕ → Patch → M Reply
  handle_patch_user r id body = or_reply (user_by_id id) lookup_reply λ u.
      patch_role_active r id u body (
        patch_password id body (
          patch_name id body.name (
            patch_username r id body.username
              (or_reply (user_by_id id) (λ _. internal) λ _. pure done))))

  -- handleDeleteUser
  unfoldable pub handle_delete_user : Request → ℕ → M Reply
  handle_delete_user r id = or_reply (user_by_id id) lookup_reply λ u.
      or_reply (guard_last_admin id u.role false) guard_reply λ _.
        or_reply (update_user id u.role false) (λ _. internal)
          λ _. record_user_audit r (codes "user.deactivate") (digits id) u.username >> pure done

-- handleAdminUserDeactivatePOST
unfoldable pub admin_deactivate : ℕ → M Reply
admin_deactivate id =
    or_reply (user_by_id id) (λ _. missing)
      λ u.
        or_reply (guard_last_admin id u.role false) (λ _. last_one)
          λ _. or_reply (update_user id u.role false) (λ _. internal) λ _. pure done

-- handleAdminUserActivatePOST
unfoldable pub admin_activate : ℕ → M Reply
admin_activate id =
    or_reply (user_by_id id) (λ _. missing)
      λ u. or_reply (update_user id u.role true) (λ _. internal) λ _. pure done

-- handleAdminUserRemovePOST, by the user `actor_id`.
unfoldable pub admin_remove : ℕ → ℕ → M Reply
admin_remove actor_id id = choose (id == actor_id) (pure self_refused) (
    or_reply (user_by_id id) (λ _. missing)
      λ u.
        choose u.active (pure active_refused)
          (or_reply (remove_user id) guard_reply λ _. pure done))

-- handleAdminUserRolePOST
unfoldable pub admin_set_role : ℕ → Role → M Reply
admin_set_role id role = choose (not (valid_role role)) (pure bad_request) (
    or_reply (user_by_id id) (λ _. missing)
      λ u.
        or_reply (guard_last_admin id role u.active) (λ _. last_one)
          λ _. or_reply (update_user id role u.active) (λ _. internal) λ _. pure done)

-- handleAdminUserUsernamePOST
unfoldable pub admin_set_username : ℕ → Text → M Reply
admin_set_username id username = or_reply (set_username id username) username_reply λ _. pure done

-- handleSettingsNamePOST, by the user `actor_id`.
unfoldable pub settings_name : AuthMethod → ℕ → Text → M Reply
settings_name method actor_id name =
    choose (is_session method) (or_reply (set_name actor_id name) name_reply λ _. pure done)
      (pure forbidden)

module _ (bcrypt : Text → Option Text) where
  abbrev pub new_password : ℕ → Text → M Reply
  new_password actor_id password =
      or_reply (hash_password bcrypt password) (λ _. bad_request)
        λ hash. or_reply (set_password actor_id hash) (λ _. internal) λ _. pure done

  -- handleSettingsPasswordPOST, by the user `actor_id`.
  unfoldable pub settings_password : AuthMethod → ℕ → Text → M Reply
  settings_password method actor_id password =
      choose (is_session method) (new_password actor_id password) (pure forbidden)

  -- handlePatchMe
  unfoldable pub patch_me : AuthMethod → ℕ → Text → M Reply
  patch_me method actor_id password =
      choose (is_session method)
        (choose (text_eq password []) (pure bad_request) (new_password actor_id password))
        (pure forbidden)
