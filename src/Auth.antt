-- ===== src/Auth.antt =====
-- internal/auth/perm.go: who may do what; and the scope check of internal/server/apikeys.go.
-- A Go constant of a string type is a constructor, and any other string is `other`.
pub mod Laws
pub mod Secrets
mod Tests
use groot_share.Prelude.{Text, Bool, true, false, ◌&&◌, ◌||◌, Option, none, some, if◌then◌else◌}

pub data Role : Type 0 where
  viewer uploader admin : Role
  other : Text → Role

pub data Permission : Type 0 where
  archives_read archives_write archives_delete audit_read users_manage : Permission
  api_keys_manage shares_manage : Permission
  other : Text → Permission

pub data AuthMethod : Type 0 where
  session api_key : AuthMethod
  other : Text → AuthMethod

pub data KeyScope : Type 0 where
  upload read : KeyScope
  other : Text → KeyScope

unfoldable pub valid_role : Role → Bool
valid_role (Role.other t) = false
valid_role _ = true

unfoldable pub valid_key_scope : KeyScope → Bool
valid_key_scope (KeyScope.other t) = false
valid_key_scope _ = true

abbrev pub is_viewer : Role → Bool
is_viewer viewer = true
is_viewer _ = false

abbrev pub is_session : AuthMethod → Bool
is_session session = true
is_session _ = false

abbrev pub is_api_key : AuthMethod → Bool
is_api_key api_key = true
is_api_key _ = false

abbrev pub is_uploader : Role → Bool
is_uploader uploader = true
is_uploader _ = false

abbrev pub is_admin : Role → Bool
is_admin admin = true
is_admin _ = false

abbrev pub is_upload : KeyScope → Bool
is_upload upload = true
is_upload _ = false

abbrev pub is_read : KeyScope → Bool
is_read read = true
is_read _ = false

can_api_key : Role → Permission → KeyScope → Bool
can_api_key r archives_write s = is_upload s && (is_uploader r || is_admin r)
can_api_key r archives_read s = is_read s && (is_viewer r || is_uploader r || is_admin r)
can_api_key r audit_read s = is_read s && (is_viewer r || is_uploader r || is_admin r)
can_api_key r _ s = false

can_session : Role → Permission → Bool
can_session r archives_read = is_viewer r || is_uploader r || is_admin r
can_session r audit_read = is_viewer r || is_uploader r || is_admin r
can_session r archives_write = is_uploader r || is_admin r
can_session r archives_delete = is_admin r
can_session r users_manage = is_admin r
can_session r shares_manage = is_admin r
can_session r api_keys_manage = is_uploader r || is_admin r
can_session r (Permission.other t) = false

unfoldable pub can : Role → Permission → AuthMethod → KeyScope → Bool
unfolding can_api_key can_session
can r p api_key s = can_api_key r p s
can r p _ s = can_session r p

-- What createAPIKeyForUser answers before it draws a key.
pub data ScopeCheck : Type 0 where
  granted bad_scope forbidden_scope : ScopeCheck

unfoldable pub check_scope : Role → KeyScope → ScopeCheck
check_scope r (KeyScope.other t) = bad_scope
check_scope viewer s = forbidden_scope
check_scope uploader read = forbidden_scope
check_scope _ _ = granted
