-- ===== src/Server/Keys.antt =====
-- internal/server/apikeys.go, and handleCreateAPIKey of identity.go: a user's own API keys, from the
-- point where the request has been decoded.
pub mod Laws
pub mod Fresh
mod Tests
use groot_share.Prelude.{
  ℕ, Text, text_eq, codes, Bool, true, false, not, List, [], ◌∷◌, Option, none, some, if◌then◌else◌,
}
use groot_share.Auth.{
  is_session, is_api_key, Role, KeyScope, AuthMethod, session, api_key, upload, read, ScopeCheck,
  granted, bad_scope, forbidden_scope, check_scope,
}
use groot_share.Auth.Secrets.{new_api_key, FreshKey}
use groot_share.Store.World.{
  M, Result, ok, err, Error, not_found, pure, attempt, choose, may_fail, ◌>>=◌, ◌>>◌,
}
use groot_share.Store.Names.{trim_space}
use groot_share.Store.ApiKeys.{ApiKeyRecord, create_api_key, list_api_keys_by_user, delete_api_key}
use groot_share.Server.Users.{Request, record_user_audit}
use groot_share.Server.Actor.{Actor}
use groot_share.Server.Identity.{or_answer}

-- auth.KeyScope(s)
abbrev pub key_scope_of : Text → KeyScope
key_scope_of s =
    if text_eq s (codes "upload")
    then upload
    else if text_eq s (codes "read")
    then read
    else KeyScope.other s

-- The `scope` of the body: of a JSON body or of a form, and `none` where it cannot be decoded.
pub data ScopeBody : Type 0 where
  json form : Option Text → ScopeBody

abbrev scope_or_upload : Text → KeyScope
scope_or_upload [] = upload
scope_or_upload (c ∷ s) = key_scope_of (c ∷ s)

unfoldable pub requested_scope : ScopeBody → KeyScope
requested_scope (json none) = upload
requested_scope (json (some s)) = scope_or_upload s
requested_scope (form none) = upload
requested_scope (form (some s)) = scope_or_upload (trim_space s)

pub data KeyReply : Type 0 where
  unauthorized forbidden bad_request missing internal revoked : KeyReply
  created_key : FreshKey → KeyScope → KeyReply
  listed_keys : List ApiKeyRecord → KeyReply

module _ (sha256_hex : Text → Text) where
  abbrev pub stored_key : ℕ → KeyScope → FreshKey → M KeyReply
  stored_key user_id scope k =
      or_answer (create_api_key user_id k.hash k.prefix scope) (λ _. internal)
        λ _. pure (created_key k scope)

  abbrev pub scoped_key : ℕ → KeyScope → List ℕ → ScopeCheck → M KeyReply
  scoped_key user_id scope bytes bad_scope = pure bad_request
  scoped_key user_id scope bytes forbidden_scope = pure forbidden
  scoped_key user_id scope bytes granted =
      or_answer may_fail (λ _. internal)
        λ _. stored_key user_id scope (new_api_key sha256_hex bytes)

  -- createAPIKeyForUser, with the replies that its callers give to its errors.
  unfoldable pub create_api_key_for_user : ℕ → Role → ScopeBody → List ℕ → M KeyReply
  create_api_key_for_user user_id role body bytes =
      scoped_key user_id (requested_scope body) bytes (check_scope role (requested_scope body))

  -- handleCreateAPIKey
  unfoldable pub handle_create_api_key : Option Actor → ScopeBody → List ℕ → M KeyReply
  handle_create_api_key none body bytes = pure unauthorized
  handle_create_api_key (some a) body bytes =
      choose (is_api_key a.method) (pure forbidden)
        (create_api_key_for_user a.user.id a.user.role body bytes)

-- handleListMyAPIKeys
unfoldable pub handle_list_my_api_keys : Option Actor → M KeyReply
handle_list_my_api_keys none = pure forbidden
handle_list_my_api_keys (some a) =
    choose (is_session a.method)
      (or_answer (list_api_keys_by_user a.user.id) (λ _. internal) λ keys. pure (listed_keys keys))
      (pure forbidden)

abbrev delete_reply : Error → KeyReply
delete_reply not_found = missing
delete_reply _ = internal

module _ (digits : ℕ → Text) where
  abbrev pub delete_own : Request → Actor → Option ℕ → M KeyReply
  delete_own r a none = pure bad_request
  delete_own r a (some id) =
      or_answer (delete_api_key id a.user.id) delete_reply
        λ _. record_user_audit r (codes "apikey.revoke") (digits id) a.user.username >> pure revoked

  -- handleDeleteAPIKey, of the id in the path unless it is no number.
  unfoldable pub handle_delete_api_key : Request → Option Actor → Option ℕ → M KeyReply
  handle_delete_api_key r none id = pure forbidden
  handle_delete_api_key r (some a) id =
      choose (is_session a.method) (delete_own r a id) (pure forbidden)

  abbrev pub revoke_own : Request → Actor → Option ℕ → M KeyReply
  revoke_own r a none = pure missing
  revoke_own r a (some id) =
      or_answer (delete_api_key id a.user.id) (λ _. internal)
        λ _. record_user_audit r (codes "apikey.revoke") (digits id) a.user.username >> pure revoked

  -- handleSettingsAPIKeyRevokePOST; the replies stand for redirects.
  unfoldable pub settings_revoke_key : Request → Option Actor → Option ℕ → M KeyReply
  settings_revoke_key r none id = pure forbidden
  settings_revoke_key r (some a) id =
      choose (is_session a.method) (revoke_own r a id) (pure forbidden)
