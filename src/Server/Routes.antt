-- ===== src/Server/Routes.antt =====
-- The routes of internal/server/server.go and pins.go, and the gate in front of each. The static
-- files of favicon.go are left out.
pub mod Keyed
mod Tests
use groot_share.Prelude.{Text, codes, Bool, true, false, List, [], ◌∷◌, Option, none, some}
use groot_share.Auth.{
  Permission, archives_read, archives_write, archives_delete, audit_read, users_manage,
  api_keys_manage, shares_manage,
}
use groot_share.Server.Actor.{Actor, actor_can}

-- No gate, requireAuth, or requirePermission.
pub data Gate : Type 0 where
  unguarded signed_in : Gate
  asks : Permission → Gate

-- A pattern of the mux and the gate of its handler.
pub record Route : Type 0 where
  pub pattern : Text
  pub gate : Gate

abbrev pub route : Text → Gate → Route
route pattern gate = record { pattern = pattern; gate = gate }

-- Handler, in its order, with pinRoutes.
unfoldable pub routes : List Route
routes =
    route (codes "GET /healthz") unguarded
    ∷ route (codes "GET /readyz") unguarded
    ∷ route (codes "GET /login") unguarded
    ∷ route (codes "POST /login") unguarded
    ∷ route (codes "POST /logout") signed_in
    ∷ route (codes "GET /{$}") (asks archives_read)
    ∷ route (codes "GET /upload") (asks archives_write)
    ∷ route (codes "GET /activity") (asks audit_read)
    ∷ route (codes "GET /settings") signed_in
    ∷ route (codes "POST /settings/password") signed_in
    ∷ route (codes "POST /settings/name") signed_in
    ∷ route (codes "POST /settings/api-keys") (asks api_keys_manage)
    ∷ route (codes "POST /settings/api-keys/{id}/revoke") signed_in
    ∷ route (codes "GET /admin/users") (asks users_manage)
    ∷ route (codes "POST /admin/users/create") (asks users_manage)
    ∷ route (codes "POST /admin/users/{id}/role") (asks users_manage)
    ∷ route (codes "POST /admin/users/{id}/username") (asks users_manage)
    ∷ route (codes "POST /admin/users/{id}/deactivate") (asks users_manage)
    ∷ route (codes "POST /admin/users/{id}/activate") (asks users_manage)
    ∷ route (codes "POST /admin/users/{id}/remove") (asks users_manage)
    ∷ route (codes "GET /v1/me") (asks archives_read)
    ∷ route (codes "PATCH /v1/me") signed_in
    ∷ route (codes "GET /v1/me/api-keys") signed_in
    ∷ route (codes "DELETE /v1/me/api-keys/{id}") signed_in
    ∷ route (codes "POST /v1/api-keys") (asks api_keys_manage)
    ∷ route (codes "GET /v1/users") (asks users_manage)
    ∷ route (codes "POST /v1/users") (asks users_manage)
    ∷ route (codes "GET /v1/users/{id}") (asks users_manage)
    ∷ route (codes "PATCH /v1/users/{id}") (asks users_manage)
    ∷ route (codes "DELETE /v1/users/{id}") (asks users_manage)
    ∷ route (codes "GET /v1/archives") (asks archives_read)
    ∷ route (codes "POST /v1/archives") (asks archives_write)
    ∷ route (codes "GET /v1/archives/{id...}") (asks archives_read)
    ∷ route (codes "DELETE /v1/archives/{id...}") (asks archives_delete)
    ∷ route (codes "POST /v1/archives/delete/{id...}") (asks archives_delete)
    ∷ route (codes "GET /v1/audit") (asks audit_read)
    ∷ route (codes "GET /v1/activity/export") signed_in
    ∷ route (codes "GET /v1/shares/{id...}") (asks shares_manage)
    ∷ route (codes "POST /v1/shares/{id...}") (asks shares_manage)
    ∷ route (codes "DELETE /v1/shares/{share_id}") (asks shares_manage)
    ∷ route (codes "GET /s/{token}") unguarded
    ∷ route (codes "GET /shares/{id...}") (asks shares_manage)
    ∷ route (codes "POST /shares/{id...}") (asks shares_manage)
    ∷ route (codes "POST /shares/{share_id}/revoke") (asks shares_manage)
    ∷ route (codes "POST /v1/pin/archives/{id...}") (asks archives_read)
    ∷ route (codes "DELETE /v1/pin/archives/{id...}") (asks archives_read)
    ∷ route (codes "/") unguarded
    ∷ []

-- Whether the gate asks for a permission that the caller has.
unfoldable pub grants : Option Actor → Gate → Bool
grants a (asks perm) = actor_can a perm
grants a _ = false
