-- ===== src/Server/Audit/Export.antt =====
-- Who gets the export of the log.
use groot_share.Prelude.{◌≡◌, refl, arith, true, false, negsuc, pos, Bool, not, some}
use groot_share.Auth.{audit_read, api_key, upload, is_admin, can}
use groot_share.Store.World.{World, Result, ok, pure}
use groot_share.Store.Audit.{AuditFilter, list_audit_filtered}
use groot_share.Server.Actor.{Actor, actor_can}
use groot_share.Server.Audit.{AuditReply, forbidden, internal, exported, handle_activity_export}
use groot_share.Server.Identity.{or_answer}
use groot_share.Server.Identity.Laws.{or_answer-at}

abbrev pub is_forbidden : Result AuditReply → Bool
is_forbidden (ok forbidden) = true
is_forbidden _ = false

unforbidden :
    (f : AuditFilter) (w : World)
    → is_forbidden
        (or_answer
          (list_audit_filtered f (negsuc 0) (pos 0))
          (λ _. internal)
          (λ events. pure (exported events))
          w).0
      ≡ false
unforbidden f w =
    or_answer-at (λ r. is_forbidden r.0 ≡ false) (list_audit_filtered f (negsuc 0) (pos 0))
      (λ _. internal) (λ events. pure (exported events)) w (λ e _. refl) (λ a _. refl)

-- The caller, by an API key of the scope `upload`.
abbrev pub by_upload_key : Actor → Actor
by_upload_key a = record a { method = api_key; key_scope = upload }

-- The export refuses a caller, by whatever method and scope, exactly when he is no admin. It answers
-- a caller by an API key of the scope `upload` as it answers him by any other method and scope,
-- although no such key may read the log.
pub handle_activity_export-scope :
    (a : Actor) (f : AuditFilter) (w : World)
    → (is_forbidden (handle_activity_export (some a) f w).0 ≡ not (is_admin a.user.role))
      × (handle_activity_export (some (by_upload_key a)) f w ≡ handle_activity_export (some a) f w)
      × (actor_can (some (by_upload_key a)) audit_read ≡ false)
unfolding actor_can can handle_activity_export
handle_activity_export-scope a f w = (ground (arith, unforbidden f w), refl, ground arith)
