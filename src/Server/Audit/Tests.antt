-- ===== src/Server/Audit/Tests.antt =====
-- The export on concrete fields and callers.
use groot_share.Prelude.{[], some, false, not, ◌≡◌, refl, codes, ◌∷◌, ◌++◌}
use groot_share.Auth.{read, api_key, audit_read, is_admin}
use groot_share.Store.Audit.{AuditFilter}
use groot_share.Store.Sample.{sample, root}
use groot_share.Server.Actor.{Actor, actor_can}
use groot_share.Server.Audit.{csv_field, handle_activity_export}
use groot_share.Server.Audit.Export.{by_upload_key, is_forbidden, handle_activity_export-scope}
use groot_share.Server.Audit.Csv.{read_field, csv_field-read_field}

csv_field-read_field_example :
    read_field (csv_field (codes "a\"b,c") ++ b',' ∷ codes "next")
    ≡ (codes "a\"b,c", b',' ∷ codes "next")
csv_field-read_field_example = csv_field-read_field (codes "a\"b,c") b',' (codes "next") refl

abbrev with_key : Actor
with_key = record { user = root; method = api_key; key_scope = read }

abbrev every_event : AuditFilter
every_event = record { actor = []; action = []; since = 0 }

handle_activity_export-scope_example :
    (is_forbidden (handle_activity_export (some with_key) every_event sample).0
      ≡ not (is_admin root.role))
    × (handle_activity_export (some (by_upload_key with_key)) every_event sample
        ≡ handle_activity_export (some with_key) every_event sample)
    × (actor_can (some (by_upload_key with_key)) audit_read ≡ false)
handle_activity_export-scope_example = handle_activity_export-scope with_key every_event sample
