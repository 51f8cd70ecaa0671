-- ===== src/Server/Audit.antt =====
-- internal/server/audit.go: the events that handlers record, and the export of the log.
pub mod Csv
pub mod Export
mod Tests
use groot_share.Prelude.{
  ℕ, ◌*◌, ◌-◌, ◌==◌, Text, codes, text_eq, Bool, true, false, ◌||◌, List, [], ◌∷◌, ◌++◌, leb,
  Option, none, some, if◌then◌else◌, any, ℤ, pos, negsuc,
}
use groot_share.Time.{Time, Stamp, zero_time, day}
use groot_share.Auth.{Role, is_admin}
use groot_share.Store.Types.{Archive, AuditRow}
use groot_share.Store.World.{M, Result, ok, err, Error, pure, attempt, choose, ◌>>=◌, ◌>>◌}
use groot_share.Store.Names.{trim_space}
use groot_share.Store.Audit.{
  Audit, AuditFilter, insert_audit, count_audit_filtered, list_audit_filtered,
}
use groot_share.Server.Actor.{Actor}
use groot_share.Server.Identity.{or_answer}
use groot_share.Server.Pager.{PageView, page_view_for}
use groot_share.Server.Users.{Request}
use groot_share.Server.Filter.{window_since}

-- recordAudit: a failed insert is only logged.
unfoldable pub record_audit : Request → Text → Archive → M (Result (Unit {0}))
record_audit r action a = attempt (
    insert_audit
      (record {
        actor = r.actor;
        actor_id = r.actor_id;
        action = action;
        object_id = a.id;
        object_key = a.key;
        remote_ip = r.remote_ip;
        created_at = zero_time;
      })
      r.now)

-- auditFilterFrom, of the parameters of the query; an unknown window has no start.
unfoldable pub audit_filter_from : Text → Text → Text → Time → AuditFilter
unfolding window_since
audit_filter_from actor action window now = record {
  actor = trim_space actor;
  action = trim_space action;
  since = window_since (trim_space window) now;
}

pub data AuditReply : Type 0 where
  forbidden internal : AuditReply
  exported : List AuditRow → AuditReply
  listed : List AuditRow → PageView → AuditReply

-- handleListAudit, and handleActivityGET, which puts the same into a page.
unfoldable pub handle_list_audit : AuditFilter → ℕ → ℕ → M AuditReply
handle_list_audit f page per_page =
    or_answer (count_audit_filtered f) (λ _. internal)
      λ total.
        let pv = page_view_for total page per_page in
        or_answer (list_audit_filtered f (pos per_page) (pos ((pv.current - 1) * per_page)))
          (λ _. internal) λ rows. pure (listed rows pv)

-- handleActivityExport, up to the rendering.
unfoldable pub handle_activity_export : Option Actor → AuditFilter → M AuditReply
handle_activity_export none f = pure forbidden
handle_activity_export (some a) f =
    choose (is_admin a.user.role)
      (or_answer (list_audit_filtered f (negsuc 0) (pos 0)) (λ _. internal)
        λ events. pure (exported events))
      (pure forbidden)

abbrev pub is_quote : ℕ → Bool
is_quote c = c == b'"'

abbrev pub needs_quotes : ℕ → Bool
needs_quotes c = c == b',' || c == b'"' || c == 10 || c == 13

-- strings.ReplaceAll(s, `"`, `""`)
unfoldable pub double_quotes : Text → Text
double_quotes [] = []
double_quotes (c ∷ s) = let rest = double_quotes s in if is_quote c then c ∷ c ∷ rest else c ∷ rest

-- csvField
unfoldable pub csv_field : Text → Text
unfolding double_quotes
csv_field s = if any needs_quotes s then b'"' ∷ (double_quotes s ++ b'"' ∷ []) else s
