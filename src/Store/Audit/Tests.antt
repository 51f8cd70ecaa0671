-- ===== src/Store/Audit/Tests.antt =====
-- A filter with a wildcard in it.
use groot_share.Prelude.{Text, codes, true, false, not, ◌&&◌, ◌||◌, [], map, text_eq, ◌≡◌, refl}
use groot_share.Time.{at, is_zero, rfc3339, stamp_lt}
use groot_share.Blob.Keys.{contains}
use groot_share.Store.Types.{AuditRow}
use groot_share.Store.Audit.{AuditFilter, audit_where, fold_case}
use groot_share.Store.Audit.Like.{audit_where-literal}

abbrev event : Text → AuditRow
event actor = record {
  id = 1;
  actor = actor;
  actor_id = 1;
  action = codes "upload";
  object_id = [];
  object_key = [];
  remote_ip = [];
  created_at = at 100;
}

abbrev under : AuditFilter
under = record { actor = codes "a_b"; action = codes "upload"; since = 0 }

literal : audit_where under (event (codes "xA_B")) ≡ true
unfolding audit_where text_eq groot_share.Store.Audit.escape_like
literal = refl

no_wildcard : audit_where under (event (codes "aab")) ≡ false
unfolding audit_where text_eq groot_share.Store.Audit.escape_like
no_wildcard = refl

audit_where-literal_example : audit_where under (event (codes "xA_B")) ≡ (
    contains (map fold_case (codes "xA_B")) (map fold_case (codes "a_b"))
    && ((text_eq (codes "upload") [] || text_eq (codes "upload") (codes "upload"))
        && (is_zero 0 || not (stamp_lt (at 100) (rfc3339 0)))))
audit_where-literal_example = audit_where-literal under (event (codes "xA_B"))
