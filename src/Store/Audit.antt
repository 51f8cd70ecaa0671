-- ===== src/Store/Audit.antt =====
-- internal/store/audit.go: the log of who did what.
pub mod Like
mod Tests
use groot_share.Prelude.{
  ◌+◌, Bool, true, false, not, ◌&&◌, codes, text_eq, ◌++◌, leb, ltb, count_if, keep_if, sort_by, ℕ,
  suc, Text, ◌||◌, List, [], ◌∷◌, ◌==◌, if◌then◌else◌, take, drop, ℤ, pos, negsuc,
}
use groot_share.Time.{Time, is_zero, rfc3339, stamp_lt}
use groot_share.Store.Types.{AuditRow, Db}
use groot_share.Store.World.{M, Result, ok, exec, query}

-- Audit, as its callers fill it in: the id is the table's.
pub record Audit : Type 0 where
  pub actor : Text
  pub actor_id : ℕ
  pub action : Text
  pub object_id : Text
  pub object_key : Text
  pub remote_ip : Text
  pub created_at : Time

audit_row : Audit → Time → Db → Result (Unit {0} × Db)
audit_row ev now db = ok (
  tt,
  record db {
    audit =
        record {
          id = db.next_audit;
          actor = ev.actor;
          actor_id = ev.actor_id;
          action = ev.action;
          object_id = ev.object_id;
          object_key = ev.object_key;
          remote_ip = ev.remote_ip;
          created_at = rfc3339 (if is_zero ev.created_at then now else ev.created_at);
        }
        ∷ db.audit;
    next_audit = suc db.next_audit;
  },
)

-- InsertAudit, at the time `now`.
unfoldable pub insert_audit : Audit → Time → M (Unit {0})
unfolding audit_row
insert_audit ev now = exec (audit_row ev now)

-- escapeLike
unfoldable pub escape_like : Text → Text
escape_like [] = []
escape_like (c ∷ s) =
    let rest = escape_like s in
    if c == b'\\' || c == b'%' || c == b'_' then b'\\' ∷ c ∷ rest else c ∷ rest

-- SQLite's LIKE with ESCAPE '\\', which ignores the case of letters of ASCII.
abbrev pub fold_case : ℕ → ℕ
fold_case c = if leb b'A' c && leb c b'Z' then c + 32 else c

abbrev pub any_suffix : (Text → Bool) → Text → Bool
any_suffix f [] = f []
any_suffix f (c ∷ t) = f (c ∷ t) || any_suffix f t

abbrev pub after_one : (Text → Bool) → Text → Bool
after_one f [] = false
after_one f (c ∷ t) = f t

abbrev pub after_same : ℕ → (Text → Bool) → Text → Bool
after_same q f [] = false
after_same q f (c ∷ t) = fold_case c == fold_case q && f t

abbrev empty : Text → Bool
empty [] = true
empty (c ∷ t) = false

-- Whether the pattern matches; the flag tells that an escape character stands before it.
unfoldable pub like : Bool → Text → Text → Bool
like true [] t = false
like true (q ∷ pattern) t = after_same q (like false pattern) t
like false [] t = empty t
like false (q ∷ pattern) t =
    let rest = like false pattern in
    let escaped = like true pattern in
    if q == b'\\'
    then escaped t
    else if q == b'%'
    then any_suffix rest t
    else if q == b'_'
    then after_one rest t
    else after_same q rest t

-- AuditFilter
pub record AuditFilter : Type 0 where
  pub actor : Text
  pub action : Text
  pub since : Time

-- auditWhere, as the test of a row: the clauses that are set, joined by AND.
unfoldable pub audit_where : AuditFilter → AuditRow → Bool
unfolding like
audit_where f r =
    (text_eq f.actor [] || like false (codes "%" ++ escape_like f.actor ++ codes "%") r.actor)
    && ((text_eq f.action [] || text_eq r.action f.action)
        && (is_zero f.since || not (stamp_lt r.created_at (rfc3339 f.since))))

-- CountAuditFiltered
unfoldable pub count_audit_filtered : AuditFilter → M ℕ
unfolding audit_where
count_audit_filtered f = query λ db. ok (count_if (audit_where f) db.audit)

abbrev later_id : AuditRow → AuditRow → Bool
later_id r q = ltb q.id r.id

-- LIMIT and OFFSET of ListAuditFiltered; a negative limit is none, and then the offset is not used.
abbrev pub page_of : ℤ → ℤ → List AuditRow → List AuditRow
page_of (negsuc n) offset rows = rows
page_of (pos n) (negsuc m) rows = take (if n == 0 then 50 else n) rows
page_of (pos n) (pos m) rows = take (if n == 0 then 50 else n) (drop m rows)

-- ListAuditFiltered; the rows are scanned as they are.
unfoldable pub list_audit_filtered : AuditFilter → ℤ → ℤ → M (List AuditRow)
unfolding audit_where sort_by
list_audit_filtered f limit offset =
    query λ db. ok (page_of limit offset (sort_by later_id (keep_if (audit_where f) db.audit)))

-- ListAudit
unfoldable pub list_audit : ℤ → M (List AuditRow)
unfolding list_audit_filtered
list_audit limit = list_audit_filtered (record { actor = []; action = []; since = 0 }) limit (pos 0)
