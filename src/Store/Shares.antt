-- ===== src/Store/Shares.antt =====
-- internal/store/share.go: time-limited download links, with a cap on their uses.
pub mod Active
pub mod Uses
mod Tests
use groot_share.Prelude.{
  ℕ, suc, ◌+◌, ◌*◌, Text, text_eq, Bool, true, false, not, ◌&&◌, ◌||◌, List, [], ◌∷◌, ◌++◌, ltb,
  leb, ◌==◌, Option, none, some, if◌then◌else◌, find, any, keep_if, update_if, count_if, map,
}
use groot_share.Time.{
  Time, Stamp, hour, is_zero, before, format_share_time, share_time, stamp_lt, is_blank, blank,
}
use groot_share.Store.Types.{ShareRow, Db, User}
use groot_share.Store.World.{
  M, Result, ok, err, Error, share_not_found, share_exhausted, constraint, failed, pure, raise,
  attempt, choose, query, exec, ◌>>=◌, ◌>>◌,
}

-- ShareLink, as scanned from a row.
pub record ShareLink : Type 0 where
  pub id : ℕ
  pub archive_id : Text
  pub token_hash : Text
  pub created_by : ℕ
  pub label : Text
  pub max_uses : ℕ
  pub use_count : ℕ
  pub expires_at : Time
  pub revoked_at : Time
  pub created_at : Time

abbrev pub scan_share : ShareRow → ShareLink
scan_share r = record {
  id = r.id;
  archive_id = r.archive_id;
  token_hash = r.token_hash;
  created_by = r.created_by;
  label = r.label;
  max_uses = r.max_uses;
  use_count = r.use_count;
  expires_at = share_time r.expires_at;
  revoked_at = share_time r.revoked_at;
  created_at = share_time r.created_at;
}

-- ShareLink.Active
unfoldable pub active : ShareLink → Time → Bool
active l now =
    if not (is_zero l.revoked_at)
    then false
    else if not (is_zero l.expires_at) && not (before now l.expires_at)
    then false
    else if ltb 0 l.max_uses && leb l.max_uses l.use_count
    then false
    else true

-- The WHERE clause that IncrementShareUse and ProtectedArchiveIDs share.
unfoldable pub servable : Time → ShareRow → Bool
servable now r =
    is_blank r.revoked_at
    && ((is_blank r.expires_at || stamp_lt (format_share_time now) r.expires_at)
        && (r.max_uses == 0 || ltb r.use_count r.max_uses))

abbrev pub has_id : ℕ → ShareRow → Bool
has_id id r = r.id == id

-- A user that a foreign key names must exist, where foreign keys are enforced.
abbrev pub user_exists : Db → ℕ → Bool
user_exists db id = not db.foreign_keys || any (λ (u : User). u.id == id) db.users

insert_share : Text → Text → ℕ → Text → ℕ → Time → Time → Db → Result (ShareLink × Db)
insert_share archive_id token_hash created_by label max_uses expires_at now db =
    if any (λ (r : ShareRow). text_eq r.token_hash token_hash) db.share_links
    then err constraint
    else if not (user_exists db created_by)
    then err constraint
    else ok (
      record (scan_share row) { expires_at = expires_at; created_at = now },
      record db { share_links = row ∷ db.share_links; next_share = suc db.next_share },
    )
  where
    row : ShareRow
    row = record {
      id = db.next_share;
      archive_id = archive_id;
      token_hash = token_hash;
      created_by = created_by;
      label = label;
      max_uses = max_uses;
      use_count = 0;
      expires_at = format_share_time expires_at;
      revoked_at = blank;
      created_at = format_share_time now;
    }

-- CreateShareLink, at the time `now`.
unfoldable pub create_share_link : Text → Text → ℕ → Text → ℕ → Time → Time → M ShareLink
unfolding insert_share
create_share_link archive_id token_hash created_by label max_uses expires_at now =
    let until = if is_zero expires_at then now + 24 * hour else expires_at in
    exec (insert_share archive_id token_hash created_by label max_uses until now)

abbrev pub found_share : Option ShareRow → Result ShareLink
found_share none = err share_not_found
found_share (some r) = ok (scan_share r)

unfoldable pub share_by_token_hash : Text → M ShareLink
share_by_token_hash h =
    query λ db. found_share (find (λ (r : ShareRow). text_eq r.token_hash h) db.share_links)

unfoldable pub share_by_id : ℕ → M ShareLink
share_by_id id = query λ db. found_share (find (has_id id) db.share_links)

-- ListShareLinks. A new row stands in front, and its id is the highest: the table is in the order
-- of falling ids.
unfoldable pub list_share_links : Text → M (List ShareLink)
list_share_links archive_id = query λ db.
    ok (map scan_share (keep_if (λ (r : ShareRow). text_eq r.archive_id archive_id) db.share_links))

-- An UPDATE of the links that pass a test, with the number of rows affected.
abbrev update_shares : (ShareRow → Bool) → (ShareRow → ShareRow) → Db → Result (ℕ × Db)
update_shares p f db =
    ok (count_if p db.share_links, record db { share_links = update_if p f db.share_links })

-- RevokeShareLink
unfoldable pub revoke_share_link : ℕ → Time → M (Unit {0})
revoke_share_link id now = do
  n ← exec (
      update_shares (λ r. has_id id r && is_blank r.revoked_at)
        (λ r. record r { revoked_at = format_share_time now }))
  choose (n == 0) (raise share_not_found) (pure tt)

-- `SELECT use_count FROM share_links WHERE id = ?`
abbrev use_count_of : Option ShareRow → Result ℕ
use_count_of none = err failed
use_count_of (some r) = ok r.use_count

-- Why no row was affected.
abbrev refusal : Result ShareLink → M ℕ
refusal (err e) = raise e
refusal (ok l) = raise share_exhausted

-- IncrementShareUse
unfoldable pub increment_share_use : ℕ → Time → M ℕ
unfolding query exec
increment_share_use id now = do
  n ← exec (
      update_shares (λ r. has_id id r && servable now r)
        (λ r. record r { use_count = r.use_count + 1 }))
  choose (n == 0) (attempt (share_by_id id) >>= refusal)
      (query λ db. use_count_of (find (has_id id) db.share_links))
