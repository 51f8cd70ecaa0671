-- ===== src/Store/Protected.antt =====
-- internal/store/protected.go: the archives that retention must leave alone.
mod Tests
use groot_share.Prelude.{
  ◌<◌, ◌*◌, All, Text, text_eq, Bool, List, map, ◌++◌, keep_if, any, ◌≡◌, refl, ◌||◌, arith, [],
  ◌∷◌, true, false, ◌&&◌,
}
use groot_share.Time.{Time, year_10000, second}
use groot_share.Store.Types.{PinRow, ShareRow, Db}
use groot_share.Store.World.{World, M, Result, ok, err, query, pure, ◌>>=◌}
use groot_share.Store.Shares.{servable, scan_share, active}
use groot_share.Store.Shares.Active.{IsDated, active-eq-servable}

-- The ids of the pins, and of the links that can still serve, as the two queries select them. The
-- set is a list, read by `is_protected` alone.
abbrev pub pinned_ids : Db → List Text
pinned_ids db = map (λ (p : PinRow). p.archive_id) db.archive_pins

abbrev pub shared_ids : Time → Db → List Text
shared_ids now db = map (λ (r : ShareRow). r.archive_id) (keep_if (servable now) db.share_links)

abbrev pub is_protected : List Text → Text → Bool
is_protected prot id = any (text_eq id) prot

-- ProtectedArchiveIDs
unfoldable pub protected_archive_ids : Time → M (List Text)
protected_archive_ids now = do
  pinned ← query (λ db. ok (pinned_ids db))
  shared ← query (λ db. ok (shared_ids now db))
  pure (pinned ++ shared)

any-append : (p : Text → Bool) (xs ys : List Text) → any p (xs ++ ys) ≡ (any p xs || any p ys)
any-append p [] ys = refl
any-append p (x ∷ xs) ys = ground (arith, any-append p xs ys)

abbrev pub pinned : Text → PinRow → Bool
pinned id p = text_eq id p.archive_id

-- A link to the archive that Active lets through.
abbrev pub actively_shared : Time → Text → ShareRow → Bool
actively_shared now id r = text_eq id r.archive_id && active (scan_share r) now

any-pinned :
    (id : Text) (pins : List PinRow)
    → any (text_eq id) (map (λ p. p.archive_id) pins) ≡ any (pinned id) pins
any-pinned id [] = refl
any-pinned id (p ∷ pins) = ground (arith, any-pinned id pins)

any-shared :
    (now : Time) (id : Text) (rows : List ShareRow)
    → 0 < now
    → now < year_10000 * second
    → All (λ r. IsDated r.expires_at × IsDated r.revoked_at) rows
    → any (text_eq id) (map (λ r. r.archive_id) (keep_if (servable now) rows))
      ≡ any (actively_shared now id) rows
any-shared now id [] h late dated = refl
any-shared now id (r ∷ rows) h late ((de, dr), dated) =
    ground (arith, any-shared now id rows h late dated, active-eq-servable r now de dr h late)

-- Where both queries answered, the set that a sweep spares holds an archive exactly when some user
-- has pinned it or some link to it is active in the sense of the download handler. The time is not
-- Go's zero time and lies before the year 10000, and so do the times of the link rows, none of which
-- is the first second of year 1.
pub is_protected_iff :
    (now : Time) (w : World) (prot : List Text) (id : Text)
    → 0 < now
    → now < year_10000 * second
    → All (λ r. IsDated r.expires_at × IsDated r.revoked_at) w.db.share_links
    → (protected_archive_ids now w).0 ≡ ok prot
    → is_protected prot id
      ≡ (any (pinned id) w.db.archive_pins || any (actively_shared now id) w.db.share_links)
unfolding protected_archive_ids query
is_protected_iff now w prot id h late dated e = ground (
  arith,
  any-append (text_eq id) (pinned_ids w.db) (shared_ids now w.db),
  any-pinned id w.db.archive_pins,
  any-shared now id w.db.share_links h late dated,
)
