-- ===== src/Store/Shares/Active.antt =====
-- The two tests of whether a link can serve: in Go, on scanned times, and in SQL, on text.
use groot_share.Prelude.{◌*◌, ◌≡◌, arith, ◌<◌}
use groot_share.Time.{Time, Stamp, at, blank, year_10000, second}
use groot_share.Store.Types.{ShareRow}
use groot_share.Store.Shares.{scan_share, active, servable}

-- No time, or one after the first second of year 1, which reads back as Go's zero time, and before
-- the year 10000, which does not read back.
abbrev pub IsDated : Stamp → Type 0
IsDated blank = Unit {0}
IsDated (at s) = (0 < s) × (s < year_10000)

-- Active and the WHERE clause of IncrementShareUse agree, although the one compares times and the
-- other their texts, which are cut to whole seconds, on every link whose expiry and revocation are
-- empty or lie after the first second of year 1 and before the year 10000, and at every time that is
-- not Go's zero time and lies before the year 10000.
pub active-eq-servable :
    (r : ShareRow) (now : Time)
    → IsDated r.expires_at
    → IsDated r.revoked_at
    → 0 < now
    → now < year_10000 * second
    → active (scan_share r) now ≡ servable now r
unfolding active servable
active-eq-servable r now de dr h late = go r.expires_at r.revoked_at de dr
  where
    go :
        (expires revoked : Stamp)
        → IsDated expires
        → IsDated revoked
        → active (scan_share (record r { expires_at = expires; revoked_at = revoked })) now
          ≡ servable now (record r { expires_at = expires; revoked_at = revoked })
    go blank blank e v = ground (arith, h, late)
    go blank (at t) e v = ground (arith, h, late, e, v)
    go (at s) blank e v = ground (arith, h, late, e, v)
    go (at s) (at t) e v = ground (arith, h, late, e, v)
