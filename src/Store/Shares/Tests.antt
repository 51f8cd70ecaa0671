-- ===== src/Store/Shares/Tests.antt =====
-- A link with one use left.
use groot_share.Prelude.{◌+◌, ◌≤◌, ◌≡◌, refl, arith, [], ◌∷◌, true, false}
use groot_share.Time.{second, at, year_10000, year}
use groot_share.Store.Types.{ShareRow}
use groot_share.Store.World.{exec, query}
use groot_share.Store.Sample.{sample, link, today}
use groot_share.Store.Shares.{
  share_by_id, scan_share, active, servable, increment_share_use, revoke_share_link,
}
use groot_share.Store.Shares.Active.{active-eq-servable}
use groot_share.Store.Shares.Uses.{served, served-le, served_revoked}

one_served : served 7 (second ∷ second ∷ second ∷ []) sample ≡ 1
unfolding served increment_share_use servable exec query share_by_id
one_served = refl

active-eq-servable_example : active (scan_share link) second ≡ servable second link
active-eq-servable_example =
    active-eq-servable link second (omega arith, omega arith) tt (omega arith) (omega arith)

served-le_example : served 7 (second ∷ second ∷ second ∷ []) sample + 1 ≤ 2
served-le_example =
    served-le 7 (second ∷ second ∷ second ∷ []) sample link (ground arith) refl (omega arith)
      (omega arith)

served_revoked_example : served 7 (second ∷ today ∷ []) (revoke_share_link 7 second sample).1 ≡ 0
unfolding revoke_share_link exec
served_revoked_example =
    served_revoked 7 (second ∷ today ∷ []) second sample link (ground arith) refl (omega arith) refl

-- A link that expires in the year 10000: the handler's test takes it for one that never expires,
-- and the text of the statements for one that has expired.
abbrev late_link : ShareRow
late_link = record link { expires_at = at year_10000 }

late_active : active (scan_share late_link) today ≡ true
unfolding active
late_active = refl

late_refused : servable today late_link ≡ false
unfolding servable year
late_refused = refl
