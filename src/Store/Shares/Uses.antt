-- ===== src/Store/Shares/Uses.antt =====
-- The cap on the uses of a link, and its revocation, over any sequence of calls and failures.
use groot_share.Prelude.{
  ℕ, ◌+◌, ◌≤◌, ◌<◌, ◌≡◌, refl, ◌⊎◌, inl, inr, Bool, true, false, List, [], ◌∷◌, some, if◌then◌else◌,
  find, arith, ◌&&◌,
}
use groot_share.Time.{Time, is_blank, format_share_time}
use groot_share.Store.Types.{ShareRow}
use groot_share.Store.Rows.{IsUnique, find-update_if, count-keyed, count-update_if}
use groot_share.Store.World.{World, Result, ok, err, exec}
use groot_share.Store.Shares.{has_id, servable, share_by_id, increment_share_use, revoke_share_link}

abbrev pub is_ok {ℓ} : {A : Type ℓ} → Result A → Bool
is_ok (ok a) = true
is_ok (err e) = false

abbrev pub links : World → List ShareRow
links w = w.db.share_links

abbrev bump : ShareRow → ShareRow
bump r = record r { use_count = r.use_count + 1 }

-- What a call can do to the link that it names: nothing, and then it fails; or one use more.
abbrev Counted : ℕ → Time → ShareRow → Result ℕ → World → Type 0
Counted id now r res w' =
    ((is_ok res ≡ false) × (find (has_id id) (links w') ≡ some r))
    ⊎ ((servable now r ≡ true) × (find (has_id id) (links w') ≡ some (bump r)))

increment-Counted :
    (id : ℕ) (now : Time) (w : World) (r : ShareRow)
    → IsUnique (has_id id) (links w)
    → find (has_id id) (links w) ≡ some r
    → Counted id now r (increment_share_use id now w).0 (increment_share_use id now w).1
      × IsUnique (has_id id) (links (increment_share_use id now w).1)
unfolding increment_share_use share_by_id
increment-Counted id now w r u e = ground (
  arith,
  find-update_if (has_id id) (servable now) bump (λ x. refl) (links w),
  count-keyed (has_id id) (servable now) (links w) r u e,
  count-update_if (has_id id) (λ x. has_id id x && servable now x) bump (λ x. refl) (links w),
)

servable_room :
    (now : Time) (r : ShareRow)
    → servable now r ≡ true
    → 0 < r.max_uses
    → r.use_count + 1 ≤ r.max_uses
unfolding servable
servable_room now r live capped = ground arith

-- Calls of IncrementShareUse for one link, in order, and how many of them return no error: so
-- many downloads are served on the strength of the counter.
unfoldable pub served : ℕ → List Time → World → ℕ
served id [] w = 0
served id (now ∷ calls) w =
    let (res, w') = increment_share_use id now w in
    (if is_ok res then 1 else 0) + served id calls w'

-- A link with a cap, whose id no other link has and whose count is not beyond the cap, is never
-- oversold: whatever the times of the calls of IncrementShareUse for it, one after the other, and
-- whatever calls to the database fail, those that succeed are at most the uses that were left.
pub served-le :
    (id : ℕ) (calls : List Time) (w : World) (r : ShareRow)
    → IsUnique (has_id id) (links w)
    → find (has_id id) (links w) ≡ some r
    → 0 < r.max_uses
    → r.use_count ≤ r.max_uses
    → served id calls w + r.use_count ≤ r.max_uses
unfolding served
served-le id [] w r u e capped h = omega arith
served-le id (now ∷ calls) w r u e capped h =
    let (counted, u') = increment-Counted id now w r u e in
    elim counted [
      | inl (failed, e') ↦
          rw failed
            (omega (arith, served-le id calls (increment_share_use id now w).1 r u' e' capped h))
      | inr (live, e') ↦ omega (
        arith,
        one-le (is_ok (increment_share_use id now w).0),
        served-le id calls (increment_share_use id now w).1 (bump r) u' e' capped
            (servable_room now r live capped),
      )
    ]
  where
    one-le : (b : Bool) → (if b then 1 else 0) ≤ 1
    one-le b = ground arith

not-servable_revoked :
    (now : Time) (r : ShareRow) → is_blank r.revoked_at ≡ false → servable now r ≡ false
unfolding servable
not-servable_revoked now r h = ground arith

served_dead :
    (id : ℕ) (calls : List Time) (w : World) (r : ShareRow)
    → IsUnique (has_id id) (links w)
    → find (has_id id) (links w) ≡ some r
    → is_blank r.revoked_at ≡ false
    → served id calls w ≡ 0
unfolding served
served_dead id [] w r u e dead = refl
served_dead id (now ∷ calls) w r u e dead =
    let (counted, u') = increment-Counted id now w r u e in
    elim counted [
      | inl (failed, e') ↦
          rw failed
            (omega (arith, served_dead id calls (increment_share_use id now w).1 r u' e' dead))
      | inr (live, e') ↦ cc (not-servable_revoked now r dead)
    ]

revoke_found :
    (id : ℕ) (now : Time) (w : World) (r : ShareRow)
    → IsUnique (has_id id) (links w)
    → find (has_id id) (links w) ≡ some r
    → (revoke_share_link id now w).0 ≡ ok tt
    → (find (has_id id) (links (revoke_share_link id now w).1)
        ≡ some (record r { revoked_at = format_share_time now }))
      × IsUnique (has_id id) (links (revoke_share_link id now w).1)
unfolding revoke_share_link exec
revoke_found id now w r u e done = ground (
  arith,
  find-update_if (has_id id) blank_revoked revoke (λ x. refl) (links w),
  count-keyed (has_id id) blank_revoked (links w) r u e,
  count-update_if (has_id id) (λ x. has_id id x && blank_revoked x) revoke (λ x. refl) (links w),
)
  where
    blank_revoked : ShareRow → Bool
    blank_revoked x = is_blank x.revoked_at

    revoke : ShareRow → ShareRow
    revoke x = record x { revoked_at = format_share_time now }

-- Once RevokeShareLink has returned no error for a link that is there, whose id no other link has,
-- at a time that is not Go's zero time, no later call of IncrementShareUse succeeds for that link.
pub served_revoked :
    (id : ℕ) (calls : List Time) (now : Time) (w : World) (r : ShareRow)
    → IsUnique (has_id id) (links w)
    → find (has_id id) (links w) ≡ some r
    → 0 < now
    → (revoke_share_link id now w).0 ≡ ok tt
    → served id calls (revoke_share_link id now w).1 ≡ 0
served_revoked id calls now w r u e dated done =
    let (e', u') = revoke_found id now w r u e done in
    served_dead id calls (revoke_share_link id now w).1 _ u' e' (ground arith)
