-- ===== src/Store/Protected/Tests.antt =====
-- The set of a store with one pin and one link.
use groot_share.Prelude.{◌||◌, ◌≡◌, refl, arith, any, [], ◌∷◌}
use groot_share.Time.{second}
use groot_share.Store.World.{query}
use groot_share.Store.Shares.{servable}
use groot_share.Store.Sample.{sample, old_id, pinned_id}
use groot_share.Store.Protected.{
  is_protected, is_protected_iff, pinned, actively_shared, protected_archive_ids,
}

is_protected_iff_example : is_protected (pinned_id ∷ old_id ∷ []) old_id ≡ (
    any (pinned old_id) sample.db.archive_pins
    || any (actively_shared second old_id) sample.db.share_links)
unfolding protected_archive_ids query servable
is_protected_iff_example =
    is_protected_iff second sample (pinned_id ∷ old_id ∷ []) old_id (omega arith) (omega arith)
      (((omega arith, omega arith), tt), tt) refl
