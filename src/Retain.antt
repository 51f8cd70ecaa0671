-- ===== src/Retain.antt =====
-- internal/retain/retain.go: which archives a retention sweep deletes.
pub mod Laws
mod Tests
use groot_share.Prelude.{
  ℕ, suc, ◌-◌, ◌*◌, Text, text_eq, Bool, true, false, not, ◌&&◌, ◌||◌, List, [], ◌∷◌, ◌++◌, ltb,
  leb, if◌then◌else◌, any, ℤ, or_default,
}
use groot_share.Time.{Time, day, is_zero, before}
use groot_share.Store.Types.{Archive}

-- `a.ID == ""`
abbrev pub no_id : Archive → Bool
no_id a = text_eq a.id []

abbrev pub same_id : Archive → Archive → Bool
same_id a b = text_eq a.id b.id

-- The closure `add`. Every archive of `out` was added, so `seen` is the set of its ids.
unfoldable pub add : Archive → List Archive → List Archive
add a out = if no_id a then out else if any (same_id a) out then out else out ++ a ∷ []

-- The two tests of the loop body, at index `i`.
abbrev pub beyond_count : ℕ → ℕ → Bool
beyond_count keep_last i = ltb 0 keep_last && leb keep_last i

abbrev pub too_old : ℕ → Time → Archive → Bool
too_old max_age_days cutoff a =
    ltb 0 max_age_days && (not (is_zero a.created_at) && before a.created_at cutoff)

-- One round of the loop.
unfoldable pub round : ℕ → ℕ → Time → ℕ → Archive → List Archive → List Archive
round keep_last max_age_days cutoff i a out =
    let counted = if beyond_count keep_last i then add a out else out in
    if too_old max_age_days cutoff a then add a counted else counted

pub pick_from : ℕ → ℕ → Time → ℕ → List Archive → List Archive → List Archive
pick_from keep_last max_age_days cutoff i [] out = out
pick_from keep_last max_age_days cutoff i (a ∷ items) out =
    pick_from keep_last max_age_days cutoff (suc i) items
      (round keep_last max_age_days cutoff i a out)

-- `now.UTC().AddDate(0, 0, -maxAgeDays)`: a day of UTC has 24 hours.
abbrev pub cutoff_of : Time → ℕ → Time
cutoff_of now days = now - days * day

unfoldable pub pick : List Archive → ℤ → ℤ → Time → List Archive
unfolding pick_from round add
pick items keep_last max_age_days now =
    pick_from (or_default 20 keep_last) (or_default 90 max_age_days)
      (cutoff_of now (or_default 90 max_age_days)) 0 items []
