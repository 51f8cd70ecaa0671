-- ===== src/Time/Tests.antt =====
-- The texts of times around the year 10000.
use groot_share.Prelude.{◌≡◌, refl, true, ◌-◌}
use groot_share.Time.{at, year, year_10000, share_time, stamp_lt}

last_year : year (year_10000 - 1) ≡ 9999
unfolding year
last_year = refl

next_year : year year_10000 ≡ 10000
unfolding year
next_year = refl

-- The text of the year 10000 is less than that of 2026, and is not read back.
sorts_first : stamp_lt (at year_10000) (at 63_900_000_000) ≡ true
unfolding year
sorts_first = refl

not_parsed : share_time (at year_10000) ≡ 0
not_parsed = refl
