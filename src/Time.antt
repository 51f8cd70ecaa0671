-- ===== src/Time.antt =====
-- Go's time.Time, and the text form in which the store keeps it (internal/store: share.go,
-- store.go, and the calls of time.Format in every insert).
-- A time is the number of nanoseconds since the start of year 1, Go's zero time, which
-- `IsZero` tells from the others; times before it do not occur.
mod Tests
use Prim.Native.Nat.{min}
use groot_share.Prelude.{
  ℕ, ◌+◌, ◌-◌, ◌*◌, ◌/◌, ◌%◌, Bool, true, false, ltb, leb, ◌==◌, if◌then◌else◌,
}

abbrev pub Time : Type 0
Time = ℕ

abbrev pub second : ℕ
second = 1000000000

abbrev pub hour : ℕ
hour = 3600 * second

abbrev pub day : ℕ
day = 24 * hour

abbrev pub zero_time : Time
zero_time = 0

abbrev pub is_zero : Time → Bool
is_zero t = t == 0

abbrev pub before : Time → Time → Bool
before t u = ltb t u

abbrev pub after : Time → Time → Bool
after t u = ltb u t

-- A text column that holds a time: the empty string, or the RFC 3339 text in UTC of a whole
-- second, by the number of that second.
pub data Stamp : Type 0 where
  blank : Stamp
  at : ℕ → Stamp

-- t.UTC().Format(time.RFC3339)
abbrev pub rfc3339 : Time → Stamp
rfc3339 t = at (t / second)

-- formatShareTime
abbrev pub format_share_time : Time → Stamp
format_share_time t = if is_zero t then blank else at (t / second)

-- The first second of the year 10000, whose text has five digits for the year.
abbrev pub year_10000 : ℕ
year_10000 = 315_537_897_600

-- The year of a second, in the Gregorian calendar.
abbrev years_of_cycle : ℕ → ℕ
years_of_cycle days =
    let centuries = min 3 (days / 36524) in
    let rest = days - 36524 * centuries in
    100 * centuries + 4 * (rest / 1461) + min 3 (rest % 1461 / 365)

unfoldable pub year : ℕ → ℕ
year s = let days = s / 86400 in 400 * (days / 146097) + years_of_cycle (days % 146097) + 1

-- shareTime; time.Parse of what rfc3339 wrote, which fails on a year of five digits.
abbrev pub share_time : Stamp → Time
share_time blank = zero_time
share_time (at s) = if ltb s year_10000 then s * second else zero_time

-- `a < b` on two texts of seconds. Those of the years up to 9999, and those of the years from 10000
-- to 99999, are ordered as the seconds are. Of one of each kind, the four digits of the former are
-- compared with the first four of the latter, and a dash is less than a digit.
abbrev pub text_before : ℕ → ℕ → Bool
text_before s t =
    if ltb s year_10000
    then if ltb t year_10000 then ltb s t else leb (year s) (year t / 10)
    else if ltb t year_10000
    then ltb (year s / 10) (year t)
    else ltb s t

-- `a < b` on the columns
abbrev pub stamp_lt : Stamp → Stamp → Bool
stamp_lt blank blank = false
stamp_lt blank (at s) = true
stamp_lt (at s) blank = false
stamp_lt (at s) (at t) = text_before s t

-- `column = ''`
abbrev pub is_blank : Stamp → Bool
is_blank blank = true
is_blank (at s) = false
