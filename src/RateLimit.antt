-- ===== src/RateLimit.antt =====
-- internal/ratelimit/ratelimit.go: at most `max` events per key in a sliding window.
-- The map is a function into options; a nil limiter is `none`. The clock is an argument of each
-- call, and the mutex makes the calls one sequence.
pub mod Laws
pub mod Bound
pub mod Recovery
mod Tests
use groot_share.Prelude.{
  ℕ, ◌+◌, ◌-◌, Text, text_eq, codes, Bool, true, false, List, [], ◌∷◌, ◌++◌, ltb, leb,
  if◌then◌else◌, Option, none, some, length, keep_if, ℤ, pos, negsuc,
}
use groot_share.Time.{Time, zero_time}

abbrev pub Events : Type 0
Events = Text → Option (List Time)

pub record Limiter : Type 0 where
  pub events : Events
  pub max : ℕ
  pub window : ℕ
  pub last_sweep : Time

unfoldable pub new : ℤ → ℤ → Option Limiter
new (negsuc n) window = none
new (pos limit) (negsuc n) = none
new (pos limit) (pos window) =
    if leb limit 0
    then none
    else if leb window 0
    then none
    else some
        (record { events = λ key. none; max = limit; window = window; last_sweep = zero_time })

-- `l.events[key]`: a missing key reads as the nil slice.
abbrev pub or_nil : Option (List Time) → List Time
or_nil none = []
or_nil (some ts) = ts

-- `t.After(now.Add(-window))`, written without a negative time.
abbrev pub unexpired : ℕ → Time → Time → Bool
unexpired window now t = ltb now (t + window)

abbrev pub kept : ℕ → Time → List Time → List Time
kept window now = keep_if (unexpired window now)

-- `l.events[key] = ts`
abbrev pub assign : Events → Text → List Time → Events
assign m key ts k = if text_eq key k then some ts else m k

-- The body of the janitor's loop, for one key; `none` is a key that is not in the map.
abbrev pub evict : ℕ → Time → Option (List Time) → Option (List Time)
evict window now none = none
evict window now (some ts) = elim (kept window now ts) [ [] ↦ none | t ∷ rest ↦ some (t ∷ rest) ]

unfoldable pub sweep_locked : Limiter → Time → Limiter
sweep_locked l now =
    if ltb (now - l.last_sweep) l.window
    then l
    else record l { last_sweep = now; events = λ key. evict l.window now (l.events key) }

-- The locked part of Allow, on the limiter that the janitor has left.
unfoldable pub record_event : Limiter → Text → Time → Bool × Limiter
record_event l key now =
    let fresh = kept l.window now (or_nil (l.events key)) in
    if leb l.max (length fresh)
    then (false, record l { events = assign l.events key fresh })
    else (true, record l { events = assign l.events key (fresh ++ now ∷ []) })

-- `if key == "" { key = "unknown" }`
unfoldable pub key_or_unknown : Text → Text
key_or_unknown [] = codes "unknown"
key_or_unknown (c ∷ key) = c ∷ key

unfoldable pub allow : Option Limiter → Text → Time → Bool × Option Limiter
unfolding sweep_locked record_event key_or_unknown
allow none key now = (true, none)
allow (some l) key now =
    let (verdict, l') = record_event (sweep_locked l now) (key_or_unknown key) now in
    (verdict, some l')
