-- ===== src/RateLimit/Recovery.antt =====
-- The limiter after refused attempts.
use groot_share.Prelude.{
  ℕ, ◌+◌, ◌-◌, ◌≤◌, ◌<◌, ◌≡◌, refl, arith, Text, text_eq_refl, true, false, List, [], ◌∷◌, some,
  ltb, leb, length, inl, inr, Bool-cases, All, All-keep_if,
}
use groot_share.Time.{Time}
use groot_share.RateLimit.{
  Limiter, allow, sweep_locked, record_event, key_or_unknown, or_nil, kept, unexpired,
}
use groot_share.RateLimit.Laws.{or_nil-evict}

-- No accepted attempt of the key is later than `last`.
abbrev pub Since : Time → Text → Limiter → Type 0
Since last key l = All (λ t. t ≤ last) (or_nil (l.events (key_or_unknown key)))

kept-over :
    (w : ℕ) (last now : Time) (ts : List Time)
    → All (λ t. t ≤ last) ts
    → last + w ≤ now
    → kept w now ts ≡ []
kept-over w last now [] h late = refl
kept-over w last now (t ∷ ts) (h, hs) late =
    ground (arith, h, late, kept-over w last now ts hs late)

sweep-Since :
    (l : Limiter) (last now : Time) (key : Text)
    → Since last key l
    → Since last key (sweep_locked l now)
unfolding sweep_locked
sweep-Since l last now key h = elim (Bool-cases (ltb (now - l.last_sweep) l.window)) [
  | inl early ↦ rw early h
  | inr due ↦ rw due (
      rw (or_nil-evict l.window now (l.events (key_or_unknown key))) (
        All-keep_if (λ t. t ≤ last) (unexpired l.window now)
          (or_nil (l.events (key_or_unknown key))) h))
]

sweep-limits :
    (l : Limiter) (now : Time)
    → ((sweep_locked l now).max ≡ l.max) × ((sweep_locked l now).window ≡ l.window)
unfolding sweep_locked
sweep-limits l now = ground arith

record-recovers :
    (l : Limiter) (last now : Time) (key : Text)
    → 0 < l.max
    → Since last key l
    → last + l.window ≤ now
    → (record_event l (key_or_unknown key) now).0 ≡ true
unfolding record_event
record-recovers l last now key some_allowed h late =
    rw (kept-over l.window last now (or_nil (l.events (key_or_unknown key))) h late)
      (ground (arith, some_allowed))

record-refused :
    (l : Limiter) (last now : Time) (key : Text)
    → Since last key l
    → (record_event l (key_or_unknown key) now).0 ≡ false
    → Since last key (record_event l (key_or_unknown key) now).1
unfolding record_event
record-refused l last now key h refused =
    elim (Bool-cases
      (leb l.max (length (kept l.window now (or_nil (l.events (key_or_unknown key))))))) [
        | inl full ↦ rw full (
            rw (text_eq_refl (key_or_unknown key)) (
              All-keep_if (λ t. t ≤ last) (unexpired l.window now)
                (or_nil (l.events (key_or_unknown key))) h))
        | inr free ↦ ground (arith, free, refused)
      ]

record-max :
    (l : Limiter) (now : Time) (key : Text)
    → (record_event (sweep_locked l now) (key_or_unknown key) now).1.max ≡ l.max
unfolding record_event sweep_locked
record-max l now key = ground arith

record-window :
    (l : Limiter) (now : Time) (key : Text)
    → (record_event (sweep_locked l now) (key_or_unknown key) now).1.window ≡ l.window
unfolding record_event sweep_locked
record-window l now key = ground arith

-- Refused attempts leave no trace: after one, at any time, the accepted attempts of the key are
-- still no later than `last`. And an attempt a whole window after `last` is accepted. So a key is
-- let in again, however often it has been refused in between.
pub allow-recovers :
    (l : Limiter) (last : Time) (key : Text)
    → 0 < l.max
    → Since last key l
    → ((now : Time)
        → (allow (some l) key now).0 ≡ false
        → (l' : Limiter) × ((allow (some l) key now).1 ≡ some l')
          × (l'.max ≡ l.max)
          × (l'.window ≡ l.window)
          × Since last key l')
      × ((now : Time) → last + l.window ≤ now → (allow (some l) key now).0 ≡ true)
unfolding allow
allow-recovers l last key some_allowed h = (
  λ now refused. (
    (record_event (sweep_locked l now) (key_or_unknown key) now).1,
    refl,
    record-max l now key,
    record-window l now key,
    record-refused (sweep_locked l now) last now key (sweep-Since l last now key h) refused,
  ),
  λ now late.
      let (most, width) = sweep-limits l now in
      record-recovers (sweep_locked l now) last now key (rw most some_allowed)
        (sweep-Since l last now key h) (rw width late),
)
