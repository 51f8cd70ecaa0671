-- ===== src/RateLimit/Laws.antt =====
-- The limiter against a log of every accepted event, which is never pruned.
use mathlib.Core.Path.{subst₂, ap₂}
use groot_share.Prelude.{
  ℕ, ◌-◌, ◌≤◌, ◌<◌, ◌≡◌, refl, sym, ap, ◌∙◌, inl, inr, Text, text_eq, text_eq_iff, text_eq_refl,
  Bool, true, false, List, [], ◌∷◌, ◌++◌, ltb, leb, if◌then◌else◌, Option, none, some, length,
  Bool-cases, arith, pos,
}
use groot_share.Time.{Time}
use groot_share.RateLimit.{
  Limiter, or_nil, kept, assign, evict, sweep_locked, record_event, allow, key_or_unknown, new,
}

-- The accepted events, oldest first.
abbrev pub Log : Type 0
Log = Text → List Time

-- The specification: an event is accepted while fewer than `max` accepted events of its key lie
-- within the window before it.
abbrev pub spec_allow : ℕ → ℕ → Log → Text → Time → Bool × Log
spec_allow max window log key now =
    if ltb (length (kept window now (log key))) max
    then (true, λ k. if text_eq key k then log key ++ now ∷ [] else log k)
    else (false, log)

-- The limiter and the log hold the same unexpired events, now and at every later time.
pub record Agrees (l : Limiter) (log : Log) (now : Time) : Type 0 where
  pub same :
      (key : Text) (later : Time)
      → now ≤ later
      → kept l.window later (or_nil (l.events key)) ≡ kept l.window later (log key)

kept-kept :
    (w : ℕ) (now later : Time) (ts : List Time)
    → now ≤ later
    → kept w later (kept w now ts) ≡ kept w later ts
kept-kept w now later [] h = refl
kept-kept w now later (t ∷ ts) h = ground (arith, kept-kept w now later ts)

kept-append :
    (w : ℕ) (now : Time) (ts us : List Time)
    → kept w now (ts ++ us) ≡ kept w now ts ++ kept w now us
kept-append w now [] us = refl
kept-append w now (t ∷ ts) us = ground (arith, kept-append w now ts us)

pub or_nil-evict :
    (w : ℕ) (now : Time) (o : Option (List Time)) → or_nil (evict w now o) ≡ kept w now (or_nil o)
or_nil-evict w now none = refl
or_nil-evict w now (some ts) = ground arith

sweep-Agrees :
    (l : Limiter) (log : Log) (now : Time) → Agrees l log now → Agrees (sweep_locked l now) log now
unfolding sweep_locked
sweep-Agrees l log now a = elim (Bool-cases (ltb (now - l.last_sweep) l.window)) [
  | inl early ↦ rw early a
  | inr due ↦ rw due (record {
    same = λ key later h.
        ap (kept l.window later) (or_nil-evict l.window now (l.events key))
        ∙ kept-kept l.window now later (or_nil (l.events key)) h
        ∙ a.same key later h;
  })
]

sweep-window :
    (l : Limiter) (now : Time)
    → ((sweep_locked l now).window ≡ l.window) × ((sweep_locked l now).max ≡ l.max)
unfolding sweep_locked
sweep-window l now = ground arith

assign-Agrees :
    (l : Limiter) (log log' : Log) (key : Text) (now : Time) (ts : List Time)
    → Agrees l log now
    → ((k : Text) → text_eq key k ≡ false → log' k ≡ log k)
    → ((later : Time) → now ≤ later → kept l.window later ts ≡ kept l.window later (log' key))
    → Agrees (record l { events = assign l.events key ts }) log' now
assign-Agrees l log log' key now ts a others this = record {
  same = λ k later h. elim (Bool-cases (text_eq key k)) [
    | inl e ↦ rw (← (text_eq_iff key k).0 e, text_eq_refl key) (this later h)
    | inr e ↦ rw (e, others k e) (a.same k later h)
  ];
}

record_event-Agrees :
    (l : Limiter) (log : Log) (key : Text) (now : Time)
    → Agrees l log now
    → ((record_event l key now).0 ≡ (spec_allow l.max l.window log key now).0)
      × Agrees (record_event l key now).1 (spec_allow l.max l.window log key now).1 now
unfolding record_event
record_event-Agrees l log key now a = elim (Bool-cases (leb l.max (length fresh))) [
  | inl full ↦
      rw (full, over full)
        (
          refl,
          assign-Agrees l log log key now fresh a (λ k _. refl)
              λ later h.
                kept-kept l.window now later (or_nil (l.events key)) h ∙ a.same key later h,
        )
  | inr room ↦
      rw (room, under room)
        (
          refl,
          assign-Agrees l log appended key now (fresh ++ now ∷ []) a (λ k e. rw e refl)
              λ later h. rw (text_eq_refl key) (grown later h),
        )
]
  where
    fresh : List Time
    fresh = kept l.window now (or_nil (l.events key))

    appended : Log
    appended k = if text_eq key k then log key ++ now ∷ [] else log k

    agreed : fresh ≡ kept l.window now (log key)
    agreed = a.same key now (omega arith)

    over :
        leb l.max (length fresh) ≡ true → ltb (length (kept l.window now (log key))) l.max ≡ false
    over full = ground (arith, agreed)

    under :
        leb l.max (length fresh) ≡ false → ltb (length (kept l.window now (log key))) l.max ≡ true
    under room = ground (arith, agreed)

    grown :
        (later : Time)
        → now ≤ later
        → kept l.window later (fresh ++ now ∷ []) ≡ kept l.window later (log key ++ now ∷ [])
    grown later h =
        kept-append l.window later fresh (now ∷ [])
        ∙ ap (λ (ts : List Time). ts ++ kept l.window later (now ∷ []))
            (kept-kept l.window now later (or_nil (l.events key)) h ∙ a.same key later h)
        ∙ sym (kept-append l.window later (log key) (now ∷ []))

record_event-limits :
    (l : Limiter) (key : Text) (now : Time)
    → ((record_event l key now).1.max ≡ l.max) × ((record_event l key now).1.window ≡ l.window)
unfolding record_event
record_event-limits l key now = ground arith

-- What a call is to do, of its verdict and the limiter that it leaves.
abbrev Conforms : ℕ → ℕ → Log → Text → Time → Bool → Limiter → Type 0
Conforms max window log key now verdict l =
    (verdict ≡ (spec_allow max window log key now).0)
    × (l.max ≡ max)
    × (l.window ≡ window)
    × Agrees l (spec_allow max window log key now).1 now

record_event-Conforms :
    (l : Limiter) (max window : ℕ) (log : Log) (key : Text) (now : Time)
    → l.max ≡ max
    → l.window ≡ window
    → Agrees l log now
    → Conforms max window log key now (record_event l key now).0 (record_event l key now).1
record_event-Conforms l max window log key now em ew a =
    let (verdict, agrees) = record_event-Agrees l log key now a in
    let (keeps_max, keeps_window) = record_event-limits l key now in
    subst₂ (λ m w. Conforms m w log key now (record_event l key now).0 (record_event l key now).1)
      em ew (verdict, keeps_max, keeps_window, agrees)

-- One call of Allow, on a limiter that agrees with the log: the verdict is the specification's,
-- and the limiter goes on agreeing with the specification's log. Neither the janitor nor the
-- pruning shows.
pub allow-Conforms :
    (l : Limiter) (max window : ℕ) (log : Log) (key : Text) (now : Time)
    → l.max ≡ max
    → l.window ≡ window
    → Agrees l log now
    → (l' : Limiter) × (verdict : Bool) × (allow (some l) key now ≡ (verdict, some l'))
      × Conforms max window log (key_or_unknown key) now verdict l'
unfolding allow
allow-Conforms l max window log key now em ew a =
    let (e_window, e_max) = sweep-window l now in
    (
      (record_event (sweep_locked l now) (key_or_unknown key) now).1,
      (record_event (sweep_locked l now) (key_or_unknown key) now).0,
      refl,
      record_event-Conforms (sweep_locked l now) max window log (key_or_unknown key) now
          (e_max ∙ em) (e_window ∙ ew) (sweep-Agrees l log now a),
    )

Agrees-later :
    {l : Limiter} {log : Log} {now later : Time}
    → now ≤ later
    → Agrees l log now
    → Agrees l log later
Agrees-later h a = record { same = λ key t k. a.same key t (omega arith) }

-- Calls of Allow, in order, and their verdicts.
abbrev pub run : Option Limiter → List (Text × Time) → List Bool
run l [] = []
run l ((key, now) ∷ calls) = (allow l key now).0 ∷ run (allow l key now).1 calls

abbrev pub spec_run : ℕ → ℕ → Log → List (Text × Time) → List Bool
spec_run max window log [] = []
spec_run max window log ((key, now) ∷ calls) =
    (spec_allow max window log (key_or_unknown key) now).0
    ∷ spec_run max window (spec_allow max window log (key_or_unknown key) now).1 calls

-- The log that the specification leaves.
abbrev pub spec_log : ℕ → ℕ → Log → List (Text × Time) → Log
spec_log max window log [] = log
spec_log max window log ((key, now) ∷ calls) =
    spec_log max window (spec_allow max window log (key_or_unknown key) now).1 calls

-- The clock does not go back.
abbrev pub IsMonotone : Time → List (Text × Time) → Type 0
IsMonotone start [] = Unit {0}
IsMonotone start ((key, now) ∷ calls) = (start ≤ now) × IsMonotone now calls

run_from :
    (l : Limiter) (max window : ℕ) (log : Log) (start : Time) (calls : List (Text × Time))
    → l.max ≡ max
    → l.window ≡ window
    → Agrees l log start
    → IsMonotone start calls
    → run (some l) calls ≡ spec_run max window log calls
run_from l max window log start [] em ew a mono = refl
run_from l max window log start ((key, now) ∷ calls) em ew a (h, mono) =
    let (l', verdict, e, (same, keeps_max, keeps_window, agrees)) =
      allow-Conforms l max window log key now em ew (Agrees-later h a) in
    rw e (
      ap₂ ◌∷◌ same (
        run_from l' max window (spec_allow max window log (key_or_unknown key) now).1 now calls
          keeps_max keeps_window agrees mono))

abbrev pub empty_log : Log
empty_log key = []

-- From a fresh limiter, and while the clock does not go back, Allow gives the verdicts of the
-- specification, call by call.
pub run-eq-spec_run :
    (limit window : ℕ) (start : Time) (calls : List (Text × Time))
    → 0 < limit
    → 0 < window
    → IsMonotone start calls
    → run (new (pos limit) (pos window)) calls ≡ spec_run limit window empty_log calls
unfolding new
run-eq-spec_run limit window start calls pl pw mono =
    rw (positive limit pl, positive window pw)
      (run_from _ limit window empty_log start calls refl refl
        (record { same = λ key later h. refl }) mono)
  where
    positive : (n : ℕ) → 0 < n → leb n 0 ≡ false
    positive n h = ground arith
