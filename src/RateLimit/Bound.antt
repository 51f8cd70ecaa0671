-- ===== src/RateLimit/Bound.antt =====
-- The accepted calls of a window.
use groot_share.Prelude.{
  ◌<◌, ◌≡◌, refl, ◌&&◌, Bool, true, false, text_eq, text_eq_iff, ltb, if◌then◌else◌, pos, ℕ, ◌+◌,
  ◌≤◌, Text, List, [], ◌∷◌, ◌++◌, length, arith,
}
use groot_share.Time.{Time}
use groot_share.RateLimit.{kept, key_or_unknown, new}
use groot_share.RateLimit.Laws.{
  Log, spec_allow, spec_log, empty_log, IsMonotone, run, spec_run, run-eq-spec_run,
}

-- No window that ends at `start` or later holds more than `max` accepted events of a key.
abbrev Bounded : ℕ → ℕ → Log → Time → Type 0
Bounded max window log start =
    (key : Text) (now : Time) → start ≤ now → length (kept window now (log key)) ≤ max

length-kept_later :
    (w : ℕ) (now later : Time) (ts : List Time)
    → now ≤ later
    → length (kept w later ts) ≤ length (kept w now ts)
length-kept_later w now later [] h = omega arith
length-kept_later w now later (t ∷ ts) h = ground (arith, length-kept_later w now later ts)

length-kept_snoc :
    (w : ℕ) (now t : Time) (ts : List Time)
    → length (kept w now (ts ++ t ∷ [])) ≤ length (kept w now ts) + 1
length-kept_snoc w now t [] = ground arith
length-kept_snoc w now t (u ∷ ts) = ground (arith, length-kept_snoc w now t ts)

spec_allow-Bounded :
    (max window : ℕ) (log : Log) (key : Text) (start now : Time)
    → start ≤ now
    → Bounded max window log start
    → Bounded max window (spec_allow max window log key now).1 now
spec_allow-Bounded max window log key start now h b k later hl = ground (
  arith,
  b k later,
  b key later,
  length-kept_later window now later (log key),
  length-kept_snoc window later now (log key),
)

spec_log_from :
    (max window : ℕ) (log : Log) (start last : Time) (calls : List (Text × Time)) (key : Text)
    → IsMonotone start (calls ++ (key, last) ∷ [])
    → Bounded max window log start
    → length (kept window last (spec_log max window log calls key)) ≤ max
spec_log_from max window log start last [] key (h, _) b = b key last h
spec_log_from max window log start last ((k, now) ∷ calls) key (h, mono) b =
    spec_log_from max window (spec_allow max window log (key_or_unknown k) now).1 now last calls key
      mono (spec_allow-Bounded max window log (key_or_unknown k) start now h b)

spec_log_bounded :
    (limit window : ℕ) (start last : Time) (calls : List (Text × Time)) (key : Text)
    → IsMonotone start (calls ++ (key, last) ∷ [])
    → length (kept window last (spec_log limit window empty_log calls key)) ≤ limit
spec_log_bounded limit window start last calls key mono =
    spec_log_from limit window empty_log start last calls key mono (λ k now h. omega arith)

-- The calls of a key that were accepted, by their verdicts, and that lie less than a window before
-- `last`.
abbrev pub accepted : ℕ → Time → Text → List (Text × Time) → List Bool → ℕ
accepted window last key ((k, t) ∷ calls) (true ∷ verdicts) =
    (if text_eq (key_or_unknown k) key && ltb last (t + window) then 1 else 0)
    + accepted window last key calls verdicts
accepted window last key (call ∷ calls) (false ∷ verdicts) = accepted window last key calls verdicts
accepted window last key _ _ = 0

length-kept_one :
    (w : ℕ) (now t : Time) (ts : List Time)
    → length (kept w now (ts ++ t ∷ []))
      ≡ length (kept w now ts) + (if ltb now (t + w) then 1 else 0)
length-kept_one w now t [] = ground arith
length-kept_one w now t (u ∷ ts) = ground (arith, length-kept_one w now t ts)

abbrev counts : ℕ → Time → Text → Text → Time → Bool → ℕ
counts window last key k t verdict =
    if verdict
    then (if text_eq (key_or_unknown k) key && ltb last (t + window) then 1 else 0)
    else 0

accepted-call :
    (window : ℕ) (last : Time) (key k : Text) (t : Time) (calls : List (Text × Time))
    (verdict : Bool) (verdicts : List Bool)
    → accepted window last key ((k, t) ∷ calls) (verdict ∷ verdicts)
      ≡ counts window last key k t verdict + accepted window last key calls verdicts
accepted-call window last key k t calls true verdicts = refl
accepted-call window last key k t calls false verdicts = omega arith

-- What a call adds to the log of a key.
spec_allow-counts :
    (max window : ℕ) (last : Time) (key k : Text) (t : Time) (log : Log)
    → counts window last key k t (spec_allow max window log (key_or_unknown k) t).0
        + length (kept window last (log key))
      ≡ length (kept window last ((spec_allow max window log (key_or_unknown k) t).1 key))
spec_allow-counts max window last key k t log = ground (
  arith,
  length-kept_one window last t (log (key_or_unknown k)),
  text_eq_iff (key_or_unknown k) key,
)

-- The log has the accepted calls.
accepted-log :
    (max window : ℕ) (last : Time) (key : Text) (calls : List (Text × Time)) (log : Log)
    → accepted window last key calls (spec_run max window log calls)
        + length (kept window last (log key))
      ≡ length (kept window last (spec_log max window log calls key))
accepted-log max window last key [] log = omega arith
accepted-log max window last key ((k, t) ∷ calls) log =
    let (verdict, log') = spec_allow max window log (key_or_unknown k) t in
    omega (
      arith,
      accepted-log max window last key calls log',
      accepted-call window last key k t calls verdict (spec_run max window log' calls),
      spec_allow-counts max window last key k t log,
    )

IsMonotone-calls :
    (start : Time) (calls : List (Text × Time)) (call : Text × Time)
    → IsMonotone start (calls ++ call ∷ [])
    → IsMonotone start calls
IsMonotone-calls start [] call m = tt
IsMonotone-calls start ((k, t) ∷ calls) call (h, m) = (h, IsMonotone-calls t calls call m)

-- From a fresh limiter, and while the clock does not go back, Allow accepts at most `limit` calls of
-- a key within any window that ends at the last call or later. The empty key counts as `unknown`.
pub run-bounded :
    (limit window : ℕ) (start last : Time) (calls : List (Text × Time)) (key : Text)
    → 0 < limit
    → 0 < window
    → IsMonotone start (calls ++ (key, last) ∷ [])
    → accepted window last key calls (run (new (pos limit) (pos window)) calls) ≤ limit
run-bounded limit window start last calls key pl pw mono =
    rw
      (run-eq-spec_run limit window start calls pl pw
        (IsMonotone-calls start calls (key, last) mono))
      (omega (
        arith,
        accepted-log limit window last key calls empty_log,
        spec_log_bounded limit window start last calls key mono,
      ))
