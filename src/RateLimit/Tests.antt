-- ===== src/RateLimit/Tests.antt =====
-- A limiter of two events in 60 seconds, and the theorems on its calls.
use groot_share.Prelude.{
  ℕ, ◌*◌, ◌≤◌, ◌≡◌, refl, Text, codes, text_eq, true, false, List, [], ◌∷◌, pos, arith, some, none,
  if◌then◌else◌,
}
use groot_share.Time.{Time, second}
use groot_share.RateLimit.{Limiter, new, allow, kept}
use groot_share.RateLimit.Laws.{run, spec_run, empty_log, run-eq-spec_run}
use groot_share.RateLimit.Recovery.{Since, allow-recovers}
use groot_share.RateLimit.Bound.{accepted, run-bounded}

abbrev minute : ℕ
minute = 60 * second

abbrev logins : List (Text × Time)
logins =
    (codes "ip:a", 100 * second)
    ∷ (codes "ip:a", 110 * second)
    ∷ (codes "ip:a", 120 * second)
    ∷ (codes "ip:b", 120 * second)
    ∷ (codes "ip:a", 161 * second)
    ∷ []

third_refused : run (new (pos 2) (pos minute)) logins ≡ true ∷ true ∷ false ∷ true ∷ true ∷ []
unfolding new allow text_eq
third_refused = refl

run-eq-spec_run_example : run (new (pos 2) (pos minute)) logins ≡ spec_run 2 minute empty_log logins
run-eq-spec_run_example =
    run-eq-spec_run 2 minute 0 logins (omega arith) (omega arith) (omega arith)

run-bounded_example :
    accepted minute (170 * second) (codes "ip:a") logins (run (new (pos 2) (pos minute)) logins) ≤ 2
run-bounded_example =
    run-bounded 2 minute 0 (170 * second) logins (codes "ip:a") (omega arith) (omega arith)
      (omega arith)

-- A key that has used up its window.
abbrev used_up : Limiter
used_up = record {
  events = λ key. if text_eq key (codes "ip") then some (10 ∷ []) else none;
  max = 1;
  window = 5;
  last_sweep = 0;
}

allow-recovers_example :
    ((now : Time)
      → (allow (some used_up) (codes "ip") now).0 ≡ false
      → (l' : Limiter) × ((allow (some used_up) (codes "ip") now).1 ≡ some l')
        × (l'.max ≡ 1)
        × (l'.window ≡ 5)
        × Since 10 (codes "ip") l')
    × ((now : Time) → 15 ≤ now → (allow (some used_up) (codes "ip") now).0 ≡ true)
unfolding text_eq groot_share.RateLimit.key_or_unknown
allow-recovers_example = allow-recovers used_up 10 (codes "ip") (omega arith) (omega arith, tt)
