-- ===== src/Retain/Laws.antt =====
-- Retention and the limits.
use groot_share.Prelude.{
  ℕ, suc, ◌+◌, ◌≤◌, ◌<◌, ◌≡◌, refl, ap, ◌⊎◌, inl, inr, text_eq_iff, text_eq_refl, Bool, true, false,
  not, ◌||◌, List, [], ◌∷◌, ◌++◌, any, ℤ, pos, or_default, All, All-append, Bool-cases, length,
  arith, keep_if,
}
use Prim.Native.Nat.{max}
use mathlib.Core.Path.{subst}
use native.Mathlib.Decide.{dec_le}
use groot_share.Time.{Time}
use groot_share.Store.Types.{Archive}
use groot_share.Retain.{no_id, same_id, add, round, pick_from, cutoff_of, pick}

-- The documented rule, of the archive at rank `i`: a limit is on and the archive breaks it.
abbrev pub Violates : ℕ → ℕ → Time → ℕ → Archive → Type 0
Violates keep days now i a =
    ((0 < keep) × (keep ≤ i))
    ⊎ ((0 < days) × (0 < a.created_at) × (a.created_at < cutoff_of now days))

-- `a` stands in the list at a rank, counted from `i`, at which it breaks a limit.
abbrev pub ViolatesIn : ℕ → ℕ → Time → ℕ → List Archive → Archive → Type 0
ViolatesIn keep days now i [] a = ⊥
ViolatesIn keep days now i (x ∷ xs) a =
    ((x ≡ a) × Violates keep days now i a) ⊎ ViolatesIn keep days now (suc i) xs a

-- No two archives of the list have one id, and none has the empty id.
abbrev pub HasDistinctIds : List Archive → Type 0
HasDistinctIds [] = Unit {0}
HasDistinctIds (a ∷ l) = (no_id a ≡ false) × (any (same_id a) l ≡ false) × HasDistinctIds l

any-snoc :
    (p : Archive → Bool) (xs : List Archive) (a : Archive)
    → any p (xs ++ a ∷ []) ≡ (any p xs || p a)
any-snoc p [] a = ground arith
any-snoc p (x ∷ xs) a = ground (arith, any-snoc p xs a)

same_id_symm : (a b : Archive) → same_id a b ≡ false → same_id b a ≡ false
same_id_symm a b h = ground (arith, text_eq_iff a.id b.id, text_eq_iff b.id a.id)

HasDistinctIds-snoc :
    (out : List Archive) (a : Archive)
    → HasDistinctIds out
    → no_id a ≡ false
    → any (same_id a) out ≡ false
    → HasDistinctIds (out ++ a ∷ [])
HasDistinctIds-snoc [] a d named fresh = (named, refl, tt)
HasDistinctIds-snoc (x ∷ out) a d named fresh = (
  d.0,
  ground (arith, any-snoc (same_id x) out a, same_id_symm a x),
  HasDistinctIds-snoc out a d.2 named (ground arith),
)

module _ (keep days : ℕ) (now : Time) where
  abbrev go : ℕ → List Archive → List Archive → List Archive
  go = pick_from keep days (cutoff_of now days)

  abbrev after_round : ℕ → Archive → List Archive → List Archive
  after_round = round keep days (cutoff_of now days)

  -- What a round does to the list: nothing, or it appends the archive, which breaks a limit.
  round_cases :
      (i : ℕ) (a : Archive) (out : List Archive)
      → (after_round i a out ≡ out)
        ⊎ ((after_round i a out ≡ out ++ a ∷ [])
            × Violates keep days now i a
            × (no_id a ≡ false)
            × (any (same_id a) out ≡ false))
  unfolding round add
  round_cases i a out = ground (arith, any-snoc (same_id a) out a, text_eq_refl a.id)

  -- An archive that breaks a limit is in the list after its round.
  round_adds :
      (i : ℕ) (a : Archive) (out : List Archive)
      → Violates keep days now i a
      → no_id a ≡ false
      → any (same_id a) (after_round i a out) ≡ true
  unfolding round add
  round_adds i a out v named = ground (arith, any-snoc (same_id a) out a, text_eq_refl a.id)

  round_keeps :
      (p : Archive → Bool) (i : ℕ) (a : Archive) (out : List Archive)
      → any p out ≡ true
      → any p (after_round i a out) ≡ true
  round_keeps p i a out h = ground (arith, round_cases i a out, any-snoc p out a)

  go_keeps :
      (p : Archive → Bool) (i : ℕ) (items out : List Archive)
      → any p out ≡ true
      → any p (go i items out) ≡ true
  unfolding pick_from
  go_keeps p i [] out h = h
  go_keeps p i (a ∷ items) out h = go_keeps p (suc i) items _ (round_keeps p i a out h)

  go_sound :
      (Q : Archive → Type 0) (i : ℕ) (items out : List Archive)
      → ((a : Archive) → ViolatesIn keep days now i items a → Q a)
      → All Q out
      → All Q (go i items out)
  unfolding pick_from
  go_sound Q i [] out q h = h
  go_sound Q i (a ∷ items) out q h =
      go_sound Q (suc i) items _ (λ b v. q b (inr v))
        (elim (round_cases i a out) [
          | inl e ↦ rw e h
          | inr (e, v, _, _) ↦ rw e (All-append Q out (a ∷ []) h (q a (inl (refl, v)), tt))
        ])

  go_complete :
      (i : ℕ) (items out : List Archive) (a : Archive)
      → ViolatesIn keep days now i items a
      → no_id a ≡ false
      → any (same_id a) (go i items out) ≡ true
  unfolding pick_from
  go_complete i [] out a v named = absurd v
  go_complete i (x ∷ items) out a (inl (e, v)) named =
      go_keeps (same_id a) (suc i) items _ (ground (arith, round_adds i a out v named))
  go_complete i (x ∷ items) out a (inr v) named = go_complete (suc i) items _ a v named

  go_distinct :
      (i : ℕ) (items out : List Archive) → HasDistinctIds out → HasDistinctIds (go i items out)
  unfolding pick_from
  go_distinct i [] out d = d
  go_distinct i (a ∷ items) out d = go_distinct (suc i) items _ (elim (round_cases i a out) [
    | inl e ↦ rw e d
    | inr (e, _, named, fresh) ↦ rw e (HasDistinctIds-snoc out a d named fresh)
  ])

  -- A test that fails on all that breaks a limit passes at most `keep - i` archives.
  survivors-le :
      (p : Archive → Bool) (i : ℕ) (items : List Archive)
      → 0 < keep
      → ((a : Archive) → ViolatesIn keep days now i items a → p a ≡ false)
      → length (keep_if p items) + i ≤ max keep i
  survivors-le p i [] on h = omega arith
  survivors-le p i (a ∷ items) on h =
      let rest = survivors-le p (suc i) items on (λ b v. h b (inr v)) in
      elim (dec_le keep i) [
        | yes over ↦ rw (h a (inl (refl, inl (on, over)))) (omega arith)
        | no under ↦ ground (arith, Bool-cases (p a))
      ]

ViolatesIn-All :
    (Q : Archive → Type 0) (keep days : ℕ) (now : Time) (i : ℕ) (items : List Archive) (a : Archive)
    → All Q items
    → ViolatesIn keep days now i items a
    → Q a
ViolatesIn-All Q keep days now i [] a q v = absurd v
ViolatesIn-All Q keep days now i (x ∷ items) a q (inl (e, v)) = subst Q e q.0
ViolatesIn-All Q keep days now i (x ∷ items) a q (inr v) =
    ViolatesIn-All Q keep days now (suc i) items a q.1 v

-- Every archive that `pick` returns breaks the count limit or the age limit at the rank where it
-- stands in the list; the limits are those given, or 20 and 90 where they are negative.
pub pick_sound :
    (items : List Archive) (keep_last max_age_days : ℤ) (now : Time)
    → All
        (ViolatesIn (or_default 20 keep_last) (or_default 90 max_age_days) now 0 items)
        (pick items keep_last max_age_days now)
unfolding pick
pick_sound items keep_last max_age_days now =
    go_sound (or_default 20 keep_last) (or_default 90 max_age_days) now _ 0 items [] (λ a v. v) tt

-- Every archive that breaks a limit and has an id is returned, under its id; no id is returned
-- twice, and none is empty.
pub pick_complete :
    (items : List Archive) (keep_last max_age_days : ℤ) (now : Time)
    → HasDistinctIds (pick items keep_last max_age_days now)
      × ((a : Archive)
          → ViolatesIn (or_default 20 keep_last) (or_default 90 max_age_days) now 0 items a
          → no_id a ≡ false
          → any (same_id a) (pick items keep_last max_age_days now) ≡ true)
unfolding pick
pick_complete items keep_last max_age_days now = (
  go_distinct (or_default 20 keep_last) (or_default 90 max_age_days) now 0 items [] tt,
  λ a v named.
      go_complete (or_default 20 keep_last) (or_default 90 max_age_days) now 0 items [] a v named,
)

-- With a positive count limit, and ids that are not empty, at most that many archives of the list
-- are left when those that `pick` returns are deleted by their ids.
pub length-survivors-le :
    (items : List Archive) (keep : ℕ) (max_age_days : ℤ) (now : Time)
    → 0 < keep
    → All (λ a. no_id a ≡ false) items
    → length (keep_if (λ a. not (any (same_id a) (pick items (pos keep) max_age_days now))) items)
      ≤ keep
length-survivors-le items keep max_age_days now on named =
    omega (arith, survivors-le keep (or_default 90 max_age_days) now left 0 items on dropped)
  where
    left : Archive → Bool
    left a = not (any (same_id a) (pick items (pos keep) max_age_days now))

    dropped :
        (a : Archive) → ViolatesIn keep (or_default 90 max_age_days) now 0 items a → left a ≡ false
    dropped a v = ap not (
        (pick_complete items (pos keep) max_age_days now).1 a v
          (ViolatesIn-All _ keep (or_default 90 max_age_days) now 0 items a named v))
