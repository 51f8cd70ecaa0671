-- ===== src/Retain/Tests.antt =====
-- The rule at the values of internal/retain/retain_test.go, and the theorems at such a list.
use groot_share.Prelude.{
  ℕ, ◌-◌, ◌*◌, ◌≤◌, ◌≡◌, refl, Text, codes, text_eq, true, false, not, List, [], ◌∷◌, map, any,
  keep_if, length, pos, negsuc, All, arith,
}
use groot_share.Time.{day}
use groot_share.Store.Types.{Archive}
use groot_share.Retain.{no_id, same_id, pick}
use groot_share.Retain.Laws.{
  HasDistinctIds, ViolatesIn, pick_sound, pick_complete, length-survivors-le,
}

abbrev aged : Text → ℕ → Archive
aged id days = record {
  id = id;
  key = codes "a.tar.gz";
  size = 1;
  sha256 = [];
  source = codes "http";
  storage = codes "local";
  uploaded_by = 0;
  created_at = 740_000 * day - days * day;
}

abbrev shelf : List Archive
shelf = aged (codes "a") 1 ∷ aged (codes "b") 2 ∷ aged (codes "c") 40 ∷ aged (codes "d") 50 ∷ []

picks_union :
    map (λ a. a.id) (pick shelf (pos 3) (pos 30) (740_000 * day)) ≡ codes "c" ∷ codes "d" ∷ []
unfolding pick text_eq
picks_union = refl

picks_none : pick shelf (pos 0) (pos 0) (740_000 * day) ≡ []
unfolding pick text_eq
picks_none = refl

pick_sound_example :
    All (ViolatesIn 3 90 (740_000 * day) 0 shelf) (pick shelf (pos 3) (negsuc 0) (740_000 * day))
pick_sound_example = pick_sound shelf (pos 3) (negsuc 0) (740_000 * day)

length-survivors-le_example :
    length
      (keep_if (λ a. not (any (same_id a) (pick shelf (pos 3) (pos 30) (740_000 * day)))) shelf)
    ≤ 3
unfolding text_eq
length-survivors-le_example =
    length-survivors-le shelf 3 (pos 30) (740_000 * day) (omega arith)
      (refl, (refl, (refl, (refl, tt))))

pick_complete_example :
    HasDistinctIds (pick shelf (pos 3) (pos 30) (740_000 * day))
    × ((a : Archive)
        → ViolatesIn 3 30 (740_000 * day) 0 shelf a
        → no_id a ≡ false
        → any (same_id a) (pick shelf (pos 3) (pos 30) (740_000 * day)) ≡ true)
pick_complete_example = pick_complete shelf (pos 3) (pos 30) (740_000 * day)
