-- ===== src/Server/Watch/Entries.antt =====
-- The entries of a listing and their paths.
use groot_share.Prelude.{
  arith, any, if◌then◌else◌, ◌≡◌, refl, text_eq, Bool, true, false, List, [], ◌∷◌, All,
}
use groot_share.Server.Watch.{distinct, Entry}

-- No two entries have the same path.
abbrev pub Distinct : List Entry → Type 0
Distinct [] = Unit {0}
Distinct (e ∷ entries) =
    All (λ (x : Entry). text_eq e.path x.path ≡ false) entries × Distinct entries

any-distinct :
    (p : Entry → Bool) (entries : List Entry)
    → any p entries ≡ false
    → All (λ (x : Entry). p x ≡ false) (distinct entries)
unfolding distinct
any-distinct p [] h = tt
any-distinct p (e ∷ entries) h =
    go (any (λ (x : Entry). text_eq e.path x.path) entries)
      (any-distinct p entries (ground (arith, h)))
  where
    go :
        (again : Bool)
        → All (λ (x : Entry). p x ≡ false) (distinct entries)
        → All
            (λ (x : Entry). p x ≡ false)
            (if again then distinct entries else e ∷ distinct entries)
    go true hs = hs
    go false hs = (ground (arith, h), hs)

pub distinct-Distinct : (entries : List Entry) → Distinct (distinct entries)
unfolding distinct
distinct-Distinct [] = tt
distinct-Distinct (e ∷ entries) =
    go (any (λ (x : Entry). text_eq e.path x.path) entries) refl (distinct-Distinct entries)
  where
    go :
        (again : Bool)
        → any (λ (x : Entry). text_eq e.path x.path) entries ≡ again
        → Distinct (distinct entries)
        → Distinct (if again then distinct entries else e ∷ distinct entries)
    go true h rest = rest
    go false h rest = (any-distinct (λ (x : Entry). text_eq e.path x.path) entries h, rest)
