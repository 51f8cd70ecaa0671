-- ===== src/Store/Filter/Laws.antt =====
-- What filtering keeps.
use groot_share.Blob.Keys.{contains-nothing, contains}
use groot_share.Time.{is_zero}
use groot_share.Prelude.{
  keep_if-ext, ◌∙◌, codes, text_eq, ◌&&◌, ◌||◌, leb, if◌then◌else◌, ◌≡◌, refl, sym, arith, Text,
  text_eq_iff, Bool, true, List, [], ◌∷◌, keep_if, Bool-cases, inl, inr,
}
use groot_share.Store.Types.{Archive}
use groot_share.Store.Names.{trim_space, trim_left, trim_right}
use groot_share.Store.Filter.{
  is_slug, parse_cluster_slug, Filter, is_zero_filter, archive_passes, needle, apply_filter,
}

keep-all : {A : Type 0} (p : A → Bool) → ((a : A) → p a ≡ true) → (xs : List A) → keep_if p xs ≡ xs
keep-all p h [] = refl
keep-all p h (x ∷ xs) = rw (h x, keep-all p h xs) refl

zero-passes :
    (to_lower : Text → Text) (f : Filter) (a : Archive)
    → to_lower [] ≡ []
    → is_zero_filter f ≡ true
    → archive_passes to_lower a f (needle to_lower f) ≡ true
unfolding is_zero_filter archive_passes trim_space trim_left trim_right
zero-passes to_lower f a low z = ground (arith, low, text_eq_iff f.query [])

-- What the filter's fields ask for, each unless it is empty: the archive's cluster, a part of its
-- name in any case, a creation that is not earlier, its source, and its storage, which is local
-- unless the archive tells another.
abbrev pub fits_filter : (Text → Text) → Filter → Archive → Bool
fits_filter to_lower f a =
    (text_eq f.cluster [] || is_slug f.cluster (parse_cluster_slug a.key))
    && (text_eq (trim_space f.query) []
        || contains (to_lower a.key) (to_lower (trim_space f.query)))
    && (is_zero f.since || leb f.since a.created_at)
    && (text_eq f.source [] || text_eq a.source f.source)
    && (text_eq f.storage []
        || text_eq f.storage (if text_eq a.storage [] then codes "local" else a.storage))

archive_passes-fits :
    (to_lower : Text → Text) (f : Filter) (a : Archive)
    → to_lower [] ≡ []
    → archive_passes to_lower a f (needle to_lower f) ≡ fits_filter to_lower f a
unfolding archive_passes
archive_passes-fits to_lower f a low = ground (
  arith,
  low,
  text_eq_iff (trim_space f.query) [],
  text_eq_iff (to_lower (trim_space f.query)) [],
  contains-nothing (to_lower a.key),
  text_eq_iff f.storage (if text_eq a.storage [] then codes "local" else a.storage),
  text_eq_iff (if text_eq a.storage [] then codes "local" else a.storage) f.storage,
)

-- Filtering keeps, in their order, exactly the archives that have the cluster of the filter, its text
-- in their name in any case, a creation that is not before its start, its source and its storage,
-- where an archive that tells no storage is local and a field that is empty asks for nothing.
-- Lowering the empty text gives the empty text.
pub apply_filter-keep_if :
    (to_lower : Text → Text) (f : Filter) (items : List Archive)
    → to_lower [] ≡ []
    → apply_filter to_lower items f ≡ keep_if (fits_filter to_lower f) items
unfolding apply_filter
apply_filter-keep_if to_lower f items low = elim (Bool-cases (is_zero_filter f)) [
  | inl z ↦ rw z (
      sym (
        keep-all _
          (λ a. sym (archive_passes-fits to_lower f a low) ∙ zero-passes to_lower f a low z) items))
  | inr z ↦ rw z (keep_if-ext _ _ (λ a. archive_passes-fits to_lower f a low) items)
]
