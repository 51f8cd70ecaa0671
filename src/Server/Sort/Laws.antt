-- ===== src/Server/Sort/Laws.antt =====
-- The comparisons of sort.go as orders.
use groot_share.Prelude.{
  ◌≡◌, arith, text_eq_iff, text_eq_refl, text_lt_irrefl, text_lt_asymm, true, false,
}
use groot_share.Store.Types.{Archive}
use groot_share.Server.Sort.{
  SortField, key, source, storage, size, uploaded, storage_name, archive_less, sort_less,
}

-- In every ascending sort no archive stands before itself, and of two archives at most one stands
-- before the other.
sort_less_asymm :
    (f : SortField) (a b : Archive)
    → (sort_less f true a a ≡ false) × (sort_less f true a b ≡ true → sort_less f true b a ≡ false)
unfolding sort_less archive_less
sort_less_asymm key a b = ground (arith, text_lt_irrefl a.key, text_lt_asymm a.key b.key)
sort_less_asymm source a b = ground (
  arith,
  text_lt_irrefl a.key,
  text_lt_asymm a.key b.key,
  text_lt_asymm a.source b.source,
  text_eq_refl a.source,
  text_eq_iff a.source b.source,
  text_eq_iff b.source a.source,
)
sort_less_asymm storage a b = ground (
  arith,
  text_lt_irrefl a.key,
  text_lt_asymm a.key b.key,
  text_lt_asymm (storage_name a) (storage_name b),
  text_eq_refl (storage_name a),
  text_eq_iff (storage_name a) (storage_name b),
  text_eq_iff (storage_name b) (storage_name a),
)
sort_less_asymm size a b = ground (arith, text_lt_irrefl a.key, text_lt_asymm a.key b.key)
sort_less_asymm uploaded a b = ground (arith, text_lt_irrefl a.key, text_lt_asymm a.key b.key)

-- In a descending sort every archive is said to stand before itself, whatever the field: the
-- comparison is no strict order.
pub sort_less-descending : (f : SortField) (a : Archive) → sort_less f false a a ≡ true
unfolding sort_less
sort_less-descending f a = ground (arith, (sort_less_asymm f a a).0)
