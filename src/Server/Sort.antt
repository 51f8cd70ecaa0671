-- ===== src/Server/Sort.antt =====
-- internal/server/sort.go: the order of listings. A sort field is the text that parseSort returns.
pub mod Laws
mod Tests
use groot_share.Prelude.{
  ℕ, Text, codes, text_eq, text_lt, Bool, true, false, not, ltb, ◌==◌, [], if◌then◌else◌,
}
use groot_share.Time.{before}
use groot_share.Store.Types.{Archive}

pub data SortField : Type 0 where
  key source storage size uploaded : SortField

-- The first switch of parseSort.
unfoldable pub sort_field : Text → SortField
sort_field t =
    if text_eq t (codes "key")
    then key
    else if text_eq t (codes "name")
    then key
    else if text_eq t (codes "source")
    then source
    else if text_eq t (codes "storage")
    then storage
    else if text_eq t (codes "size")
    then size
    else uploaded

-- firstSortAsc
abbrev pub first_sort_asc : SortField → Bool
first_sort_asc size = false
first_sort_asc uploaded = false
first_sort_asc _ = true

-- The direction that parseSort reads.
unfoldable pub sort_asc : Text → SortField → Bool
sort_asc order f =
    if text_eq order (codes "asc")
    then true
    else if text_eq order (codes "desc")
    then false
    else first_sort_asc f

abbrev pub storage_name : Archive → Text
storage_name a = if text_eq a.storage [] then codes "local" else a.storage

-- archiveLess
unfoldable pub archive_less : Archive → Archive → SortField → Bool
archive_less a b key = text_lt a.key b.key
archive_less a b source =
    if not (text_eq a.source b.source) then text_lt a.source b.source else text_lt a.key b.key
archive_less a b storage =
    if not (text_eq (storage_name a) (storage_name b))
    then text_lt (storage_name a) (storage_name b)
    else text_lt a.key b.key
archive_less a b size = if not (a.size == b.size) then ltb a.size b.size else text_lt a.key b.key
archive_less a b uploaded =
    if not (a.created_at == b.created_at)
    then before a.created_at b.created_at
    else text_lt a.key b.key

-- The comparison that sortArchives passes to sort.SliceStable.
unfoldable pub sort_less : SortField → Bool → Archive → Archive → Bool
sort_less f asc a b = let less = archive_less a b f in if asc then less else not less
