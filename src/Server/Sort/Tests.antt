-- ===== src/Server/Sort/Tests.antt =====
-- Two archives of the sample store.
use groot_share.Prelude.{◌≡◌, codes, true, false}
use groot_share.Store.Types.{Archive}
use groot_share.Store.Archives.{scan_archive}
use groot_share.Store.Sample.{archive_row, old_id, pinned_id}
use groot_share.Server.Sort.{uploaded, sort_less}
use groot_share.Server.Sort.Laws.{sort_less-descending}

abbrev first : Archive
first = scan_archive (archive_row old_id (codes "abc"))

abbrev later : Archive
later = record (scan_archive (archive_row pinned_id (codes "xyz"))) { size = 5 }

sort_less-descending_example : sort_less uploaded false first first ≡ true
sort_less-descending_example = sort_less-descending uploaded first
