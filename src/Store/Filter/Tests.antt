-- ===== src/Store/Filter/Tests.antt =====
-- The examples of cluster.go.
use groot_share.Prelude.{◌≡◌, refl, codes, some, none, keep_if, List, [], ◌∷◌, text_eq}
use groot_share.Store.Types.{Archive}
use groot_share.Store.Archives.{scan_archive}
use groot_share.Store.Sample.{archive_row, old_id}
use groot_share.Blob.Keys.{has_suffix, fits}
use groot_share.Store.Filter.{Filter, parse_cluster_slug, apply_filter}
use groot_share.Store.Filter.Laws.{fits_filter, apply_filter-keep_if}

plain_slug :
    parse_cluster_slug (codes "groot-capture-7kqv2xy-since-12h-20260102-150405-prod.tar.gz")
    ≡ some (codes "prod")
unfolding parse_cluster_slug text_eq has_suffix fits
plain_slug = refl

no_slug : parse_cluster_slug (codes "nope.tar.gz") ≡ none
unfolding parse_cluster_slug text_eq has_suffix fits
no_slug = refl

abbrev by_http : Filter
by_http = record {
  cluster = [];
  query = codes " A ";
  window = [];
  since = 0;
  source = codes "http";
  storage = codes "local";
}

abbrev items : List Archive
items = scan_archive (archive_row old_id (codes "abc")) ∷ []

apply_filter-keep_if_example :
    apply_filter (λ t. t) items by_http ≡ keep_if (fits_filter (λ t. t) by_http) items
apply_filter-keep_if_example = apply_filter-keep_if (λ t. t) by_http items refl
