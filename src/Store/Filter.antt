-- ===== src/Store/Filter.antt =====
-- internal/store/filter.go and cluster.go: narrowing a listing, and the cluster that a key names.
pub mod Laws
mod Tests
use groot_share.Prelude.{
  ℕ, suc, ◌-◌, Text, text_eq, text_lt, codes, Bool, true, false, not, ◌&&◌, ◌||◌, List, [], ◌∷◌,
  ◌++◌, ltb, ◌==◌, Option, none, some, if◌then◌else◌, keep_if, length, take, drop, any, update_if,
  sort_by,
}
use groot_share.Time.{Time, is_zero, before}
use groot_share.Store.Types.{Archive}
use groot_share.Store.Names.{trim_space}
use groot_share.Store.World.{M, pure, ◌>>=◌}
use groot_share.Store.Archives.{list_archives}
use groot_share.Blob.Keys.{Class, this, num, times, fits, has_suffix, contains}

-- Filter
pub record Filter : Type 0 where
  pub cluster : Text
  pub query : Text
  pub window : Text
  pub since : Time
  pub source : Text
  pub storage : Text

abbrev empty : Text → Bool
empty s = text_eq s []

-- Filter.IsZero
unfoldable pub is_zero_filter : Filter → Bool
is_zero_filter f =
    empty f.cluster
    && empty f.query
    && empty f.window
    && is_zero f.since
    && empty f.source
    && empty f.storage

-- strings.TrimSuffix
abbrev trim_suffix : Text → Text → Text
trim_suffix s p = if has_suffix s p then take (length s - length p) s else s

-- clusterTSRegex: a dash, eight digits, a dash, six digits.
abbrev anchor : List Class
anchor = this b'-' ∷ times 8 num ++ this b'-' ∷ times 6 num

-- The text behind the first match of the pattern.
unfoldable pub behind_anchor : Text → Option Text
behind_anchor [] = none
behind_anchor (c ∷ s) =
    let later = behind_anchor s in
    if fits anchor (take (length anchor) (c ∷ s))
    then some (drop (length anchor) (c ∷ s))
    else later

-- strings.TrimPrefix(s, "-")
abbrev trim_dash : Text → Text
trim_dash [] = []
trim_dash (c ∷ s) = if c == b'-' then s else c ∷ s

abbrev slug_of : Option Text → Option Text
slug_of none = none
slug_of (some s) = let slug = trim_dash s in if text_eq slug [] then none else some slug

-- ParseClusterSlug; its second result is whether there is a slug.
unfoldable pub parse_cluster_slug : Text → Option Text
unfolding behind_anchor
parse_cluster_slug key =
    slug_of (behind_anchor (trim_suffix (trim_suffix key (codes ".tar.gz")) (codes ".tgz")))

abbrev pub is_slug : Text → Option Text → Bool
is_slug cluster none = false
is_slug cluster (some slug) = text_eq slug cluster

abbrev storage_of : Archive → Text
storage_of a = if empty a.storage then codes "local" else a.storage

-- strings.ToLower
module _ (to_lower : Text → Text) where
  -- archivePasses
  unfoldable pub archive_passes : Archive → Filter → Text → Bool
  archive_passes a f q =
      if not (empty f.source) && not (text_eq a.source f.source)
      then false
      else if not (empty f.storage) && not (text_eq (storage_of a) f.storage)
      then false
      else if not (is_zero f.since) && before a.created_at f.since
      then false
      else if not (empty q) && not (contains (to_lower a.key) q)
      then false
      else if not (empty f.cluster) && not (is_slug f.cluster (parse_cluster_slug a.key))
      then false
      else true

  abbrev pub needle : Filter → Text
  needle f = to_lower (trim_space f.query)

  -- applyFilter and FilterInMemory
  unfoldable pub apply_filter : List Archive → Filter → List Archive
  apply_filter items f =
      if is_zero_filter f then items else keep_if (λ a. archive_passes a f (needle f)) items

  -- ListArchivesFiltered
  unfoldable pub list_archives_filtered : Filter → M (List Archive)
  list_archives_filtered f = do items ← list_archives; pure (apply_filter items f)

-- ClusterCount
pub record ClusterCount : Type 0 where
  pub slug : Text
  pub count : ℕ

abbrev of_slug : Text → ClusterCount → Bool
of_slug s c = text_eq c.slug s

-- `counts[slug]++`, on the entries of the map.
unfoldable pub count_slug : Option Text → List ClusterCount → List ClusterCount
count_slug none counts = counts
count_slug (some s) counts =
    if any (of_slug s) counts
    then update_if (of_slug s) (λ c. record c { count = suc c.count }) counts
    else record { slug = s; count = 1 } ∷ counts

unfoldable pub counted : List Archive → List ClusterCount
unfolding count_slug parse_cluster_slug
counted [] = []
counted (a ∷ items) = count_slug (parse_cluster_slug a.key) (counted items)

-- The order of sortClusterCounts, which is an insertion sort over distinct slugs.
abbrev pub cluster_before : ClusterCount → ClusterCount → Bool
cluster_before c d = ltb d.count c.count || (c.count == d.count && text_lt c.slug d.slug)

-- ClusterCounts
unfoldable pub cluster_counts : List Archive → List ClusterCount
unfolding counted sort_by
cluster_counts items = sort_by cluster_before (counted items)
