-- ===== src/Server/Filter.antt =====
-- internal/server/filter.go: the filter of the captures page, of the parameters of the query.
use groot_share.Prelude.{◌-◌, ◌*◌, Text, codes, text_eq, [], any, List, ◌∷◌, if◌then◌else◌}
use groot_share.Time.{Time, zero_time, day}
use groot_share.Store.Names.{trim_space}
use groot_share.Store.Filter.{Filter}

-- windowSince; times lie later than the first month of year 1.
unfoldable pub window_since : Text → Time → Time
window_since window now =
    if text_eq window (codes "24h")
    then now - day
    else if text_eq window (codes "7d")
    then now - 7 * day
    else if text_eq window (codes "30d")
    then now - 30 * day
    else zero_time

-- The parameters by their names; a missing one is empty.
pub record FilterQuery : Type 0 where
  pub cluster : Text
  pub q : Text
  pub window : Text
  pub source : Text
  pub storage : Text

-- A value that is not allowed is dropped; the empty text is always allowed.
abbrev pub allowed_or_empty : List Text → Text → Text
allowed_or_empty allowed s = if any (text_eq s) allowed then s else []

-- allowedWindows
abbrev pub allowed_windows : List Text
allowed_windows = codes "24h" ∷ codes "7d" ∷ codes "30d" ∷ []

-- allowedSources
abbrev pub allowed_sources : List Text
allowed_sources = codes "http" ∷ codes "s3" ∷ codes "sftp" ∷ []

-- allowedStorages
abbrev pub allowed_storages : List Text
allowed_storages = codes "local" ∷ codes "s3" ∷ codes "transit" ∷ []

-- ParseFilter
unfoldable pub parse_filter : FilterQuery → Time → Filter
unfolding window_since
parse_filter p now =
    let window = allowed_or_empty allowed_windows (trim_space p.window) in
    record {
      cluster = trim_space p.cluster;
      query = trim_space p.q;
      window = window;
      since = window_since window now;
      source = allowed_or_empty allowed_sources (trim_space p.source);
      storage = allowed_or_empty allowed_storages (trim_space p.storage);
    }
