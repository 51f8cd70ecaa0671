-- ===== src/Server/Watch.antt =====
-- internal/server/watch.go: the watcher of the drop directory, one poll at a time. The ids that
-- NewArchiveID returns for a file are `ids` of its path.
pub mod Entries
pub mod Idle
pub mod Waits
mod Tests
use groot_share.Prelude.{
  ℕ, ◌+◌, ◌==◌, Text, codes, text_eq, text_lt, Bool, true, false, not, ◌&&◌, ◌||◌, List, [], ◌∷◌,
  ◌++◌, ltb, Option, none, some, if◌then◌else◌, any, map, keep_if, find, sort_by, length, drop, ℤ,
  pos, negsuc,
}
use groot_share.Time.{Time, zero_time}
use groot_share.Blob.Keys.{has_prefix, has_suffix, contains}
use groot_share.Store.Types.{Archive}
use groot_share.Store.World.{
  World, M, Result, ok, err, Error, duplicate, no_file, failed, File, pure, raise, attempt, choose,
  system, fails, step, at_path, open_file, remove_file, ◌>>=◌, ◌>>◌,
}
use groot_share.Store.Archives.{is_no_file}
use groot_share.Store.Archives.Key.{base, sanitize_key}
use groot_share.Store.Audit.{Audit, insert_audit}
use groot_share.Server.Settings.{Settings}
use groot_share.Server.Catalog.{ingest_with_source}

-- The sizes of the last poll, by path.
abbrev pub Seen : Type 0
Seen = Text → Option ℕ

abbrev pub assign : Seen → Text → ℕ → Seen
assign seen path size p = if text_eq path p then some size else seen p

-- `delete(seen, path)`
abbrev pub forget : Seen → Text → Seen
forget seen path p = if text_eq path p then none else seen p

-- An entry of the directory, with its path.
pub record Entry : Type 0 where
  pub name : Text
  pub path : Text
  pub is_dir : Bool

-- The part of a name before the first slash.
abbrev until_slash : Text → Text
until_slash [] = []
until_slash (c ∷ s) = if c == b'/' then [] else c ∷ until_slash s

-- The entry that a file below the directory shows as. `inbox` is a clean path, to which
-- filepath.Join appends a slash and the name.
abbrev entry_of : Text → File → Entry
entry_of inbox f =
    let rest = drop (length inbox + 1) f.path in
    record {
      name = until_slash rest;
      path = inbox ++ codes "/" ++ until_slash rest;
      is_dir = contains rest (codes "/");
    }

-- Each path once.
unfoldable pub distinct : List Entry → List Entry
distinct [] = []
distinct (e ∷ entries) =
    let rest = distinct entries in
    if any (λ x. text_eq e.path x.path) entries then rest else e ∷ rest

-- In the order of the names. A directory without files does not show; the loop would skip it.
abbrev pub entries_of : Text → List File → List Entry
entries_of inbox files = distinct (
    sort_by (λ a b. text_lt a.name b.name)
      (map (entry_of inbox) (keep_if (λ f. has_prefix f.path (inbox ++ codes "/")) files)))

abbrev pub listed : Bool → Text → World → Result (List Entry)
listed present inbox w = if present then ok (entries_of inbox w.disk) else err no_file

-- os.ReadDir, of a directory that is `present` or not.
unfoldable pub read_dir : Bool → Text → M (List Entry)
read_dir present inbox w = system (fails w) (step w) (listed present inbox w, step w)

abbrev pub size_of : Option File → Result ℕ
size_of none = err no_file
size_of (some f) = ok (length f.body)

-- os.Stat
unfoldable pub file_size : Text → M ℕ
file_size path w = system (fails w) (step w) (size_of (find (at_path path) w.disk), step w)

-- The opposite of `!ok || prev != size || size <= 0`.
abbrev pub stable : Option ℕ → ℕ → Bool
stable none size = false
stable (some prev) size = prev == size && ltb 0 size

-- `max > 0 && size > max`
abbrev pub too_large : ℤ → ℕ → Bool
too_large (pos limit) size = ltb 0 limit && ltb limit size
too_large (negsuc n) size = false

abbrev upload_audit : Archive → Audit
upload_audit a = record {
  actor = codes "sftp";
  actor_id = 0;
  action = codes "upload";
  object_id = a.id;
  object_key = a.key;
  remote_ip = [];
  created_at = zero_time;
}

abbrev is_hidden : Text → Bool
is_hidden name = text_eq name [] || has_prefix name (codes ".")

-- What the watcher reads of the configuration.
pub record Inbox : Type 0 where
  pub dir : Text
  pub max_upload_bytes : ℤ

-- The parameters of ingestWithSource, and strings.ToLower.
module _ (error_text : Error → Text) (sha256 etag to_lower : Text → Text) (cfg : Settings)
    (ids : Text → List Text) (inbox : Inbox) where
  -- isInboxTar
  unfoldable pub is_inbox_tar : Text → Bool
  is_inbox_tar name = if is_hidden name then false else has_suffix (to_lower name) (codes ".tar.gz")

  -- What follows ingestWithSource.
  abbrev pub dropped : Text → Time → Result Archive → M (Unit {0})
  dropped path now (ok a) = attempt (insert_audit (upload_audit a) now) >> remove_file path
  dropped path now (err (duplicate existing)) = remove_file path
  dropped path now (err e) = raise e

  -- ingestSFTPPath
  unfoldable pub ingest_sftp_path : Text → ℕ → Time → M (Unit {0})
  ingest_sftp_path path size now = choose (too_large inbox.max_upload_bytes size) (raise failed) (do
    f ← open_file path
    attempt (
          ingest_with_source error_text sha256 etag cfg (ids path) f.body (sanitize_key (base path))
            (codes "sftp") 0 now)
        >>= dropped path now)

  abbrev pub ingested : Seen → Text → Result (Unit {0}) → M Seen
  ingested seen path (ok u) = pure (forget seen path)
  ingested seen path (err e) = pure seen

  abbrev pub sized : Seen → Text → Time → Result ℕ → M Seen
  sized seen path now (err e) = pure seen
  sized seen path now (ok size) =
      choose (not (stable (seen path) size)) (pure (assign seen path size))
        (attempt (ingest_sftp_path path size now) >>= ingested seen path)

  -- processInboxEntry, with the map that it leaves.
  unfoldable pub process_inbox_entry : Seen → Time → Entry → M Seen
  unfolding file_size is_inbox_tar
  process_inbox_entry seen now e =
      choose (e.is_dir || not (is_inbox_tar e.name)) (pure seen)
        (attempt (file_size e.path) >>= sized seen e.path now)

  -- The loop over the entries.
  unfoldable pub process_entries : Seen → Time → List Entry → M Seen
  process_entries seen now [] = pure seen
  process_entries seen now (e ∷ entries) =
      process_inbox_entry seen now e >>= λ seen'. process_entries seen' now entries

  -- The loop that forgets what is no longer there.
  abbrev pub prune : List Entry → Seen → Seen
  prune entries seen p = if any (λ e. text_eq e.path p) entries then seen p else none

  abbrev pub polled : Seen → Time → Result (List Entry) → M Seen
  polled seen now (err e) = choose (is_no_file e) (pure seen) (raise e)
  polled seen now (ok entries) =
      process_entries seen now entries >>= λ seen'. pure (prune entries seen')

  -- WatchOnce, for an inbox that is set.
  unfoldable pub watch_once : Bool → Seen → Time → M Seen
  unfolding read_dir
  watch_once present seen now = attempt (read_dir present inbox.dir) >>= polled seen now
