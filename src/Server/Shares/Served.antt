-- ===== src/Server/Shares/Served.antt =====
-- When a link serves.
use groot_share.Prelude.{
  ◌≡◌, refl, arith, ◌↔◌, Bool, true, false, Option, none, some, text_eq, Text, find, [],
}
use groot_share.Time.{Time}
use groot_share.Store.Types.{ShareRow}
use groot_share.Store.World.{
  World, Result, ok, fails, query, answer, step, attempt, ◌>>=◌, choose, M, pure,
}
use groot_share.Store.Shares.{ShareLink, active, scan_share, share_by_token_hash, found_share}
use groot_share.Server.Settings.{Settings}
use groot_share.Server.Users.{Request}
use groot_share.Server.Shares.{
  ShareReply, served, open_share, or_missing, share_inactive_reason, handle_share_download,
  trim_slashes, Reason,
}

-- The handler finds no reason against a link exactly when Active holds of it.
share_inactive_reason-active :
    (l : ShareLink) (now : Time) → (share_inactive_reason l now ≡ none) ↔ (active l now ≡ true)
unfolding share_inactive_reason active
share_inactive_reason-active l now = ground arith

abbrev pub serves : Result ShareReply → Bool
serves (ok (served body a)) = true
serves _ = false

-- A row that is there and whose link is active.
abbrev pub live : Time → Option ShareRow → Bool
live now none = false
live now (some row) = active (scan_share row) now

module _ (hash_secret etag : Text → Text) (cfg : Settings) (r : Request) where
  opened-live :
      (row : ShareRow) (w : World)
      → serves
          (open_share hash_secret etag cfg r
            (scan_share row)
            (share_inactive_reason (scan_share row) r.now)
            w).0
        ≡ true
      → active (scan_share row) r.now ≡ true
  opened-live row w h = go (share_inactive_reason (scan_share row) r.now) refl h
    where
      go :
          (reason : Option Reason)
          → share_inactive_reason (scan_share row) r.now ≡ reason
          → serves (open_share hash_secret etag cfg r (scan_share row) reason w).0 ≡ true
          → active (scan_share row) r.now ≡ true
      go none e k = (share_inactive_reason-active (scan_share row) r.now).0 e
      go (some x) e k = ground (arith, k)

-- Bytes are streamed only for a token whose hash some row has, of a link that is active at the
-- time of the request: neither revoked nor expired nor used up.
pub handle_share_download-live :
    (hash_secret etag : Text → Text) (cfg : Settings) (r : Request) (path : Text) (w : World)
    → serves (handle_share_download hash_secret etag cfg r path w).0 ≡ true
    → live r.now
        (find (λ row. text_eq row.token_hash (hash_secret (trim_slashes path))) w.db.share_links)
      ≡ true
unfolding handle_share_download share_by_token_hash query
handle_share_download-live hash_secret etag cfg r path w h = go (text_eq (trim_slashes path) []) h
  where
    row_of : Option ShareRow
    row_of = find (λ row. text_eq row.token_hash (hash_secret (trim_slashes path))) w.db.share_links

    opened : Result ShareLink → M ShareReply
    opened =
        or_missing
          (λ link. open_share hash_secret etag cfg r link (share_inactive_reason link r.now))

    found-live :
        (failed : Bool) (found : Option ShareRow)
        → serves ((attempt (λ v. answer failed (found_share found) (step v)) >>= opened) w).0 ≡ true
        → live r.now found ≡ true
    found-live true found k = ground (arith, k)
    found-live false none k = ground (arith, k)
    found-live false (some row) k = opened-live hash_secret etag cfg r row (step w) k

    go :
        (blank : Bool)
        → serves
            (choose blank
              (pure ShareReply.missing)
              (attempt (share_by_token_hash (hash_secret (trim_slashes path))) >>= opened)
              w).0
          ≡ true
        → live r.now row_of ≡ true
    go true k = ground (arith, k)
    go false k = found-live (fails w) row_of k
