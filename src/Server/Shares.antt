-- ===== src/Server/Shares.antt =====
-- internal/server/share.go: the handlers of share links, from the point where the request has been
-- decoded. Of a reply the status is kept, and of a download what it streams.
mod Tests
pub mod Served
use groot_share.Prelude.{
  ℕ, ◌+◌, ◌==◌, Text, codes, text_eq, Bool, true, false, not, ◌&&◌, ◌||◌, List, [], ◌∷◌, ltb, leb,
  Option, none, some, if◌then◌else◌, ℤ, pos, negsuc,
}
use groot_share.Time.{Time, is_zero, before, after, zero_time}
use groot_share.Store.Types.{Archive}
use groot_share.Store.World.{
  M, Result, ok, err, Error, share_not_found, share_exhausted, pure, attempt, choose, may_fail,
  ◌>>=◌, ◌>>◌,
}
use groot_share.Store.Audit.{Audit, insert_audit}
use groot_share.Store.Names.{trim_left, trim_right}
use groot_share.Store.Shares.{
  ShareLink, active, create_share_link, share_by_token_hash, list_share_links, revoke_share_link,
  increment_share_use,
}
use groot_share.Server.Settings.{Settings}
use groot_share.Server.Catalog.{open_download, resolve_archive}
use groot_share.Server.Users.{Request, record_user_audit}

pub data Reason : Type 0 where
  revoked expired exhausted : Reason

-- shareInactiveReason
unfoldable pub share_inactive_reason : ShareLink → Time → Option Reason
share_inactive_reason l now =
    if not (is_zero l.revoked_at)
    then some revoked
    else if not (is_zero l.expires_at) && not (before now l.expires_at)
    then some expired
    else if ltb 0 l.max_uses && leb l.max_uses l.use_count
    then some exhausted
    else none

pub data ShareReply : Type 0 where
  missing bad_request internal revoke_done : ShareReply
  gone : Reason → ShareReply
  created_link : ShareLink → ShareReply
  listed_links : List ShareLink → ShareReply
  served : Text → Archive → ShareReply

-- strings.Trim(s, "/")
abbrev is_slash : ℕ → Bool
is_slash c = c == b'/'

unfoldable pub trim_slashes : Text → Text
unfolding trim_left trim_right
trim_slashes s = trim_right is_slash (trim_left is_slash s)

abbrev download_audit : Archive → Text → Audit
download_audit a remote_ip = record {
  actor = codes "share";
  actor_id = 0;
  action = codes "share_download";
  object_id = a.id;
  object_key = a.key;
  remote_ip = remote_ip;
  created_at = zero_time;
}

-- recordShareDownload, and the serving of the bytes.
unfoldable pub serve_share : Request → Text → Archive → M ShareReply
serve_share r body a =
    attempt (insert_audit (download_audit a r.remote_ip) r.now) >> pure (served body a)

-- The switch over the error of IncrementShareUse.
abbrev pub counted : Request → Text → Archive → Result ℕ → M ShareReply
counted r body a (ok n) = serve_share r body a
counted r body a (err share_exhausted) = pure (gone exhausted)
counted r body a (err share_not_found) = pure missing
counted r body a (err e) = serve_share r body a

abbrev pub or_missing : {A : Type 0} → (A → M ShareReply) → Result A → M ShareReply
or_missing k (ok a) = k a
or_missing k (err e) = pure missing

-- The two forms of the expiry in shareCreateRequest, as time.Parse and time.ParseDuration read
-- them: absent, refused, or a time and a duration in nanoseconds (which is not negative).
pub data Expiry : Type 0 where
  absent refused : Expiry
  value : ℕ → Expiry

pub record ShareRequest : Type 0 where
  pub expires_at : Expiry
  pub expires_in : Expiry
  pub label : Text
  pub max_uses : ℤ

-- The time that the switch computes, where it does not refuse.
unfoldable pub expiry_of : ShareRequest → Time → Option Time
expiry_of q now = chosen q.expires_at q.expires_in
  where
    chosen : Expiry → Expiry → Option Time
    chosen absent (value d) = if d == 0 then none else some (now + d)
    chosen (value t) absent = some t
    chosen _ _ = none

abbrev natural : ℤ → Option ℕ
natural (pos n) = some n
natural (negsuc n) = none

-- `hash_secret` is auth.HashSecret, and `etag` the ETag that the bucket gives an object.
module _ (hash_secret etag : Text → Text) (cfg : Settings) where
  abbrev pub open_share : Request → ShareLink → Option Reason → M ShareReply
  open_share r link (some reason) = pure (gone reason)
  open_share r link none =
      attempt (open_download etag cfg link.archive_id)
      >>= or_missing (λ (body, a). attempt (increment_share_use link.id r.now) >>= counted r body a)

  -- handleShareDownload
  unfoldable pub handle_share_download : Request → Text → M ShareReply
  handle_share_download r path =
      let token = trim_slashes path in
      choose (text_eq token []) (pure missing) (
        attempt (share_by_token_hash (hash_secret token))
        >>= or_missing (λ link. open_share r link (share_inactive_reason link r.now)))

  abbrev created_reply : (ℕ → Text) → Request → Text → Result ShareLink → M ShareReply
  created_reply digits r id (err e) = pure internal
  created_reply digits r id (ok link) =
      record_user_audit r (codes "share_create") (digits link.id) id >> pure (created_link link)

  abbrev token_made :
      (ℕ → Text)
      → Request
      → Text
      → ShareRequest
      → Text
      → Time
      → ℕ
      → Result (Unit {0})
      → M ShareReply
  token_made digits r id q token t max_uses (err e) = pure internal
  token_made digits r id q token t max_uses (ok u) =
      attempt (create_share_link id (hash_secret token) r.actor_id q.label max_uses t r.now)
      >>= created_reply digits r id

  abbrev with_expiry :
      (ℕ → Text) → Request → Text → ShareRequest → Text → Option Time → Option ℕ → M ShareReply
  with_expiry digits r id q token none n = pure bad_request
  with_expiry digits r id q token (some t) none = pure bad_request
  with_expiry digits r id q token (some t) (some max_uses) =
      choose (not (after t r.now)) (pure bad_request)
        (attempt may_fail >>= token_made digits r id q token t max_uses)

  -- handleCreateShare, for a body that decodes, with the token that NewShareToken makes; `digits`
  -- is strconv.FormatInt.
  unfoldable pub handle_create_share :
      (ℕ → Text) → Request → Text → ShareRequest → Text → M ShareReply
  handle_create_share digits r path q token =
      let id = trim_slashes path in
      choose (text_eq id []) (pure missing) (
        attempt (resolve_archive etag cfg id)
        >>= or_missing
            (λ _. with_expiry digits r id q token (expiry_of q r.now) (natural q.max_uses)))

  abbrev listed_reply : Result (List ShareLink) → M ShareReply
  listed_reply (ok links) = pure (listed_links links)
  listed_reply (err e) = pure internal

  -- handleListShares
  unfoldable pub handle_list_shares : Text → M ShareReply
  handle_list_shares path =
      let id = trim_slashes path in
      choose (text_eq id []) (pure missing) (
        attempt (resolve_archive etag cfg id)
        >>= or_missing (λ _. attempt (list_share_links id) >>= listed_reply))

-- handleRevokeShare, of the number that ParseInt reads and the text that it reads it from.
unfoldable pub handle_revoke_share : Request → Text → Option ℕ → M ShareReply
handle_revoke_share r raw none = pure missing
handle_revoke_share r raw (some id) = choose (id == 0) (pure missing) (
    attempt (revoke_share_link id r.now)
    >>= or_missing (λ _. record_user_audit r (codes "share_revoke") raw [] >> pure revoke_done))
