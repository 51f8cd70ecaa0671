-- ===== src/Server/Pins.antt =====
-- internal/server/pins.go: pinning and unpinning, from the point where the mux has matched the path.
pub mod Own
mod Tests
use groot_share.Prelude.{
  ℕ, ◌==◌, ◌-◌, Text, codes, text_eq, Bool, true, false, ◌||◌, List, [], ◌∷◌, Option, none, some,
  if◌then◌else◌, length, take,
}
use groot_share.Time.{Time}
use groot_share.Blob.Keys.{has_suffix}
use groot_share.Store.Types.{Archive}
use groot_share.Store.World.{
  M, Result, ok, err, Error, not_found, pure, attempt, choose, ◌>>=◌, ◌>>◌,
}
use groot_share.Store.Pins.{add_pin, remove_pin}
use groot_share.Server.Settings.{Settings}
use groot_share.Server.Actor.{Actor}
use groot_share.Server.Catalog.{resolve_archive}
use groot_share.Server.Identity.{or_answer}
use groot_share.Server.Shares.{trim_slashes}

pub data Method : Type 0 where
  post delete other : Method

pub data PinReply : Type 0 where
  unauthorized bad_request internal missing pinned unpinned method_not_allowed : PinReply

-- strings.TrimSuffix
abbrev trim_suffix : Text → Text → Text
trim_suffix s suffix = if has_suffix s suffix then take (length s - length suffix) s else s

-- pinID
unfoldable pub pin_id : Text → Text
pin_id path = trim_slashes (trim_suffix (trim_slashes path) (codes "/delete"))

-- pinPathIsDelete
unfoldable pub pin_path_is_delete : Text → Bool
pin_path_is_delete path = has_suffix (trim_slashes path) (codes "/delete")

abbrev pub is_delete : Method → Bool
is_delete delete = true
is_delete _ = false

abbrev pub is_post : Method → Bool
is_post post = true
is_post _ = false

abbrev resolve_reply : Error → PinReply
resolve_reply not_found = missing
resolve_reply _ = internal

module _ (etag : Text → Text) (cfg : Settings) where
  abbrev pub unpin : ℕ → Text → M PinReply
  unpin user_id id = or_answer (remove_pin user_id id) (λ _. internal) λ _. pure unpinned

  abbrev pub pin_archive : ℕ → Text → Time → M PinReply
  pin_archive user_id id now =
      or_answer (resolve_archive etag cfg id) resolve_reply
        λ a. or_answer (add_pin user_id a now) (λ _. internal) λ _. pure pinned

  abbrev pub pin_by : ℕ → Method → Text → Time → M PinReply
  pin_by user_id method path now = choose (text_eq (pin_id path) []) (pure bad_request) (
      choose (is_delete method || pin_path_is_delete path) (unpin user_id (pin_id path))
        (choose (is_post method) (pin_archive user_id (pin_id path) now) (pure method_not_allowed)))

  -- handlePin
  unfoldable pub handle_pin : Option Actor → Method → Text → Time → M PinReply
  handle_pin none method path now = pure unauthorized
  handle_pin (some a) method path now =
      choose (a.user.id == 0) (pure unauthorized) (pin_by a.user.id method path now)
