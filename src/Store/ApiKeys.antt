-- ===== src/Store/ApiKeys.antt =====
-- internal/store/apikeys.go, and the key operations of identity.go: the API keys of users.
use groot_share.Prelude.{
  ℕ, suc, Text, text_eq, Bool, not, ◌&&◌, List, ◌∷◌, ltb, leb, ◌==◌, Option, none, some,
  if◌then◌else◌, find, any, keep_if, update_if, count_if, map, sort_by,
}
use groot_share.Time.{Time, blank, rfc3339, share_time}
use groot_share.Auth.{KeyScope, valid_key_scope}
use groot_share.Store.Types.{User, ApiKey, Db}
use groot_share.Store.World.{
  M, Result, ok, err, not_found, constraint, invalid, pure, raise, choose, query, exec, ◌>>=◌,
}
use groot_share.Store.Users.{has_id, found_rows}
use groot_share.Store.Sessions.{user_exists}

-- APIKeyAuth
pub record ApiKeyAuth : Type 0 where
  pub key_id : ℕ
  pub user : User
  pub scope : KeyScope

-- APIKeyRecord but for its creation time.
pub record ApiKeyRecord : Type 0 where
  pub id : ℕ
  pub user_id : ℕ
  pub prefix : Text
  pub scope : KeyScope
  pub last_used_at : Time

abbrev pub has_hash : Text → ApiKey → Bool
has_hash hash k = text_eq k.key_hash hash

abbrev pub has_key_id : ℕ → ApiKey → Bool
has_key_id id k = k.id == id

unfoldable pub insert_api_key : ℕ → Text → Text → KeyScope → Db → Result (Unit {0} × Db)
insert_api_key user_id key_hash prefix scope db =
    if any (has_hash key_hash) db.api_keys
    then err constraint
    else if not (user_exists db user_id)
    then err constraint
    else ok (
      tt,
      record db {
        api_keys =
            record {
              id = db.next_key;
              user_id = user_id;
              key_hash = key_hash;
              prefix = prefix;
              scope = scope;
              last_used_at = blank;
            }
            ∷ db.api_keys;
        next_key = suc db.next_key;
      },
    )

-- CreateAPIKey
unfoldable pub create_api_key : ℕ → Text → Text → KeyScope → M (Unit {0})
unfolding insert_api_key
create_api_key user_id key_hash prefix scope =
    choose (valid_key_scope scope) (exec (insert_api_key user_id key_hash prefix scope))
      (raise invalid)

abbrev pub key_owner : ApiKey → Option User → Result ApiKeyAuth
key_owner k none = err not_found
key_owner k (some u) =
    if u.active then ok (record { key_id = k.id; user = u; scope = k.scope }) else err not_found

abbrev pub key_auth : List User → Option ApiKey → Result ApiKeyAuth
key_auth users none = err not_found
key_auth users (some k) = key_owner k (find (has_id k.user_id) users)

-- AuthByAPIKeyHash
unfoldable pub auth_by_api_key_hash : Text → M ApiKeyAuth
auth_by_api_key_hash key_hash = query λ db. key_auth db.users (find (has_hash key_hash) db.api_keys)

abbrev pub touched : ℕ → Time → Db → Result (Unit {0} × Db)
touched id now db = ok (
  tt,
  record db {
    api_keys = update_if (has_key_id id) (λ k. record k { last_used_at = rfc3339 now }) db.api_keys;
  },
)

-- TouchAPIKeyLastUsed
unfoldable pub touch_api_key_last_used : ℕ → Time → M (Unit {0})
touch_api_key_last_used id now = choose (leb id 0) (pure tt) (exec (touched id now))

-- scanAPIKeyRecord
abbrev pub scan_api_key : ApiKey → ApiKeyRecord
scan_api_key k = record {
  id = k.id;
  user_id = k.user_id;
  prefix = k.prefix;
  scope = k.scope;
  last_used_at = share_time k.last_used_at;
}

-- ListAPIKeysByUser, newest first.
unfoldable pub list_api_keys_by_user : ℕ → M (List ApiKeyRecord)
unfolding sort_by
list_api_keys_by_user user_id = query λ db. ok (
    map scan_api_key
      (sort_by (λ j k. ltb k.id j.id) (keep_if (λ k. k.user_id == user_id) db.api_keys)))

abbrev found_key : Option ApiKey → Result ApiKeyRecord
found_key none = err not_found
found_key (some k) = ok (scan_api_key k)

-- APIKeyByID
unfoldable pub api_key_by_id : ℕ → M ApiKeyRecord
api_key_by_id id = query λ db. found_key (find (has_key_id id) db.api_keys)

-- The row that DELETE … WHERE id = ? AND user_id = ? selects.
abbrev pub owned : ℕ → ℕ → ApiKey → Bool
owned id user_id k = has_key_id id k && k.user_id == user_id

abbrev pub without_key : ℕ → ℕ → Db → Result (ℕ × Db)
without_key id user_id db = ok (
  count_if (owned id user_id) db.api_keys,
  record db { api_keys = keep_if (λ k. not (owned id user_id k)) db.api_keys },
)

-- DeleteAPIKey
unfoldable pub delete_api_key : ℕ → ℕ → M (Unit {0})
delete_api_key id user_id = exec (without_key id user_id) >>= found_rows
