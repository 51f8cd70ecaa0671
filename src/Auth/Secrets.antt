-- ===== src/Auth/Secrets.antt =====
-- internal/auth/auth.go: passwords, random tokens and the key that a request presents. bcrypt and
-- SHA-256 are parameters, and the random bytes are an argument of what draws them.
use groot_share.Prelude.{
  ℕ, ◌/◌, ◌%◌, ◌+◌, Text, text_eq, codes, Bool, true, false, ◌&&◌, List, [], ◌∷◌, ◌++◌, ltb, leb,
  Option, none, some, if◌then◌else◌, length, take, drop, byte_length,
}
use groot_share.Store.World.{M, pure, raise, choose, invalid, failed}
use groot_share.Store.Names.{trim_space}

-- One digit of hex.EncodeToString.
abbrev pub hex_digit : ℕ → ℕ
hex_digit d = if ltb d 10 then b'0' + d else 87 + d

-- hex.EncodeToString
unfoldable pub hex_encode : List ℕ → Text
hex_encode [] = []
hex_encode (b ∷ bytes) = hex_digit (b / 16) ∷ hex_digit (b % 16) ∷ hex_encode bytes

abbrev pub hashed_or : Option Text → M Text
hashed_or none = raise failed
hashed_or (some h) = pure h

-- `bcrypt` is GenerateFromPassword, which refuses some passwords, and `compare` tells whether
-- CompareHashAndPassword accepts a hash and a password.
module _ (bcrypt : Text → Option Text) where
  -- HashPassword; `invalid` stands for ErrPasswordTooShort.
  unfoldable pub hash_password : Text → M Text
  hash_password p = choose (ltb (byte_length p) 8) (raise invalid) (hashed_or (bcrypt p))

-- CheckPassword; the comparison with the dummy hash takes time and decides nothing.
unfoldable pub check_password : (Text → Text → Bool) → Text → Text → Bool
check_password accepts hash password = if text_eq hash [] then false else accepts hash password

-- What NewAPIKey returns.
pub record FreshKey : Type 0 where
  pub raw : Text
  pub hash : Text
  pub prefix : Text

module _ (sha256_hex : Text → Text) where
  -- HashSecret
  abbrev pub hash_secret : Text → Text
  hash_secret s = sha256_hex s

  -- NewAPIKey, of the bytes that rand.Read has filled in.
  unfoldable pub new_api_key : List ℕ → FreshKey
  new_api_key bytes =
      let raw = codes "gfs_" ++ hex_encode bytes in
      record {
        raw = raw;
        hash = sha256_hex raw;
        prefix = if ltb 12 (length raw) then take 12 raw else raw;
      }

  -- NewSessionToken, and NewShareToken: the token and its hash.
  unfoldable pub new_session_token : List ℕ → Text × Text
  new_session_token bytes = (hex_encode bytes, hash_secret (hex_encode bytes))

-- A letter of ASCII in lower case, as strings.EqualFold compares it with a letter that no other
-- code point folds to.
abbrev fold_ascii : ℕ → ℕ
fold_ascii c = if leb b'A' c && leb c b'Z' then c + 32 else c

unfoldable pub equal_fold : Text → Text → Bool
equal_fold [] [] = true
equal_fold (a ∷ s) (b ∷ t) =
    let rest = equal_fold s t in
    if leb (fold_ascii a) (fold_ascii b) && leb (fold_ascii b) (fold_ascii a) then rest else false
equal_fold _ _ = false

abbrev after_bearer : Text → Text
after_bearer header =
    if ltb 7 (byte_length header) && equal_fold (take 7 header) (codes "Bearer ")
    then trim_space (drop 7 header)
    else []

-- ExtractKey, of the headers X-API-Key and Authorization.
unfoldable pub extract_key : Text → Text → Text
extract_key x_api_key authorization = elim (trim_space x_api_key) [
  | [] ↦ after_bearer (trim_space authorization)
  | c ∷ key ↦ c ∷ key
]
