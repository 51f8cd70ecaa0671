-- ===== src/Store/Archives/Key.antt =====
-- internal/store/archives.go, sanitizeKey and validArchiveID: the names of files.
mod Tests
pub mod Laws
use groot_share.Prelude.{
  ℕ, zero, suc, ◌==◌, Text, codes, text_eq, Bool, true, false, not, ◌&&◌, ◌||◌, List, [], ◌∷◌, ◌++◌,
  ltb, leb, if◌then◌else◌, length, take, map, all, byte_length,
}
use groot_share.Store.Names.{is_space, trim_left, trim_right, trim_space}

abbrev pub lower_hex : ℕ → Bool
lower_hex c = not ((ltb c b'0' || ltb b'9' c) && (ltb c b'a' || ltb b'f' c))

-- validArchiveID
unfoldable pub valid_archive_id : Text → Bool
valid_archive_id id = if not (byte_length id == 32) then false else all lower_hex id

abbrev is_slash : ℕ → Bool
is_slash c = c == b'/'

-- The text behind the last slash, of a text that does not end in one.
unfoldable pub after_slash : Text → Text → Text
after_slash word [] = word
after_slash word (c ∷ s) =
    let fresh = after_slash [] s in
    let longer = after_slash (word ++ c ∷ []) s in if is_slash c then fresh else longer

-- filepath.Base
unfoldable pub base : Text → Text
unfolding after_slash trim_right
base [] = codes "."
base (c ∷ s) =
    let stripped = trim_right is_slash (c ∷ s) in
    if text_eq stripped [] then codes "/" else after_slash [] stripped

-- strings.ReplaceAll(key, "\\", "/")
abbrev slashes : Text → Text
slashes = map (λ c. if c == b'\\' then b'/' else c)

abbrev pub key_char : ℕ → Bool
key_char c =
    (leb b'a' c && leb c b'z')
    || (leb b'A' c && leb c b'Z')
    || (leb b'0' c && leb c b'9')
    || c == b'.'
    || c == b'-'
    || c == b'_'

-- The loop of sanitizeKey over the code points.
unfoldable pub safe_chars : Text → Text
safe_chars [] = []
safe_chars (c ∷ s) =
    let rest = safe_chars s in
    if key_char c then c ∷ rest else if is_space c then b'-' ∷ rest else rest

-- The cutset "-._"
abbrev pub edge_char : ℕ → Bool
edge_char c = c == b'-' || c == b'.' || c == b'_'

-- strings.Trim(s, "-._")
unfoldable pub trim_edges : Text → Text
unfolding trim_left trim_right
trim_edges s = trim_right edge_char (trim_left edge_char s)

abbrev pub dash : ℕ → Bool
dash c = c == b'-'

-- strings.Contains(s, "--")
unfoldable pub has_double : Text → Bool
has_double [] = false
has_double (c ∷ []) = false
has_double (c ∷ d ∷ s) = (dash c && dash d) || has_double (d ∷ s)

-- strings.ReplaceAll(s, "--", "-")
unfoldable pub halve : Text → Text
halve [] = []
halve (c ∷ []) = c ∷ []
halve (c ∷ d ∷ s) =
    let both = halve s in
    let one = halve (d ∷ s) in if dash c && dash d then b'-' ∷ both else c ∷ one

-- collapseDashes. Each round makes the text shorter, so its length is enough fuel.
unfoldable pub collapse_rounds : ℕ → Text → Text
unfolding has_double halve
collapse_rounds zero s = s
collapse_rounds (suc fuel) s =
    let rest = collapse_rounds fuel (halve s) in if has_double s then rest else s

unfoldable pub collapse_dashes : Text → Text
unfolding collapse_rounds
collapse_dashes s = collapse_rounds (length s) s

abbrev pub default_key : Text
default_key = codes "archive.tar.gz"

-- sanitizeKey
abbrev pub cut_key : Text → Text
cut_key k = if ltb 200 (length k) then trim_edges (take 200 k) else k

abbrev pub or_default_key : Text → Text
or_default_key k = if text_eq k [] then default_key else k

unfoldable pub sanitize_key : Text → Text
unfolding base safe_chars trim_edges collapse_dashes trim_space
sanitize_key key =
    let k = trim_space (base (slashes key)) in
    if text_eq k [] || text_eq k (codes ".") || text_eq k (codes "/")
    then default_key
    else let c = collapse_dashes (trim_edges (safe_chars k)) in
      if text_eq c [] then default_key else or_default_key (cut_key c)
