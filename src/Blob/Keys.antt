-- ===== src/Blob/Keys.antt =====
-- internal/blob/key.go: the prefix, the dated keys of gfs, and the source that a key tells.
mod Tests
use groot_share.Prelude.{
  ◌≡◌, refl, ℕ, suc, ◌+◌, ◌-◌, ◌*◌, ◌/◌, ◌%◌, Text, codes, text_eq, Bool, true, false, not, ◌&&◌,
  ◌||◌, List, [], ◌∷◌, ◌++◌, ltb, leb, ◌==◌, if◌then◌else◌, length, drop,
}
use Prim.Native.Nat.{min}
use groot_share.Time.{Time, day}
use groot_share.Store.Names.{trim_space, trim_left}

-- strings.HasPrefix, HasSuffix and Contains
unfoldable pub has_prefix : Text → Text → Bool
has_prefix s [] = true
has_prefix [] (d ∷ p) = false
has_prefix (c ∷ s) (d ∷ p) = c == d && has_prefix s p

unfoldable pub has_suffix : Text → Text → Bool
has_suffix s p = leb (length p) (length s) && text_eq (drop (length s - length p) s) p

unfoldable pub contains : Text → Text → Bool
contains [] p = has_prefix [] p
contains (c ∷ s) p = has_prefix (c ∷ s) p || contains s p

abbrev pub is_slash : ℕ → Bool
is_slash c = c == b'/'

-- NormalizePrefix
unfoldable pub normalize_prefix : Text → Text
normalize_prefix p =
    let q = trim_left is_slash (trim_space p) in
    if text_eq q []
    then codes "captures/"
    else if not (has_suffix q (codes "/"))
    then q ++ codes "/"
    else q

-- UnderPrefix
unfoldable pub under_prefix : Text → Text → Bool
under_prefix prefix key =
    let k = trim_space key in
    if text_eq k [] || contains k (codes "..")
    then false
    else has_prefix (trim_left is_slash k) (normalize_prefix prefix)

-- The date of a day of the proleptic Gregorian calendar, of the days since 1 January of year 1.
abbrev is_leap : ℕ → Bool
is_leap y = (y % 4 == 0 && not (y % 100 == 0)) || y % 400 == 0

abbrev month_lengths : Bool → List ℕ
month_lengths leap =
    31 ∷ (if leap then 29 else 28) ∷ 31 ∷ 30 ∷ 31 ∷ 30 ∷ 31 ∷ 31 ∷ 30 ∷ 31 ∷ 30 ∷ 31 ∷ []

abbrev pub Date : Type 0
Date = ℕ × ℕ × ℕ

month_day : ℕ → ℕ → ℕ → List ℕ → Date
month_day year month rest [] = (year, month, rest + 1)
month_day year month rest (len ∷ lengths) =
    let later = month_day year (suc month) (rest - len) lengths in
    if ltb rest len then (year, month, rest + 1) else later

unfoldable pub date_of_day : ℕ → Date
unfolding month_day
date_of_day d =
    let r400 = d % 146097 in
    let n100 = min 3 (r400 / 36524) in
    let r100 = r400 - n100 * 36524 in
    let r4 = r100 % 1461 in
    let n1 = min 3 (r4 / 365) in
    let year = 400 * (d / 146097) + 100 * n100 + 4 * (r100 / 1461) + n1 + 1 in
    month_day year 1 (r4 - n1 * 365) (month_lengths (is_leap year))

abbrev pub digit : ℕ → ℕ
digit n = b'0' + n % 10

abbrev pub two_digits : ℕ → Text
two_digits n = digit (n / 10) ∷ digit n ∷ []

-- Four digits of the year, up to 9999.
abbrev pub four_digits : ℕ → Text
four_digits n = digit (n / 1000) ∷ digit (n / 100) ∷ two_digits n

-- t.Format("2006"), t.Format("01") and t.Format("02"), with slashes between.
abbrev pub date_dir : Date → Text
date_dir (year, month, d) = four_digits year ++ b'/' ∷ two_digits month ++ b'/' ∷ two_digits d

-- datedKey
unfoldable pub dated_key : Text → Text → Text → Time → Text
unfolding date_of_day
dated_key prefix kind id t =
    let dated = date_dir (date_of_day (t / day)) ++ b'/' ∷ id ++ codes ".tar.gz" in
    if not (text_eq kind [])
    then normalize_prefix prefix ++ kind ++ b'/' ∷ dated
    else normalize_prefix prefix ++ dated

unfoldable pub http_key : Text → Text → Time → Text
http_key prefix id t = dated_key prefix [] id t

unfoldable pub sftp_key : Text → Text → Time → Text
sftp_key prefix id t = dated_key prefix (codes "sftp") id t

-- The classes of characters in the two patterns.
abbrev pub is_digit : ℕ → Bool
is_digit c = leb b'0' c && leb c b'9'

abbrev pub is_hex : ℕ → Bool
is_hex c = is_digit c || (leb b'a' c && leb c b'f')

-- What one place of a pattern accepts.
pub data Class : Type 0 where
  this : ℕ → Class
  num hex : Class

abbrev accepts : Class → ℕ → Bool
accepts (this d) c = c == d
accepts num c = is_digit c
accepts hex c = is_hex c

abbrev exactly : Text → List Class
exactly [] = []
exactly (c ∷ s) = this c ∷ exactly s

abbrev pub times : ℕ → Class → List Class
times ℕ.zero k = []
times (suc n) k = k ∷ times n k

unfoldable pub fits : List Class → Text → Bool
fits [] [] = true
fits (k ∷ ks) (c ∷ s) = accepts k c && fits ks s
fits _ _ = false

-- `pattern$`, for a pattern of one length: the end of the text fits.
unfoldable pub fits_end : List Class → Text → Bool
unfolding fits
fits_end ks s = leb (length ks) (length s) && fits ks (drop (length s - length ks) s)

abbrev dated_http_key : List Class
dated_http_key =
    times 4 num
    ++ this b'/' ∷ times 2 num
    ++ this b'/' ∷ times 2 num
    ++ this b'/' ∷ times 32 hex
    ++ exactly (codes ".tar.gz")

abbrev dated_sftp_key : List Class
dated_sftp_key = exactly (codes "/sftp/") ++ dated_http_key

-- SourceForKey
unfoldable pub source_for_key : Text → Text
unfolding fits_end
source_for_key key =
    if fits_end dated_sftp_key key
    then codes "sftp"
    else if fits_end dated_http_key key
    then codes "http"
    else codes "s3"

pub contains-nothing : (s : Text) → contains s [] ≡ true
unfolding contains has_prefix
contains-nothing [] = refl
contains-nothing (c ∷ s) = refl
