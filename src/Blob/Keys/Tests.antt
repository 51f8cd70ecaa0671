-- ===== src/Blob/Keys/Tests.antt =====
-- Keys at the inputs of internal/blob/s3_test.go and key.go's own examples.
use groot_share.Prelude.{◌*◌, ◌≡◌, refl, Text, codes, text_eq, false}
use groot_share.Time.{day}
use groot_share.Store.Names.{trim_space}
use groot_share.Blob.Keys.{
  normalize_prefix, under_prefix, http_key, sftp_key, source_for_key, date_of_day, has_prefix,
  has_suffix, contains, dated_key,
}

abbrev hex_id : Text
hex_id = codes "0123456789abcdef0123456789abcdef"

default_prefix : normalize_prefix (codes " / ") ≡ codes "captures/"
unfolding normalize_prefix trim_space text_eq
default_prefix = refl

leap_day : date_of_day 738_944 ≡ (2024, 2, 29)
unfolding date_of_day
leap_day = refl

key_of_day :
    http_key (codes "captures") hex_id (738_944 * day)
    ≡ codes "captures/2024/02/29/0123456789abcdef0123456789abcdef.tar.gz"
unfolding http_key dated_key normalize_prefix has_suffix trim_space text_eq
key_of_day = refl

http_source : source_for_key (http_key (codes "captures/") hex_id (738_944 * day)) ≡ codes "http"
unfolding source_for_key http_key dated_key normalize_prefix has_suffix trim_space text_eq
http_source = refl

sftp_source : source_for_key (sftp_key (codes "captures/") hex_id (738_944 * day)) ≡ codes "sftp"
unfolding source_for_key sftp_key dated_key normalize_prefix has_suffix trim_space text_eq
sftp_source = refl

dots_refused : under_prefix (codes "captures/") (codes "captures/../etc/passwd") ≡ false
unfolding under_prefix contains has_prefix trim_space text_eq
dots_refused = refl
