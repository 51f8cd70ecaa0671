-- ===== src/Store/Sample.antt =====
-- A small store, for the tests: two users, one of them an active admin, two archives, of which the
-- second is pinned, a link to the first, and their files.
use groot_share.Prelude.{ℕ, ◌*◌, Text, codes, true, [], ◌∷◌, none, some}
use groot_share.Time.{Time, blank, at, day}
use groot_share.Auth.{admin, uploader}
use groot_share.Store.Types.{User, ArchiveRow, ShareRow, PinRow, Db}
use groot_share.Store.World.{World, File}

abbrev pub today : Time
today = 740_000 * day

-- The second in which `today` falls.
abbrev pub today_second : ℕ
today_second = 740_000 * 86_400

abbrev pub old_id : Text
old_id = codes "0123456789abcdef0123456789abcdef"

abbrev pub pinned_id : Text
pinned_id = codes "fedcba9876543210fedcba9876543210"

abbrev pub root : User
root = record {
  id = 1;
  username = codes "root";
  name = codes "Root";
  password_hash = codes "x";
  role = admin;
  active = true;
}

abbrev pub ana : User
ana = record root { id = 2; username = codes "ana"; role = uploader }

abbrev pub archive_row : Text → Text → ArchiveRow
archive_row id sha256 = record {
  id = id;
  key = codes "a.tar.gz";
  size = 3;
  sha256 = sha256;
  source = codes "http";
  uploaded_by = some 2;
  created_at = at 86_400;
}

abbrev pub link : ShareRow
link = record {
  id = 7;
  archive_id = old_id;
  token_hash = codes "t";
  created_by = 1;
  label = [];
  max_uses = 2;
  use_count = 1;
  expires_at = at (today_second);
  revoked_at = blank;
  created_at = at 86_400;
}

abbrev pub pin : PinRow
pin = record {
  user_id = 2;
  archive_id = pinned_id;
  archive_key = codes "a.tar.gz";
  archive_size = 3;
  created_at = at 86_400;
}

abbrev pub sample_db : Db
sample_db = record {
  users = root ∷ ana ∷ [];
  sessions = [];
  api_keys = [];
  archives = archive_row old_id (codes "abc") ∷ archive_row pinned_id (codes "xyz") ∷ [];
  transit = [];
  share_links = link ∷ [];
  archive_pins = pin ∷ [];
  audit = [];
  foreign_keys = true;
  next_user = 3;
  next_key = 1;
  next_share = 8;
  next_audit = 1;
}

abbrev pub file_of : Text → Text → File
file_of path body = record { path = path; body = body; modified = day }

abbrev pub sample : World
sample = record {
  db = sample_db;
  disk =
      file_of (codes "home/0123456789abcdef0123456789abcdef.tar.gz") (codes "abc")
      ∷ file_of (codes "home/fedcba9876543210fedcba9876543210.tar.gz") (codes "xyz")
      ∷ [];
  bucket = [];
  listing = none;
  faults = [];
}
