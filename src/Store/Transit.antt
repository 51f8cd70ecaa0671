-- ===== src/Store/Transit.antt =====
-- internal/store/transit.go: uploads that wait in the staging directory for the bucket.
use groot_share.Prelude.{
  ℕ, zero, suc, Text, text_eq, Bool, true, not, ◌||◌, List, [], ◌∷◌, Option, none, some,
  if◌then◌else◌, any, find, keep_if, update_if, map, sort_by,
}
use groot_share.Time.{rfc3339, share_time, stamp_lt}
use groot_share.Store.Types.{Db, Staged, TransitRow}
use groot_share.Store.Names.{trim_space}
use groot_share.Store.Shares.{user_exists}
use groot_share.Store.World.{
  M, Result, ok, err, not_found, constraint, pure, raise, attempt, choose, query, exec, remove_file,
  ◌>>=◌,
}

-- optionalUserID
abbrev pub optional_user_id : ℕ → Option ℕ
optional_user_id zero = none
optional_user_id (suc n) = some (suc n)

-- COALESCE(uploaded_by, 0)
abbrev pub uploader_of : Option ℕ → ℕ
uploader_of none = 0
uploader_of (some u) = u

-- Transit: the fields of Staged, and two more.
pub record Transit : Type 0 where
  pub staged : Staged
  pub s3_key : Text
  pub last_error : Text

-- scanTransit
abbrev pub scan_transit : TransitRow → Transit
scan_transit r = record {
  staged = record {
    id = r.id;
    key = r.key;
    path = r.path;
    sha256 = r.sha256;
    size = r.size;
    uploaded_by = uploader_of r.uploaded_by;
    created_at = share_time r.created_at;
  };
  s3_key = r.s3_key;
  last_error = r.last_error;
}

abbrev pub transit_id : Text → TransitRow → Bool
transit_id id r = text_eq r.id id

-- A foreign key that may be NULL.
abbrev pub uploader_exists : Db → Option ℕ → Bool
uploader_exists db none = true
uploader_exists db (some u) = user_exists db u

-- The row with this id gets the new error; without one a row is added, unless the key is taken.
insert_transit : Staged → Text → Text → Db → Result (Unit {0} × Db)
insert_transit st s3_key last_error db =
    if any (transit_id st.id) db.transit
    then ok (
      tt,
      record db {
        transit =
            update_if (transit_id st.id) (λ r. record r { last_error = last_error }) db.transit;
      },
    )
    else if any (λ r. text_eq r.s3_key s3_key) db.transit
        || not (uploader_exists db (optional_user_id st.uploaded_by))
    then err constraint
    else ok (tt, record db { transit = row ∷ db.transit })
  where
    row : TransitRow
    row = record {
      id = st.id;
      key = st.key;
      s3_key = s3_key;
      size = st.size;
      sha256 = st.sha256;
      path = st.path;
      uploaded_by = optional_user_id st.uploaded_by;
      created_at = rfc3339 st.created_at;
      last_error = last_error;
    }

-- SaveTransit
unfoldable pub save_transit : Staged → Text → Text → M (Unit {0})
unfolding insert_transit
save_transit st s3_key last_error = exec (insert_transit st s3_key last_error)

abbrev older : TransitRow → TransitRow → Bool
older r q = stamp_lt r.created_at q.created_at

-- ListTransit
unfoldable pub list_transit : M (List Transit)
unfolding sort_by
list_transit = query λ db. ok (map scan_transit (sort_by older db.transit))

abbrev pub first_transit : List TransitRow → Result Transit
first_transit [] = err not_found
first_transit (r ∷ rs) = ok (scan_transit r)

-- TransitBySHA256
unfoldable pub transit_by_sha256 : Text → M Transit
unfolding sort_by
transit_by_sha256 sha = choose (text_eq (trim_space sha) []) (raise not_found) (
    query λ db.
      first_transit (sort_by (λ r q. older q r) (keep_if (λ r. text_eq r.sha256 sha) db.transit)))

abbrev pub found_transit : Option TransitRow → Result Transit
found_transit none = err not_found
found_transit (some r) = ok (scan_transit r)

-- TransitByS3Key
unfoldable pub transit_by_s3_key : Text → M Transit
transit_by_s3_key s3_key =
    query λ db. found_transit (find (λ (r : TransitRow). text_eq r.s3_key s3_key) db.transit)

abbrev pub path_of : Option TransitRow → Result Text
path_of none = err not_found
path_of (some r) = ok r.path

abbrev pub delete_transit_row : Text → Db → Result (Unit {0} × Db)
delete_transit_row id db =
    ok (tt, record db { transit = keep_if (λ r. not (transit_id id r)) db.transit })

-- DeleteTransit
unfoldable pub delete_transit : Text → M (Unit {0})
delete_transit id = do
  path ← query λ db. path_of (find (transit_id id) db.transit)
  _ ← exec (delete_transit_row id)
  _ ← attempt (remove_file path)
  pure tt

-- UpdateTransitError
unfoldable pub update_transit_error : Text → Text → M (Unit {0})
update_transit_error id last_error = exec λ db. ok (
  tt,
  record db {
    transit = update_if (transit_id id) (λ r. record r { last_error = last_error }) db.transit;
  },
)
