-- ===== src/Store/Pins.antt =====
-- internal/store/pins.go: the captures that a user has pinned.
use groot_share.Prelude.{
  ℕ, zero, suc, Text, text_eq, text_lt, Bool, not, ◌&&◌, ◌||◌, List, [], ◌∷◌, ltb, ◌==◌,
  if◌then◌else◌, any, keep_if, count_if, take, ℤ, pos, negsuc,
}
use groot_share.Time.{Time, rfc3339, stamp_lt}
use groot_share.Store.Types.{PinRow, Archive, Db}
use groot_share.Store.World.{
  M, Result, ok, err, constraint, invalid, pure, raise, choose, query, exec, ◌>>=◌,
}
use groot_share.Store.Shares.{user_exists}

-- The primary key of the table.
abbrev pub is_pin : ℕ → Text → PinRow → Bool
is_pin user_id archive_id p = p.user_id == user_id && text_eq p.archive_id archive_id

-- INSERT OR IGNORE: a row that is there stays as it is, and a missing user is an error.
unfoldable pub insert_pin : ℕ → Archive → Time → Db → Result (Unit {0} × Db)
insert_pin user_id a now db =
    if any (is_pin user_id a.id) db.archive_pins
    then ok (tt, db)
    else if not (user_exists db user_id)
    then err constraint
    else ok (tt, record db { archive_pins = row ∷ db.archive_pins })
  where
    row : PinRow
    row = record {
      user_id = user_id;
      archive_id = a.id;
      archive_key = a.key;
      archive_size = a.size;
      created_at = rfc3339 now;
    }

-- AddPin, at the time `now`. User ids are positive, so 0 is what `userID <= 0` refuses.
unfoldable pub add_pin : ℕ → Archive → Time → M (Unit {0})
unfolding insert_pin
add_pin user_id a now =
    choose (user_id == 0 || text_eq a.id []) (raise invalid) (exec (insert_pin user_id a now))

-- RemovePin
unfoldable pub remove_pin : ℕ → Text → M Bool
remove_pin user_id archive_id = choose (user_id == 0 || text_eq archive_id []) (raise invalid) do
  n ← exec λ db. ok (
    count_if (is_pin user_id archive_id) db.archive_pins,
    record db { archive_pins = keep_if (λ p. not (is_pin user_id archive_id p)) db.archive_pins },
  )
  pure (ltb 0 n)

-- ORDER BY created_at DESC, archive_id ASC
abbrev pub pin_before : PinRow → PinRow → Bool
pin_before p q =
    stamp_lt q.created_at p.created_at
    || (not (stamp_lt p.created_at q.created_at) && text_lt p.archive_id q.archive_id)

unfoldable pub insert_sorted : PinRow → List PinRow → List PinRow
insert_sorted p [] = p ∷ []
insert_sorted p (q ∷ qs) =
    let rest = insert_sorted p qs in if pin_before p q then p ∷ q ∷ qs else q ∷ rest

unfoldable pub order_pins : List PinRow → List PinRow
unfolding insert_sorted
order_pins [] = []
order_pins (p ∷ ps) = insert_sorted p (order_pins ps)

-- `limit <= 0` means no cap.
abbrev pub limited : ℤ → List PinRow → List PinRow
limited (pos zero) ps = ps
limited (pos (suc n)) ps = take (suc n) ps
limited (negsuc n) ps = ps

-- ListPins
unfoldable pub list_pins : ℕ → ℤ → M (List PinRow)
unfolding order_pins
list_pins user_id limit = choose (user_id == 0) (raise invalid) (
    query λ db.
      ok (
        limited limit
          (order_pins (keep_if (λ (p : PinRow). p.user_id == user_id) db.archive_pins))))
