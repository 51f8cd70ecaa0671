-- ===== src/Server/Pins/Own.antt =====
-- The pin handler and the pins of the other users.
use groot_share.Prelude.{
  ℕ, ◌≡◌, refl, arith, Text, text_eq, not, ◌||◌, List, [], some, keep_if, ◌==◌, count_if, ltb,
}
use groot_share.Time.{Time}
use groot_share.Blob.Bucket.{head}
use groot_share.Blob.Keys.{under_prefix}
use groot_share.Store.Types.{Db, PinRow, Archive}
use groot_share.Store.Rows.{keep_if-keep_if}
use groot_share.Store.World.{
  World, M, Result, ok, err, pure, raise, attempt, exec, not_found, invalid, ◌>>=◌,
}
use groot_share.Store.World.Laws.{
  Keeps, Keeps-same, Keeps-pure, Keeps-raise, Keeps-attempt, Keeps-choose, Keeps-query, Keeps-exec,
  Keeps-bind,
}
use groot_share.Store.Archives.{archive_by_id}
use groot_share.Store.Transit.{transit_by_s3_key}
use groot_share.Store.Pins.{is_pin, add_pin, insert_pin, remove_pin}
use groot_share.Server.Settings.{Settings, use_bucket}
use groot_share.Server.Actor.{Actor}
use groot_share.Server.Catalog.{
  resolve_archive, resolve_archive_vps_s3, bad_id, unless_held, or_not_found, is_object_missing,
  object_archive, transit_archive,
}
use groot_share.Server.Identity.Laws.{Keeps-or_answer}
use groot_share.Server.Pins.{
  Method, pin_id, pin_path_is_delete, is_delete, is_post, unpin, pin_archive, handle_pin,
}

-- The pins of the other users are `rows`.
abbrev pub Others : ℕ → List PinRow → Db → Type 0
Others user_id rows db = keep_if (λ (p : PinRow). not (p.user_id == user_id)) db.archive_pins ≡ rows

module _ (user_id : ℕ) (rows : List PinRow) where
  add_pin-Others : (a : Archive) (now : Time) → Keeps (Others user_id rows) (add_pin user_id a now)
  unfolding add_pin insert_pin
  add_pin-Others a now =
      Keeps-choose (user_id == 0 || text_eq a.id []) (raise invalid)
        (exec (insert_pin user_id a now)) (Keeps-raise _)
        (Keeps-exec (insert_pin user_id a now) λ db u db' h e. ground (arith, h, e))

  remove_pin-Others : (id : Text) → Keeps (Others user_id rows) (remove_pin user_id id)
  unfolding remove_pin
  remove_pin-Others id =
      Keeps-choose (user_id == 0 || text_eq id []) (raise invalid)
        (exec removed >>= λ n. pure (ltb 0 n)) (Keeps-raise _)
        (Keeps-bind (exec removed) (λ n. pure (ltb 0 n))
          (Keeps-exec removed λ db n db' h e. ground (
            arith,
            h,
            e,
            keep_if-keep_if (λ p. not (is_pin user_id id p))
                (λ (p : PinRow). not (p.user_id == user_id)) (λ p k. ground (arith, k))
                db.archive_pins,
          ))
          (λ n. Keeps-pure _))
    where
      removed : Db → Result (ℕ × Db)
      removed db = ok (
        count_if (is_pin user_id id) db.archive_pins,
        record db { archive_pins = keep_if (λ p. not (is_pin user_id id p)) db.archive_pins },
      )

-- A lookup of an archive changes nothing in the database.
db-head : (etag : Text → Text) (key : Text) (w : World) → (head etag key w).1.db ≡ w.db
unfolding head
db-head etag key w = ground arith

module _ {Q : Db → Type 0} (etag : Text → Text) (cfg : Settings) where
  held-Keeps :
      {A B : Type 0} (held : A → M B) (waiting : M B) (r : Result A)
      → ((a : A) → Keeps Q (held a))
      → Keeps Q waiting
      → Keeps Q (unless_held held waiting r)
  held-Keeps held waiting (ok a) k l = k a
  held-Keeps held waiting (err e) k l =
      Keeps-choose (is_object_missing e) waiting (raise e) l (Keeps-raise e)

  transit-Keeps :
      (id : Text)
      → Keeps Q (attempt (transit_by_s3_key id) >>= or_not_found (λ tr. pure (transit_archive tr)))
  unfolding transit_by_s3_key
  transit-Keeps id =
      Keeps-bind (attempt (transit_by_s3_key id)) (or_not_found (λ tr. pure (transit_archive tr)))
        (Keeps-attempt _ (Keeps-query _))
        (λ r. elim r as (λ r. Keeps Q (or_not_found (λ tr. pure (transit_archive tr)) r)) [
          | ok tr ↦ Keeps-pure _
          | err e ↦ Keeps-raise _
        ])

  archive_by_id-Keeps : (id : Text) → Keeps Q (archive_by_id id)
  unfolding archive_by_id
  archive_by_id-Keeps id = Keeps-choose _ _ _ (Keeps-raise _) (Keeps-query _)

  resolve_archive-Keeps : (id : Text) → Keeps Q (resolve_archive etag cfg id)
  unfolding resolve_archive resolve_archive_vps_s3
  resolve_archive-Keeps id = Keeps-choose (bad_id id) (raise not_found) _ (Keeps-raise not_found) (
      Keeps-choose (use_bucket cfg) (resolve_archive_vps_s3 etag cfg id) (archive_by_id id)
        (Keeps-choose (not (under_prefix cfg.s3_prefix id)) (raise not_found) _
          (Keeps-raise not_found)
          (Keeps-bind (attempt (head etag id)) _
            (Keeps-attempt (head etag id) (Keeps-same (head etag id) (db-head etag id)))
            (λ r.
              held-Keeps (λ obj. pure (object_archive obj)) _ r (λ obj. Keeps-pure _)
                (transit-Keeps id))))
        (archive_by_id-Keeps id))

-- Whatever a user asks of the pin handler, and whatever fails, the pins of all other users stay as
-- they are, in the same order.
pub handle_pin-others :
    (etag : Text → Text) (cfg : Settings) (a : Actor) (method : Method) (path : Text) (now : Time)
    (w : World)
    → let others : Db → List PinRow =
        λ db. keep_if (λ (p : PinRow). not (p.user_id == a.user.id)) db.archive_pins in
      others (handle_pin etag cfg (some a) method path now w).1.db ≡ others w.db
unfolding handle_pin
handle_pin-others etag cfg a method path now w = whole.at w refl
  where
    rows : List PinRow
    rows = keep_if (λ (p : PinRow). not (p.user_id == a.user.id)) w.db.archive_pins

    unpinning : Keeps (Others a.user.id rows) (unpin etag cfg a.user.id (pin_id path))
    unpinning =
        Keeps-or_answer (remove_pin a.user.id (pin_id path)) _ _
          (remove_pin-Others a.user.id rows (pin_id path)) (λ _. Keeps-pure _)

    pinning : Keeps (Others a.user.id rows) (pin_archive etag cfg a.user.id (pin_id path) now)
    pinning =
        Keeps-or_answer (resolve_archive etag cfg (pin_id path)) _ _
          (resolve_archive-Keeps etag cfg (pin_id path))
          (λ x.
            Keeps-or_answer (add_pin a.user.id x now) _ _ (add_pin-Others a.user.id rows x now)
              (λ _. Keeps-pure _))

    whole : Keeps (Others a.user.id rows) (handle_pin etag cfg (some a) method path now)
    whole = Keeps-choose (a.user.id == 0) _ _ (Keeps-pure _) (
        Keeps-choose (text_eq (pin_id path) []) _ _ (Keeps-pure _) (
          Keeps-choose (is_delete method || pin_path_is_delete path) _ _ unpinning
            (Keeps-choose (is_post method) _ _ pinning (Keeps-pure _))))
