-- ===== src/Server/Sweep/Kept.antt =====
-- What a deletion, or the sweep of the staging directory, leaves of another archive.
use groot_share.Prelude.{
  All-keep_if, Text, codes, text_eq, text_eq_iff, Bool, true, false, not, List, [], ◌∷◌, ◌++◌,
  Option, find, any, keep_if, All, if◌then◌else◌, ◌≡◌, sym, ap, ◌∙◌, arith, ◌↔◌, ◌⊎◌, Bool-cases,
  inl, inr, text_eq_refl,
}
use mathlib.Core.Path.{subst}
use mathlib.Core.List.{append_cancel_left, append_cancel_right}
use groot_share.Time.{Time}
use groot_share.Store.Types.{Db, ArchiveRow, TransitRow}
use groot_share.Store.Rows.{find-keep_if}
use groot_share.Store.World.{
  World, File, Result, ok, err, Error, attempt, ◌>>=◌, exec, erase, at_path, remove_file, invalid,
  not_found,
}
use groot_share.Store.World.Spares.{
  Part, Of, Spares, Spares-pure, Spares-raise, Spares-attempt, Spares-choose, Spares-system,
  Spares-exec, Spares-bind, Spares-after, Spares-select, Spares-remove_file,
}
use groot_share.Store.Transit.{Transit, path_of, delete_transit, transit_id, delete_transit_row}
use groot_share.Store.Archives.{
  archive_id, home_dir, blob_path, delete_archive, delete_archive_tx, delete_archive_dependents,
  without_dependents, unless_missing, is_no_file, delete_at,
}
use groot_share.Store.Archives.Key.{valid_archive_id}
use groot_share.Store.Audit.{Audit, insert_audit}
use groot_share.Blob.Bucket.{delete, deleted, deleted_if}
use groot_share.Server.Settings.{Settings}
use groot_share.Server.Sweep.{sweep_transit}
use groot_share.Store.Sessions.{purge_expired_sessions}

-- The file of an archive, as BlobPath names it.
abbrev pub home_path : Text → Text
home_path id = home_dir ++ id ++ codes ".tar.gz"

-- The archive has this row in the table, this file and this object, or none where it is `none`;
-- and no waiting upload uses its file.
abbrev pub Kept : Text → Option ArchiveRow → Option File → Option File → Part
Kept id row file object db disk bucket =
    (find (archive_id id) db.archives ≡ row)
    × (find (at_path (home_path id)) disk ≡ file)
    × (find (at_path id) bucket ≡ object)
    × All (λ (t : TransitRow). text_eq t.path (home_path id) ≡ false) db.transit

-- An entry erased under another name.
pub find-erase :
    (p q : Text) (files : List File)
    → text_eq p q ≡ false
    → find (at_path q) (erase p files) ≡ find (at_path q) files
find-erase p q files ne =
    find-keep_if (at_path q) (λ f. not (at_path p f))
      (λ f h. apart f h (text_eq_iff f.path q) (Bool-cases (text_eq f.path p))) files
  where
    apart :
        (f : File)
        → text_eq f.path q ≡ true
        → ((text_eq f.path q ≡ true) ↔ (f.path ≡ q))
        → (text_eq f.path p ≡ true) ⊎ (text_eq f.path p ≡ false)
        → not (text_eq f.path p) ≡ true
    apart f h iff c = ground (arith, text_eq_iff f.path p, text_eq_refl p)

home_path-ne :
    (id id' : Text) → text_eq id' id ≡ false → text_eq (home_path id') (home_path id) ≡ false
home_path-ne id id' ne = elim (Bool-cases (text_eq (home_path id') (home_path id))) [
  | inr e ↦ e
  | inl e ↦
      ground
        (arith, same ((text_eq_iff (home_path id') (home_path id)).0 e), (text_eq_iff id' id).1)
]
  where
    same : home_path id' ≡ home_path id → id' ≡ id
    same e =
        append_cancel_right id' id (codes ".tar.gz")
          (append_cancel_left home_dir (id' ++ codes ".tar.gz") (id ++ codes ".tar.gz") e)

module _ (id : Text) (row : Option ArchiveRow) (file object : Option File) where
  abbrev pub K : Part
  K = Kept id row file object

  -- A file under another name goes.
  pub remove-Kept : (p : Text) → text_eq p (home_path id) ≡ false → Spares K (remove_file p)
  remove-Kept p ne =
      Spares-remove_file p
        (λ db disk bucket (r, f, o, t). (r, find-erase p (home_path id) disk ne ∙ f, o, t))

  -- A statement that leaves the archives and the waiting uploads as they are.
  pub same-Kept :
      {A : Type 0} (s : Db → Result (A × Db))
      → ((db : Db) (a : A) (db' : Db)
          → s db ≡ ok (a, db')
          → (db'.archives ≡ db.archives) × (db'.transit ≡ db.transit))
      → Spares K (exec s)
  same-Kept s same = Spares-exec s (λ db disk bucket a db' (r, f, o, t) e.
      let (ea, et) = same db a db' e in
      (
        ap (find (archive_id id)) ea ∙ r,
        f,
        o,
        subst (All (λ (x : TransitRow). text_eq x.path (home_path id) ≡ false)) (sym et) t,
      ))

  pub audit-Kept : (ev : Audit) (now : Time) → Spares K (insert_audit ev now)
  unfolding insert_audit
  audit-Kept ev now = same-Kept _ (λ db a db' e. ground arith)

  pub purge-Kept : (now : Time) → Spares K (purge_expired_sessions now)
  unfolding purge_expired_sessions
  purge-Kept now = same-Kept _ (λ db a db' e. ground arith)

  pub dependents-Kept : (id' : Text) → Spares K (delete_archive_dependents id')
  unfolding delete_archive_dependents
  dependents-Kept id' =
      Spares-choose _ _ _ (λ _. Spares-pure tt)
        (λ _. same-Kept (λ db. ok (tt, without_dependents id' db)) (λ db a db' e. ground arith))

  delete_tx-Kept : (id' : Text) → text_eq id' id ≡ false → Spares K (exec (delete_archive_tx id'))
  delete_tx-Kept id' ne =
      Spares-exec (delete_archive_tx id') (λ db disk bucket a db' (r, f, o, t) e.
        let (ea, et) = parts db db' e in
        (
          ap (find (archive_id id)) ea ∙ others db.archives ∙ r,
          f,
          o,
          subst (All (λ (x : TransitRow). text_eq x.path (home_path id) ≡ false)) (sym et) t,
        ))
    where
      parts :
          (db db' : Db)
          → delete_archive_tx id' db ≡ ok (tt, db')
          → (db'.archives ≡ keep_if (λ x. not (archive_id id' x)) db.archives)
            × (db'.transit ≡ db.transit)
      parts db db' e = ground arith

      others :
          (rows : List ArchiveRow)
          → find (archive_id id) (keep_if (λ x. not (archive_id id' x)) rows)
            ≡ find (archive_id id) rows
      others =
          find-keep_if (archive_id id) (λ x. not (archive_id id' x))
            (λ x h. ground (arith, text_eq_iff x.id id, text_eq_iff x.id id', text_eq_iff id' id))

  -- The file of the other archive, and then its row.
  delete_at-Kept :
      (id' : Text)
      → text_eq id' id ≡ false
      → (b : Bool) → Spares K (delete_at id' (if not b then err invalid else ok (home_path id')))
  delete_at-Kept id' ne false = Spares-raise invalid
  delete_at-Kept id' ne true =
      Spares-bind (attempt (remove_file (home_path id')) >>= unless_missing) _
        (Spares-after (remove_file (home_path id')) unless_missing
          (remove-Kept (home_path id') (home_path-ne id id' ne)) (λ u. Spares-pure tt) missing)
        (λ _. delete_tx-Kept id' ne)
    where
      missing : (e : Error) → Spares K (unless_missing (err e))
      missing e = Spares-choose (is_no_file e) _ _ (λ _. Spares-pure tt) (λ _. Spares-raise e)

  pub delete_archive-Kept : (id' : Text) → text_eq id' id ≡ false → Spares K (delete_archive id')
  unfolding delete_archive blob_path
  delete_archive-Kept id' ne =
      Spares-choose (not (valid_archive_id id')) _ _ (λ _. Spares-raise not_found)
        (λ v. delete_at-Kept id' ne (valid_archive_id id'))

  found-ne :
      (id' : Text) (rows : List TransitRow) (path : Text)
      → All (λ (t : TransitRow). text_eq t.path (home_path id) ≡ false) rows
      → path_of (find (transit_id id') rows) ≡ ok path
      → text_eq path (home_path id) ≡ false
  found-ne id' [] path h e = ground arith
  found-ne id' (t ∷ rows) path (ht, h) e = elim (Bool-cases (transit_id id' t)) [
    | inl c ↦ ground arith
    | inr c ↦ found-ne id' rows path h (ground arith)
  ]

  pub transit-Kept : (id' : Text) → Spares K (delete_transit id')
  unfolding delete_transit
  transit-Kept id' =
      Spares-select (λ path. text_eq path (home_path id) ≡ false)
        (λ db. path_of (find (transit_id id') db.transit)) _
        (λ db disk bucket path (r, f, o, t) e. found-ne id' db.transit path t e)
        (λ path ne.
          Spares-bind _ _
            (Spares-exec (delete_transit_row id')
              (λ db disk bucket a db' h e. kept db db' disk bucket h e))
            (λ _. Spares-bind _ _ (Spares-attempt _ (remove-Kept path ne)) (λ _. Spares-pure tt)))
    where
      kept :
          (db db' : Db) (disk bucket : List File)
          → K db disk bucket
          → delete_transit_row id' db ≡ ok (tt, db')
          → K db' disk bucket
      kept db db' disk bucket (r, f, o, t) e =
          let (ea, et) = parts db db' e in
          (
            ap (find (archive_id id)) ea ∙ r,
            f,
            o,
            subst (All (λ (x : TransitRow). text_eq x.path (home_path id) ≡ false)) (sym et)
                (All-keep_if _ (λ x. not (transit_id id' x)) db.transit t),
          )
        where
          parts :
              (db db' : Db)
              → delete_transit_row id' db ≡ ok (tt, db')
              → (db'.archives ≡ db.archives)
                × (db'.transit ≡ keep_if (λ x. not (transit_id id' x)) db.transit)
          parts db db' e = ground arith

  pub object-Kept : (key : Text) → text_eq key id ≡ false → Spares K (delete key)
  unfolding delete
  object-Kept key ne = Spares-system (deleted key) (λ w h. go w h (any (at_path key) w.bucket))
    where
      go : (w : World) → Of K w → (b : Bool) → Of K (deleted_if key w b).1
      go w (r, f, o, t) true = (r, f, find-erase key id w.bucket ne ∙ o, t)
      go w h false = h

  pub sweep_transit-Kept :
      (cfg : Settings) (now : Time) (tr : Transit) → Spares K (sweep_transit cfg now tr)
  unfolding sweep_transit
  sweep_transit-Kept cfg now tr =
      Spares-choose _ _ _ (λ _. Spares-pure tt)
        (λ _. Spares-bind _ _ (Spares-attempt _ (transit-Kept tr.staged.id)) (λ _. Spares-pure tt))
