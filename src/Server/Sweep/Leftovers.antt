-- ===== src/Server/Sweep/Leftovers.antt =====
-- What the sweep of the staging directory leaves of an archive.
use groot_share.Prelude.{
  Text, text_eq, Bool, true, false, List, [], ◌∷◌, Option, keep_if, All, map, ◌≡◌, refl, arith,
  Bool-cases, inl, inr,
}
use mathlib.Core.Path.{subst}
use groot_share.Time.{Time}
use groot_share.Store.Types.{ArchiveRow}
use groot_share.Store.World.{World, File, Result, ok, err, attempt, step, fails, system}
use groot_share.Store.World.Spares.{
  Part, Spares, Spares-pure, Spares-attempt, Spares-choose, Spares-system, Spares-query,
  Spares-bind, Spares-after, Spares-each, Spares-bind_with, Spares-each_of, ok_inj,
}
use groot_share.Store.Transit.{list_transit}
use groot_share.Store.Archives.{staging_dir}
use groot_share.Blob.Keys.{has_prefix}
use groot_share.Server.Settings.{Settings}
use groot_share.Server.Sweep.{
  staging_entries, entry_time, sweep_entry, sweep_entry_at, sweep_files, sweep_waiting,
  sweep_staging, sweep_transit,
}
use groot_share.Server.Sweep.Kept.{Kept, home_path, remove-Kept, sweep_transit-Kept}

-- The paths that os.ReadDir of the staging directory yields.
abbrev Staging : Text → Type 0
Staging p = has_prefix p staging_dir ≡ true

Staging-files :
    (files : List File)
    → All Staging (map (λ f. f.path) (keep_if (λ f. has_prefix f.path staging_dir) files))
Staging-files [] = tt
Staging-files (f ∷ files) = elim (Bool-cases (has_prefix f.path staging_dir)) [
  | inl e ↦ rw e (e, Staging-files files)
  | inr e ↦ rw e (Staging-files files)
]

abbrev AllStaging : Result (List Text) → Type 0
AllStaging (ok ps) = All Staging ps
AllStaging (err e) = Unit {0}

entries-Staging : (w : World) → AllStaging (staging_entries w).0
unfolding staging_entries
entries-Staging w = go (fails w)
  where
    go :
        (b : Bool)
        → AllStaging
            (system b (step w) (
              ok (
                  map
                    (λ (f : File). f.path)
                    (keep_if (λ (f : File). has_prefix f.path staging_dir) w.disk)),
              step w,
            )).0
    go true = tt
    go false = Staging-files w.disk

Staging-ne : (id p : Text) → Staging p → text_eq p (home_path id) ≡ false
unfolding text_eq has_prefix
Staging-ne id [] h = refl
Staging-ne id (c ∷ p) h = ground arith

module _ (id : Text) (row : Option ArchiveRow) (file object : Option File) (cfg : Settings)
    (now : Time) where
  abbrev L : Part
  L = Kept id row file object

  entry-Kept : (p : Text) → Staging p → Spares L (sweep_entry cfg now p)
  unfolding sweep_entry entry_time
  entry-Kept p h =
      Spares-after (entry_time p) (sweep_entry_at cfg now p) (Spares-system _ (λ w k. k))
        (λ t.
          Spares-choose _ _ _ (λ _. Spares-pure tt)
            (λ _.
              Spares-bind _ _
                (Spares-attempt _ (remove-Kept id row file object p (Staging-ne id p h)))
                (λ _. Spares-pure tt)))
        (λ e. Spares-pure tt)

  files-Kept : (r : Result (List Text)) → AllStaging r → Spares L (sweep_files cfg now r)
  files-Kept (err e) h = Spares-pure tt
  files-Kept (ok ps) h = Spares-each_of Staging (sweep_entry cfg now) ps h entry-Kept

  pub staging-Kept : Spares L (sweep_staging cfg now)
  unfolding sweep_staging staging_entries list_transit
  staging-Kept =
      Spares-after list_transit (sweep_waiting cfg now) (Spares-query _)
        (λ items.
          Spares-bind _ _
            (Spares-each (sweep_transit cfg now) items
              (sweep_transit-Kept id row file object cfg now))
            (λ _.
              Spares-bind_with AllStaging (attempt staging_entries) (sweep_files cfg now)
                (Spares-attempt _ (Spares-system _ (λ w k. k)))
                (λ w a e. subst AllStaging (ok_inj (staging_entries w).0 a e) (entries-Staging w))
                files-Kept))
        (λ e. Spares-pure tt)
