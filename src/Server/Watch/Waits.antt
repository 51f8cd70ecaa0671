-- ===== src/Server/Watch/Waits.antt =====
-- Polls of files whose size is not settled.
use groot_share.Prelude.{
  ◌≢◌, ◌⊎◌, inl, inr, arith, ◌≡◌, refl, Text, Bool, List, [], ◌∷◌, Option, none, some, find, length,
  All,
}
use groot_share.Time.{Time}
use groot_share.Store.World.{World, ok, Error, File, at_path}
use groot_share.Server.Settings.{Settings}
use groot_share.Server.Watch.{Seen, Entry, entries_of, Inbox, watch_once}
use groot_share.Server.Watch.Idle.{Same, Fresh, Recorded, poll-Idle}

-- The map before the first poll.
abbrev pub no_sizes : Seen
no_sizes p = none

-- The file of a path has another size in the second disk, or is new there, or is empty.
abbrev pub Changed : Option File → Option File → Type 0
Changed (some f) (some g) = (length f.body ≢ length g.body) ⊎ (length g.body ≡ 0)
Changed _ _ = Unit {0}

-- From the start of the watcher, the first poll takes in no file, removes none and writes nothing.
-- Nor does the second, if every file that is then in the inbox has another size than at the first
-- poll, or was not there, or is empty. Calls may fail in both, as long as the first returns.
pub watch_once-waits :
    (error_text : Error → Text) (sha256 etag to_lower : Text → Text) (cfg : Settings)
    (ids : Text → List Text) (inbox : Inbox) (present present' : Bool) (seen : Seen)
    (now now' : Time) (w v : World)
    → (watch_once error_text sha256 etag to_lower cfg ids inbox present no_sizes now w).0 ≡ ok seen
    → All
        (λ (e : Entry). Changed (find (at_path e.path) w.disk) (find (at_path e.path) v.disk))
        (entries_of inbox.dir v.disk)
    → Same w (watch_once error_text sha256 etag to_lower cfg ids inbox present no_sizes now w).1
      × Same v (watch_once error_text sha256 etag to_lower cfg ids inbox present' seen now' v).1
watch_once-waits error_text sha256 etag to_lower cfg ids inbox present present' seen now now' w v
      done changed =
    let (same, recorded) =
      poll-Idle error_text sha256 etag to_lower cfg ids inbox present no_sizes now w
        (all_fresh (entries_of inbox.dir w.disk)) in
    let (same', _) =
      poll-Idle error_text sha256 etag to_lower cfg ids inbox present' seen now' v
        (still_changed (recorded seen done (λ p n e. cc)) (entries_of inbox.dir v.disk) changed) in
    (same, same')
  where
    all_fresh :
        (entries : List Entry)
        → All (λ (e : Entry). Fresh no_sizes (find (at_path e.path) w.disk) e.path) entries
    all_fresh [] = tt
    all_fresh (e ∷ entries) = (one (find (at_path e.path) w.disk), all_fresh entries)
      where
        one : (f : Option File) → Fresh no_sizes f e.path
        one none = tt
        one (some f) = inl (λ k. cc)

    fresh_of :
        (p : Text) (f g : Option File)
        → Recorded w.disk seen
        → find (at_path p) w.disk ≡ f
        → Changed f g
        → Fresh seen g p
    fresh_of p f none r e c = tt
    fresh_of p none (some g) r e c =
        inl (λ k. let (x, found, _) = r p (length g.body) k in ground (arith, e, found))
    fresh_of p (some f) (some g) r e (inr z) = inr z
    fresh_of p (some f) (some g) r e (inl other) =
        inl (λ k.
          let (x, found, size) = r p (length g.body) k in ground (arith, e, found, size, other))

    still_changed :
        Recorded w.disk seen
        → (entries : List Entry)
        → All
            (λ (e : Entry). Changed (find (at_path e.path) w.disk) (find (at_path e.path) v.disk))
            entries
        → All (λ (e : Entry). Fresh seen (find (at_path e.path) v.disk) e.path) entries
    still_changed r [] c = tt
    still_changed r (e ∷ entries) (c, cs) = (
      fresh_of e.path (find (at_path e.path) w.disk) (find (at_path e.path) v.disk) r refl c,
      still_changed r entries cs,
    )
