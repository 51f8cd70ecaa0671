-- ===== src/Server/Watch/Idle.antt =====
-- One poll of files whose size is not settled, and the sizes that it records.
use mathlib.Core.Path.{subst}
use groot_share.Prelude.{
  ℕ, ◌≢◌, ◌⊎◌, inl, inr, arith, sym, ◌∙◌, ◌==◌, ==_iff, text_eq_iff, Bool-cases, ◌≡◌, refl, ap,
  Text, text_eq, Bool, true, false, not, ◌||◌, List, [], ◌∷◌, Option, none, some, find, length, All,
}
use groot_share.Time.{Time}
use groot_share.Store.World.{
  World, M, Result, ok, err, Error, File, pure, choose, attempt, system, fails, step, at_path,
  ◌>>=◌,
}
use groot_share.Store.World.Runs.{bind-ok}
use groot_share.Server.Settings.{Settings}
use groot_share.Server.Watch.{
  Seen, assign, Entry, entries_of, Inbox, stable, file_size, size_of, sized, process_inbox_entry,
  process_entries, is_inbox_tar, polled, watch_once, prune, read_dir, listed,
}
use groot_share.Server.Watch.Entries.{Distinct, distinct-Distinct}

-- No poll before has recorded the size that the file of the path has, or it is zero.
abbrev pub Fresh : Seen → Option File → Text → Type 0
Fresh seen none path = Unit {0}
Fresh seen (some f) path = (seen path ≢ some (length f.body)) ⊎ (length f.body ≡ 0)

Fresh-stable :
    (prev : Option ℕ) (size : ℕ) → (prev ≢ some size) ⊎ (size ≡ 0) → stable prev size ≡ false
Fresh-stable none size h = refl
Fresh-stable (some n) size (inl other) = elim (Bool-cases (n == size)) [
  | inl e ↦ elim (other (ap some ((==_iff n size).0 e))) [ ]
  | inr e ↦ rw e refl
]
Fresh-stable (some n) size (inr z) = ground (arith, z)

-- What is recorded are sizes of files on the disk.
abbrev pub Recorded : List File → Seen → Type 0
Recorded disk seen =
    (p : Text) (n : ℕ)
    → seen p ≡ some n
    → (f : File) × (find (at_path p) disk ≡ some f) × (length f.body ≡ n)

-- The database, the disk and the bucket are the same.
abbrev pub Same : World → World → Type 0
Same w v = (v.db ≡ w.db) × (v.disk ≡ w.disk) × (v.bucket ≡ w.bucket)

-- A call that changes nothing but the sizes of the paths that `own` selects.
abbrev Watched : Seen → (Text → Bool) → World → Result Seen × World → Type 0
Watched seen own w r =
    Same w r.1
    × ((s : Seen) × (r.0 ≡ ok s)
        × ((p : Text) → own p ≡ false → s p ≡ seen p)
        × (Recorded w.disk seen → Recorded w.disk s))

module _ (error_text : Error → Text) (sha256 etag to_lower : Text → Text) (cfg : Settings)
    (ids : Text → List Text) (inbox : Inbox) where
  Recorded-size :
      (seen : Seen) (path : Text) (disk : List File) (f : File)
      → find (at_path path) disk ≡ some f
      → Recorded disk seen
      → Recorded disk (assign seen path (length f.body))
  Recorded-size seen path disk f e r p n h = elim (Bool-cases (text_eq path p)) [
    | inl same ↦ (
      f,
      subst (λ x. find (at_path x) disk ≡ some f) ((text_eq_iff path p).0 same) e,
      ground (arith, h, same),
    )
    | inr other ↦ r p n (ground (arith, h, other))
  ]

  sized-Watched :
      (seen : Seen) (path : Text) (now : Time) (w v : World) (failed : Bool) (found : Option File)
      → find (at_path path) w.disk ≡ found
      → Fresh seen found path
      → Same w v
      → Watched seen (text_eq path) w (
          (attempt (λ _. system failed v (size_of found, v))
              >>= sized error_text sha256 etag to_lower cfg ids inbox seen path now)
            w)
  sized-Watched seen path now w v true found e h s = (s, (seen, refl, λ p _. refl, λ r. r))
  sized-Watched seen path now w v false none e h s = (s, (seen, refl, λ p _. refl, λ r. r))
  sized-Watched seen path now w v false (some f) e h s =
      rw (Fresh-stable (seen path) (length f.body) h) (
        s,
        (
          assign seen path (length f.body),
          refl,
          λ p other. rw other refl,
          Recorded-size seen path w.disk f e,
        ),
      )

  process-Watched :
      (seen : Seen) (now : Time) (e : Entry) (w : World)
      → Fresh seen (find (at_path e.path) w.disk) e.path
      → Watched seen
          (text_eq e.path)
          w
          (process_inbox_entry error_text sha256 etag to_lower cfg ids inbox seen now e w)
  unfolding process_inbox_entry file_size
  process-Watched seen now e w h =
      go (e.is_dir || not (is_inbox_tar error_text sha256 etag to_lower cfg ids inbox e.name))
    where
      go :
          (skip : Bool)
          → Watched seen (text_eq e.path) w (
              choose skip
                (pure seen)
                (attempt (file_size e.path)
                  >>= sized error_text sha256 etag to_lower cfg ids inbox seen e.path now)
                w)
      go true = ((refl, refl, refl), (seen, refl, λ p _. refl, λ r. r))
      go false =
          sized-Watched seen e.path now w (step w) (fails w) (find (at_path e.path) w.disk) refl h
            (refl, refl, refl)

  Fresh-same :
      (seen s : Seen) (w v : World) (p : Text)
      → s p ≡ seen p
      → v.disk ≡ w.disk
      → Fresh seen (find (at_path p) w.disk) p
      → Fresh s (find (at_path p) v.disk) p
  Fresh-same seen s w v p e d h =
      subst (λ files. Fresh s (find (at_path p) files) p) (sym d) (go (find (at_path p) w.disk) h)
    where
      go : (f : Option File) → Fresh seen f p → Fresh s f p
      go none k = tt
      go (some f) (inl other) = inl (λ k. other (sym e ∙ k))
      go (some f) (inr z) = inr z

  still_waiting :
      (seen s : Seen) (w v : World) (e : Entry) (entries : List Entry)
      → ((p : Text) → text_eq e.path p ≡ false → s p ≡ seen p)
      → v.disk ≡ w.disk
      → All (λ (x : Entry). text_eq e.path x.path ≡ false) entries
      → All (λ (x : Entry). Fresh seen (find (at_path x.path) w.disk) x.path) entries
      → All (λ (x : Entry). Fresh s (find (at_path x.path) v.disk) x.path) entries
  still_waiting seen s w v e [] agree d other h = tt
  still_waiting seen s w v e (x ∷ entries) agree d (o, os) (h, hs) = (
    Fresh-same seen s w v x.path (agree x.path o) d h,
    still_waiting seen s w v e entries agree d os hs,
  )

  -- A loop, or a poll, that takes in nothing, and records sizes of the files that are there.
  abbrev pub Idle : Seen → World → Result Seen × World → Type 0
  Idle seen w r = Same w r.1 × ((s : Seen) → r.0 ≡ ok s → Recorded w.disk seen → Recorded w.disk s)

  entries-Idle :
      (seen : Seen) (now : Time) (entries : List Entry) (w : World)
      → Distinct entries
      → All (λ (e : Entry). Fresh seen (find (at_path e.path) w.disk) e.path) entries
      → Idle seen w
          (process_entries error_text sha256 etag to_lower cfg ids inbox seen now entries w)
  unfolding process_entries
  entries-Idle seen now [] w d h =
      ((refl, refl, refl), λ s e r. subst (Recorded w.disk) (ground (arith, e)) r)
  entries-Idle seen now (e ∷ entries) w (other, d) (h, hs) =
      let entry = process_inbox_entry error_text sha256 etag to_lower cfg ids inbox seen now e in
      let rest : Seen → M Seen =
        λ s. process_entries error_text sha256 etag to_lower cfg ids inbox s now entries in
      let ((db, disk, bucket), (s, done, agree, recorded)) = process-Watched seen now e w h in
      let v = (entry w).1 in
      let ((db', disk', bucket'), later) =
        entries-Idle s now entries v d (still_waiting seen s w v e entries agree disk other hs) in
      let e' = bind-ok entry rest w s v (ap (λ r. (r, v)) done) in
      (
        (rw e' (rw db' db), rw e' (rw disk' disk), rw e' (rw bucket' bucket)),
        λ t k r.
            subst (λ files. Recorded files t) disk
              (later t (sym (ap (λ x. x.0) e') ∙ k)
                (subst (λ files. Recorded files s) (sym disk) (recorded r))),
      )

  Recorded-prune :
      (disk : List File) (entries : List Entry) (s : Seen)
      → Recorded disk s
      → Recorded disk (prune error_text sha256 etag to_lower cfg ids inbox entries s)
  Recorded-prune disk entries s r p n h = r p n (ground (arith, h))

  polled-Idle :
      (seen : Seen) (now : Time) (w v : World) (entries : List Entry)
      → v.disk ≡ w.disk
      → Idle seen w
          (process_entries error_text sha256 etag to_lower cfg ids inbox seen now entries v)
      → Idle seen w (polled error_text sha256 etag to_lower cfg ids inbox seen now (ok entries) v)
  polled-Idle seen now w v entries d (h, r) =
      go (process_entries error_text sha256 etag to_lower cfg ids inbox seen now entries v).0 _ h r
    where
      go :
          (r : Result Seen) (u : World)
          → Same w u
          → ((s : Seen) → r ≡ ok s → Recorded w.disk seen → Recorded w.disk s)
          → Idle seen w (elim r as (λ _. Result Seen × World) [
            | ok s ↦ (ok (prune error_text sha256 etag to_lower cfg ids inbox entries s), u)
            | err x ↦ (err x, u)
          ])
      go (ok s) u k l = (
        k,
        λ t e rec.
            subst (Recorded w.disk) (ground (arith, e))
              (Recorded-prune w.disk entries s (l s refl rec)),
      )
      go (err x) u k l = (k, λ t e. cc)

  pub poll-Idle :
      (present : Bool) (seen : Seen) (now : Time) (w : World)
      → All
          (λ (e : Entry). Fresh seen (find (at_path e.path) w.disk) e.path)
          (entries_of inbox.dir w.disk)
      → Idle seen w (watch_once error_text sha256 etag to_lower cfg ids inbox present seen now w)
  unfolding watch_once read_dir
  poll-Idle present seen now w h = go (fails w) present
    where
      idle : Idle seen w (pure seen w)
      idle = ((refl, refl, refl), λ s e r. subst (Recorded w.disk) (ground (arith, e)) r)

      go :
          (failed there : Bool)
          → Idle seen w (
              (attempt (λ v. system failed (step w) (listed there inbox.dir w, step w))
                  >>= polled error_text sha256 etag to_lower cfg ids inbox seen now)
                w)
      go true there = ((refl, refl, refl), λ s e. cc)
      go false false = ((refl, refl, refl), λ s e r. subst (Recorded w.disk) (ground (arith, e)) r)
      go false true =
          polled-Idle seen now w (step w) (entries_of inbox.dir w.disk) refl
            (entries-Idle seen now (entries_of inbox.dir w.disk) (step w) (distinct-Distinct _) h)
