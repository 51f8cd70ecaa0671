-- ===== src/Store/World.antt =====
-- What a request works on: the database, the disk and the bucket, with the failures that the
-- environment has in store; and the calls that may fail.
pub mod Laws
pub mod Spares
pub mod Quiet
pub mod Runs
use groot_share.Prelude.{
  ℕ, Text, text_eq, Bool, true, false, not, List, [], ◌∷◌, Option, none, some, if◌then◌else◌, find,
  keep_if, any,
}
use groot_share.Time.{Time}
use groot_share.Store.Types.{Db, Archive}

-- The error values that callers tell apart. `failed` is any other error, of the database, the
-- disk or the bucket.
pub data Error : Type 0 where
  not_found last_admin share_not_found share_exhausted constraint failed : Error
  invalid empty_upload no_file object_missing : Error
  name_required name_too_long username_required username_too_long : Error
  duplicate : Archive → Error

pub data Result {ℓ} (A : Type ℓ) : Type ℓ where
  ok : A → Result A
  err : Error → Result A

-- A file of the home or staging directory, or an object of the bucket: its path or key, its
-- bytes, and the time of the last write.
pub record File : Type 0 where
  pub path : Text
  pub body : Text
  pub modified : Time

-- Each call to the database, the disk or the bucket takes the head of `faults`, and fails with no
-- effect where it is `true`. With no head left nothing fails. `listing` is the server's listCache
-- (internal/server/catalog.go), with the time at which it was filled.
pub record World : Type 0 where
  pub db : Db
  pub disk : List File
  pub bucket : List File
  pub listing : Option (List Archive × Time)
  pub faults : List Bool

abbrev pub M : Type 0 → Type 0
M A = World → Result A × World

module _ {A : Type 0} where
  abbrev pub pure : A → M A
  pure a w = (ok a, w)

  abbrev pub raise : Error → M A
  raise e w = (err e, w)

  -- `r, err := m`, where the code looks at the error.
  abbrev pub attempt : M A → M (Result A)
  attempt m w = let (r, w') = m w in (ok r, w')

  -- A branch of a handler.
  abbrev pub choose : Bool → M A → M A → M A
  choose true m n w = m w
  choose false m n w = n w

infixl 5 ◌>>=◌ ◌>>◌
abbrev pub ◌>>=◌ : {A B : Type 0} → M A → (A → M B) → M B
◌>>=◌ m f w = let (r, w') = m w in elim r [ ok a ↦ f a w' | err e ↦ (err e, w') ]

abbrev pub ◌>>◌ : {A B : Type 0} → M A → M B → M B
m >> k = m >>= λ _. k

-- A loop over a list.
unfoldable pub each : {A : Type 0} → (A → M (Unit {0})) → List A → M (Unit {0})
each f [] = pure tt
each f (a ∷ rest) = f a >> each f rest

abbrev next_fault : List Bool → Bool
next_fault [] = false
next_fault (f ∷ fs) = f

abbrev later_faults : List Bool → List Bool
later_faults [] = []
later_faults (f ∷ fs) = fs

-- Whether the next call fails, and the world in which it is made.
abbrev pub fails : World → Bool
fails w = next_fault w.faults

abbrev pub step : World → World
step w = record w { faults = later_faults w.faults }

module _ {A : Type 0} where
  abbrev pub answer : Bool → Result A → World → Result A × World
  answer true r w = (err failed, w)
  answer false r w = (r, w)

  -- A SELECT.
  unfoldable pub query : (Db → Result A) → M A
  query q w = answer (fails w) (q w.db) (step w)

  abbrev pub commit : Bool → Result (A × Db) → World → Result A × World
  commit true r w = (err failed, w)
  commit false (ok (a, db)) w = (ok a, record w { db = db })
  commit false (err e) w = (err e, w)

  -- A statement that writes, or a transaction: all of it happens, or nothing.
  unfoldable pub exec : (Db → Result (A × Db)) → M A
  exec s w = commit (fails w) (s w.db) (step w)

-- Files by path.
abbrev pub at_path : Text → File → Bool
at_path p f = text_eq f.path p

abbrev pub erase : Text → List File → List File
erase p = keep_if (λ f. not (at_path p f))

abbrev pub write : File → List File → List File
write f files = f ∷ erase f.path files

-- A call to the operating system, with the effect that it has if it does not fail.
abbrev pub system : {A : Type 0} → Bool → World → Result A × World → Result A × World
system true w r = (err failed, w)
system false w r = r

abbrev pub removed_if : Text → World → Bool → Result (Unit {0}) × World
removed_if p w true = (ok tt, record (step w) { disk = erase p w.disk })
removed_if p w false = (err no_file, step w)

abbrev pub removed : Text → World → Result (Unit {0}) × World
removed p w = removed_if p w (any (at_path p) w.disk)

-- os.Remove
unfoldable pub remove_file : Text → M (Unit {0})
remove_file p w = system (fails w) (step w) (removed p w)

abbrev pub created_if : Text → Time → World → Bool → Result (Unit {0}) × World
created_if p now w true = (err failed, step w)
created_if p now w false = (
  ok tt,
  record (step w) { disk = write (record { path = p; body = []; modified = now }) w.disk },
)

abbrev pub created : Text → Time → World → Result (Unit {0}) × World
created p now w = created_if p now w (any (at_path p) w.disk)

-- os.OpenFile with O_CREATE and O_EXCL
unfoldable pub create_file : Text → Time → M (Unit {0})
create_file p now w = system (fails w) (step w) (created p now w)

-- Writing to an open file; what a failed call has written is left out.
unfoldable pub fill_file : Text → Text → Time → M (Unit {0})
fill_file p body now w = system (fails w) (step w) (
  ok tt,
  record (step w) { disk = write (record { path = p; body = body; modified = now }) w.disk },
)

-- A call that may fail and does nothing that the model sees.
unfoldable pub may_fail : M (Unit {0})
may_fail w = system (fails w) (step w) (ok tt, step w)

abbrev opened : Option File → Result File
opened none = err no_file
opened (some f) = ok f

-- os.Open and reading it to the end.
unfoldable pub open_file : Text → M File
open_file p w = system (fails w) (step w) (opened (find (at_path p) w.disk), step w)

abbrev moved : Option File → Text → World → Result (Unit {0}) × World
moved none q w = (err no_file, w)
moved (some f) q w =
    (ok tt, record w { disk = write (record f { path = q }) (erase f.path w.disk) })

-- os.Rename
unfoldable pub rename_file : Text → Text → M (Unit {0})
rename_file p q w = system (fails w) (step w) (moved (find (at_path p) w.disk) q (step w))
