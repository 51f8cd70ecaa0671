-- ===== src/Store/World/Spares.antt =====
-- Rules for what a chain of calls keeps of the database, the disk and the bucket, whatever fails.
use groot_share.Prelude.{Text, Bool, true, false, List, [], ◌∷◌, ◌≡◌, refl, ap, any, All}
use groot_share.Store.Types.{Db}
use groot_share.Store.World.{
  World, File, M, Result, ok, err, Error, pure, raise, attempt, choose, ◌>>=◌, each, query, exec,
  answer, commit, step, fails, remove_file, removed, removed_if, system, erase, at_path,
}

abbrev pub Part : Type 1
Part = Db → List File → List File → Type 0

abbrev pub Of : Part → World → Type 0
Of P w = P w.db w.disk w.bucket

pub record Spares {A : Type 0} (P : Part) (m : M A) : Type 0 where
  pub at : (w : World) → Of P w → Of P (m w).1

module _ {P : Part} {A : Type 0} where
  pub Spares-pure : (a : A) → Spares P (pure a)
  Spares-pure a = record { at = λ w h. h }

  pub Spares-raise : (e : Error) → Spares P (raise {A = A} e)
  Spares-raise e = record { at = λ w h. h }

  pub Spares-attempt : (m : M A) → Spares P m → Spares P (attempt m)
  Spares-attempt m k = record { at = λ w h. k.at w h }

  pub Spares-choose :
      (b : Bool) (m n : M A)
      → (b ≡ true → Spares P m)
      → (b ≡ false → Spares P n)
      → Spares P (choose b m n)
  Spares-choose true m n km kn = record { at = λ w h. (km refl).at w h }
  Spares-choose false m n km kn = record { at = λ w h. (kn refl).at w h }

  -- A call that may fail: what it does where it does not fail is what counts.
  pub Spares-system :
      (r : World → Result A × World)
      → ((w : World) → Of P w → Of P (r w).1)
      → Spares P (λ w. system (fails w) (step w) (r w))
  Spares-system r k = record { at = λ w h. go w h (fails w) }
    where
      go : (w : World) → Of P w → (b : Bool) → Of P (system b (step w) (r w)).1
      go w h true = h
      go w h false = k w h

  pub Spares-query : (q : Db → Result A) → Spares P (query q)
  unfolding query
  Spares-query q = record { at = λ w h. go w h (fails w) }
    where
      go : (w : World) → Of P w → (b : Bool) → Of P (answer b (q w.db) (step w)).1
      go w h true = h
      go w h false = h

  pub Spares-exec :
      (s : Db → Result (A × Db))
      → ((db : Db) (disk bucket : List File) (a : A) (db' : Db)
          → P db disk bucket
          → s db ≡ ok (a, db')
          → P db' disk bucket)
      → Spares P (exec s)
  unfolding exec
  Spares-exec s k = record { at = λ w h. go w h (fails w) (s w.db) refl }
    where
      go :
          (w : World)
          → Of P w
          → (b : Bool) (r : Result (A × Db)) → s w.db ≡ r
          → Of P (commit b r (step w)).1
      go w h true r e = h
      go w h false (ok (a, db)) e = k w.db w.disk w.bucket a db h e
      go w h false (err x) e = h

module _ {P : Part} {A B : Type 0} where
  pub Spares-bind :
      (m : M A) (f : A → M B) → Spares P m → ((a : A) → Spares P (f a)) → Spares P (m >>= f)
  Spares-bind m f km kf = record { at = λ w h. go (m w).0 (m w).1 (km.at w h) }
    where
      go :
          (r : Result A) (w' : World)
          → Of P w'
          → Of P (elim r as (λ _. Result B × World) [ ok a ↦ f a w' | err e ↦ (err e, w') ]).1
      go (ok a) w' h = (kf a).at w' h
      go (err e) w' h = h

module _ {P : Part} {A B : Type 0} where
  -- A call whose error is looked at.
  pub Spares-after :
      (m : M A) (f : Result A → M B)
      → Spares P m
      → ((a : A) → Spares P (f (ok a)))
      → ((e : Error) → Spares P (f (err e)))
      → Spares P (attempt m >>= f)
  Spares-after m f km ko ke =
      Spares-bind (attempt m) f (Spares-attempt m km)
        (λ r. elim r as (λ r. Spares P (f r)) [ ok a ↦ ko a | err e ↦ ke e ])

pub Spares-each :
    {P : Part} {A : Type 0} (f : A → M (Unit {0})) (xs : List A)
    → ((a : A) → Spares P (f a))
    → Spares P (each f xs)
unfolding each
Spares-each f [] k = Spares-pure tt
Spares-each f (x ∷ xs) k = Spares-bind (f x) (λ _. each f xs) (k x) (λ _. Spares-each f xs k)

pub Spares-remove_file :
    {P : Part} (p : Text)
    → ((db : Db) (disk bucket : List File) → P db disk bucket → P db (erase p disk) bucket)
    → Spares P (remove_file p)
unfolding remove_file
Spares-remove_file {P} p k = Spares-system (removed p) (λ w h. go w h (any (at_path p) w.disk))
  where
    go : (w : World) → Of P w → (b : Bool) → Of P (removed_if p w b).1
    go w h true = k w.db w.disk w.bucket h
    go w h false = h

-- A SELECT whose answer has a property where it is made, and what is done with the answer.
pub Spares-select :
    {P : Part} {A B : Type 0} (Q : A → Type 0) (q : Db → Result A) (f : A → M B)
    → ((db : Db) (disk bucket : List File) (a : A) → P db disk bucket → q db ≡ ok a → Q a)
    → ((a : A) → Q a → Spares P (f a))
    → Spares P (query q >>= f)
unfolding query
Spares-select {P} {A} {B} Q q f answers k = record { at = λ w h. go w h (fails w) (q w.db) refl }
  where
    go :
        (w : World)
        → Of P w
        → (b : Bool) (r : Result A) → q w.db ≡ r
        → Of P
            (elim (answer b r (step w)).0 as (λ _. Result B × World) [
              | ok a ↦ f a (answer b r (step w)).1
              | err e ↦ (err e, (answer b r (step w)).1)
            ]).1
    go w h true r e = h
    go w h false (ok a) e = (k a (answers w.db w.disk w.bucket a h e)).at (step w) h
    go w h false (err x) e = h

-- A call whose result has a property, whatever the world in which it is made.
pub Spares-bind_with :
    {P : Part} {A B : Type 0} (Q : A → Type 0) (m : M A) (f : A → M B)
    → Spares P m
    → ((w : World) (a : A) → (m w).0 ≡ ok a → Q a)
    → ((a : A) → Q a → Spares P (f a))
    → Spares P (m >>= f)
Spares-bind_with {P} {A} {B} Q m f km answers k = record { at = λ w h. go w h (m w).0 refl }
  where
    go :
        (w : World)
        → Of P w
        → (r : Result A) → (m w).0 ≡ r
        → Of P
            (elim r as (λ _. Result B × World) [ ok a ↦ f a (m w).1 | err e ↦ (err e, (m w).1) ]).1
    go w h (ok a) e = (k a (answers w a e)).at (m w).1 (km.at w h)
    go w h (err x) e = km.at w h

pub Spares-each_of :
    {P : Part} {A : Type 0} (Q : A → Type 0) (f : A → M (Unit {0})) (xs : List A)
    → All Q xs
    → ((a : A) → Q a → Spares P (f a))
    → Spares P (each f xs)
unfolding each
Spares-each_of Q f [] qs k = Spares-pure tt
Spares-each_of Q f (x ∷ xs) (q, qs) k =
    Spares-bind (f x) (λ _. each f xs) (k x q) (λ _. Spares-each_of Q f xs qs k)

pub ok_inj : {A : Type 0} (a b : A) → ok a ≡ ok b → a ≡ b
ok_inj a b e = ap (λ r. elim r [ ok x ↦ x | err _ ↦ a ]) e
