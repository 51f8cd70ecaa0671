-- ===== src/Store/World/Laws.antt =====
-- Rules for what a chain of calls keeps of the database, whatever fails.
use groot_share.Prelude.{Text, Bool, true, false, ◌≡◌, refl, arith, sym}
use mathlib.Core.Path.{subst}
use groot_share.Store.Types.{Db}
use groot_share.Store.World.{
  may_fail, World, M, Result, ok, err, Error, pure, raise, attempt, choose, ◌>>=◌, query, exec,
  commit, step, fails, remove_file, open_file, rename_file,
}

-- `m` keeps `P` of the database, whether it returns or fails.
pub record Keeps {A : Type 0} (P : Db → Type 0) (m : M A) : Type 0 where
  pub at : (w : World) → P w.db → P (m w).1.db

module _ {A : Type 0} where
  pub db-query : (q : Db → Result A) (w : World) → (query q w).1.db ≡ w.db
  unfolding query
  db-query q w = ground arith

abbrev Written : {A : Type 0} → (Db → Type 0) → Result (A × Db) → Type 0
Written P (ok (a, db)) = P db
Written P (err e) = Unit {0}

module _ {A : Type 0} where
  commit-Keeps :
      (P : Db → Type 0) (b : Bool) (r : Result (A × Db)) (w : World)
      → P w.db
      → Written P r
      → P (commit b r w).1.db
  commit-Keeps P true r w h k = h
  commit-Keeps P false (ok (a, db)) w h k = k
  commit-Keeps P false (err e) w h k = h

module _ {A : Type 0} {P : Db → Type 0} where
  pub Keeps-pure : (a : A) → Keeps P (pure a)
  Keeps-pure a = record { at = λ w h. h }

  pub Keeps-raise : (e : Error) → Keeps P (raise {A = A} e)
  Keeps-raise e = record { at = λ w h. h }

  pub Keeps-attempt : (m : M A) → Keeps P m → Keeps P (attempt m)
  Keeps-attempt m k = record { at = λ w h. k.at w h }

  pub Keeps-choose : (b : Bool) (m n : M A) → Keeps P m → Keeps P n → Keeps P (choose b m n)
  Keeps-choose true m n km kn = record { at = λ w h. km.at w h }
  Keeps-choose false m n km kn = record { at = λ w h. kn.at w h }

  -- A call that leaves the database as it is.
  pub Keeps-same : (m : M A) → ((w : World) → (m w).1.db ≡ w.db) → Keeps P m
  Keeps-same m same = record { at = λ w h. subst P (sym (same w)) h }

  pub Keeps-query : (q : Db → Result A) → Keeps P (query q)
  Keeps-query q = Keeps-same (query q) (db-query q)

  -- A statement keeps what it keeps where it succeeds.
  pub Keeps-exec :
      (s : Db → Result (A × Db))
      → ((db : Db) (a : A) (db' : Db) → P db → s db ≡ ok (a, db') → P db')
      → Keeps P (exec s)
  unfolding exec
  Keeps-exec s k = record {
    at = λ w h. commit-Keeps P (fails w) (s w.db) (step w) h (written w h (s w.db) refl);
  }
    where
      written : (w : World) → P w.db → (r : Result (A × Db)) → s w.db ≡ r → Written P r
      written w h (ok (a, db)) e = k w.db a db h e
      written w h (err e') e = tt

-- The same at one world, where more is known of it.
pub exec-at :
    {A : Type 0} (P : Db → Type 0) (s : Db → Result (A × Db)) (w : World)
    → P w.db
    → ((a : A) (db : Db) → s w.db ≡ ok (a, db) → P db)
    → P (exec s w).1.db
unfolding exec
exec-at {A} P s w h k = commit-Keeps P (fails w) (s w.db) (step w) h (written (s w.db) refl)
  where
    written : (r : Result (A × Db)) → s w.db ≡ r → Written P r
    written (ok (a, db)) e = k a db e
    written (err x) e = tt

pub bind-at :
    {A B : Type 0} (P : Db → Type 0) (m : M A) (f : A → M B) (w : World)
    → ((e : Error) → (m w).0 ≡ err e → P (m w).1.db)
    → ((a : A) → (m w).0 ≡ ok a → P (f a (m w).1).1.db)
    → P ((m >>= f) w).1.db
bind-at {A} {B} P m f w failed passed = go (m w).0 refl
  where
    go :
        (r : Result A)
        → (m w).0 ≡ r
        → P
            (elim r as (λ _. Result B × World) [
              | ok a ↦ f a (m w).1
              | err e ↦ (err e, (m w).1)
            ]).1.db
    go (ok a) e = passed a e
    go (err x) e = failed x e

module _ {A B : Type 0} {P : Db → Type 0} where
  pub Keeps-bind :
      (m : M A) (f : A → M B) → Keeps P m → ((a : A) → Keeps P (f a)) → Keeps P (m >>= f)
  Keeps-bind m f km kf = record { at = λ w h. go (m w).0 (m w).1 (km.at w h) }
    where
      go :
          (r : Result A) (w' : World)
          → P w'.db
          → P (elim r as (λ x. Result B × World) [ ok a ↦ f a w' | err e ↦ (err e, w') ]).1.db
      go (ok a) w' h = (kf a).at w' h
      go (err e) w' h = h

pub db-remove_file : (p : Text) (w : World) → (remove_file p w).1.db ≡ w.db
unfolding remove_file
db-remove_file p w = ground arith

pub db-open_file : (p : Text) (w : World) → (open_file p w).1.db ≡ w.db
unfolding open_file
db-open_file p w = ground arith

pub db-rename_file : (p q : Text) (w : World) → (rename_file p q w).1.db ≡ w.db
unfolding rename_file
db-rename_file p q w = ground arith

pub ruleset keeps_rules =
    (Keeps-pure, Keeps-raise, Keeps-attempt, Keeps-choose, Keeps-query, Keeps-bind)

db-may_fail : (w : World) → (may_fail w).1.db ≡ w.db
unfolding may_fail
db-may_fail w = ground arith

pub Keeps-may_fail : {Q : Db → Type 0} → Keeps Q may_fail
Keeps-may_fail = Keeps-same may_fail db-may_fail
