-- ===== src/Store/World/Quiet.antt =====
-- Calls that leave the database as it is, and what their results satisfy.
use groot_share.Prelude.{Bool, true, false, ◌≡◌}
use groot_share.Store.Types.{Db}
use groot_share.Store.World.{World, M, Result, ok, err, Error, pure, raise, choose, ◌>>=◌}
use groot_share.Store.World.Spares.{Spares}

-- The result, where there is one.
abbrev pub Post : {A : Type 0} → (A → Type 0) → Result A → Type 0
Post Q (ok a) = Q a
Post Q (err e) = Unit {0}

pub record Quiet {A : Type 0} (db : Db) (Q : A → Type 0) (m : M A) : Type 0 where
  pub at : (w : World) → w.db ≡ db → ((m w).1.db ≡ db) × Post Q (m w).0

module _ {A : Type 0} {db : Db} {Q : A → Type 0} where
  pub Quiet-pure : (a : A) → Q a → Quiet db Q (pure a)
  Quiet-pure a q = record { at = λ w h. (h, q) }

  pub Quiet-raise : (e : Error) → Quiet db Q (raise e)
  Quiet-raise e = record { at = λ w h. (h, tt) }

  pub Quiet-choose :
      (b : Bool) (m n : M A) → Quiet db Q m → Quiet db Q n → Quiet db Q (choose b m n)
  Quiet-choose true m n km kn = record { at = λ w h. km.at w h }
  Quiet-choose false m n km kn = record { at = λ w h. kn.at w h }

module _ {A : Type 0} {db : Db} where
  pub Quiet-Spares : (m : M A) → Spares (λ db' _ _. db' ≡ db) m → Quiet db (λ _. Unit {0}) m
  Quiet-Spares m s = record { at = λ w h. (s.at w h, any (m w).0) }
    where
      any : (r : Result A) → Post (λ _. Unit {0}) r
      any (ok a) = tt
      any (err e) = tt

module _ {A B : Type 0} {db : Db} {Q : B → Type 0} where
  pub Quiet-bind :
      (R : A → Type 0) (m : M A) (f : A → M B)
      → Quiet db R m
      → ((a : A) → R a → Quiet db Q (f a))
      → Quiet db Q (m >>= f)
  Quiet-bind R m f km kf = record { at = λ w h. go (m w).0 (m w).1 (km.at w h) }
    where
      go :
          (r : Result A) (w' : World)
          → (w'.db ≡ db) × Post R r
          → let (s, v) = elim r as (λ _. Result B × World) [
            | ok a ↦ f a w'
            | err e ↦ (err e, w')
          ] in
            (v.db ≡ db) × Post Q s
      go (ok a) w' (h, q) = (kf a q).at w' h
      go (err e) w' (h, _) = (h, tt)
