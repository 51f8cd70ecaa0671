-- ===== src/Store/World/Runs.antt =====
-- What a chain of calls that has returned a result went through.
use groot_share.Prelude.{Bool, true, false, ◌≡◌, refl, ap}
use groot_share.Store.World.{World, M, Result, ok, err, Error, raise, choose, ◌>>=◌}

-- `m` returned `value` in world `w`, and left the world `after`.
pub record Returned {A : Type 0} (m : M A) (w : World) (value : A) (after : World) : Type 0 where
  pub result : (m w).0 ≡ ok value
  pub world : (m w).1 ≡ after

-- The first call of a chain that has returned.
pub record First {A B : Type 0} (m : M A) (f : A → M B) (w : World) (b : B) (after : World)
    : Type 0 where
  pub value : A
  pub result : (m w).0 ≡ ok value
  pub rest : Returned (f value) (m w).1 b after

module _ {A B : Type 0} where
  pub bind-First :
      (m : M A) (f : A → M B) (w : World) (b : B) (after : World)
      → Returned (m >>= f) w b after
      → First m f w b after
  bind-First m f w b after h = go (m w).0 refl (h.result, h.world)
    where
      go :
          (r : Result A)
          → (m w).0 ≡ r
          → let s = elim r as (λ _. Result B × World) [
            | ok a ↦ f a (m w).1
            | err e ↦ (err e, (m w).1)
          ] in
            (s.0 ≡ ok b) × (s.1 ≡ after) → First m f w b after
      go (ok a) e (k, l) = record { value = a; result = e; rest = record { result = k; world = l } }
      go (err x) e (k, l) = cc

pub choose-false :
    {A : Type 0} (t : Bool) (e : Error) (m : M A) (w : World) (a : A) (after : World)
    → Returned (choose t (raise e) m) w a after
    → (t ≡ false) × Returned m w a after
choose-false true e m w a after h = go h.result
  where
    go : err e ≡ ok a → (true ≡ false) × Returned m w a after
    go k = cc
choose-false false e m w a after h = (refl, h)

pub bind-ok :
    {A B : Type 0} (m : M A) (f : A → M B) (w : World) (a : A) (after : World)
    → m w ≡ (ok a, after)
    → (m >>= f) w ≡ f a after
bind-ok {A} {B} m f w a after e =
    ap (λ r. elim r.0 as (λ _. Result B × World) [ ok x ↦ f x r.1 | err x ↦ (err x, r.1) ]) e
