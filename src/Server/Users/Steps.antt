-- ===== src/Server/Users/Steps.antt =====
-- The steps that the handlers share, and the last active admin.
use groot_share.Prelude.{ℕ, ◌≡◌, refl, sym, Bool, Option, none, some, Text}
use mathlib.Core.Path.{subst}
use groot_share.Auth.{Role}
use groot_share.Auth.Secrets.{hashed_or}
use groot_share.Store.Types.{Db}
use groot_share.Store.World.{World, M, Result, ok, err, Error, pure, ◌>>◌}
use groot_share.Store.World.Laws.{Keeps, Keeps-attempt, Keeps-bind}
use groot_share.Store.Users.{guard_last_admin, update_user}
use groot_share.Store.Users.Admins.{HasAdmin, Harmless, guard-Harmless, update-HasAdmin}
use groot_share.Server.Users.{Reply, Request, record_user_audit, or_reply}
use groot_share.Store.Users.Kept.{insert_audit-HasAdmin}

-- A call whose error is answered: what each outcome leaves.
pub or_reply-at :
    {A : Type 0} (Q : Db → Type 0) (m : M A) (reply : Error → Reply) (k : A → M Reply) (w : World)
    → ((e : Error) → (m w).0 ≡ err e → Q (m w).1.db)
    → ((a : A) → (m w).0 ≡ ok a → Q (k a (m w).1).1.db)
    → Q (or_reply m reply k w).1.db
or_reply-at {A} Q m reply k w failed passed = go (m w).0 refl
  where
    go :
        (r : Result A)
        → (m w).0 ≡ r
        → Q ((elim r as (λ _. M Reply) [ ok a ↦ k a | err e ↦ pure (reply e) ]) (m w).1).1.db
    go (ok a) e = passed a e
    go (err x) e = failed x e

pub Keeps-or_reply :
    {A : Type 0} {Q : Db → Type 0} (m : M A) (reply : Error → Reply) (k : A → M Reply)
    → Keeps Q m
    → ((a : A) → Keeps Q (k a))
    → Keeps Q (or_reply m reply k)
Keeps-or_reply {Q = Q} m reply k km kk = record {
  at = λ w h. or_reply-at Q m reply k w (λ e _. km.at w h) (λ a _. (kk a).at (m w).1 (km.at w h));
}

-- The guard and then the update that it has let through.
pub guarded-HasAdmin :
    (id : ℕ) (role : Role) (active : Bool) (reply reply' : Error → Reply) (next : M Reply)
    → Keeps HasAdmin next
    → Keeps HasAdmin (
        or_reply
          (guard_last_admin id role active)
          reply
          λ _. or_reply (update_user id role active) reply' λ _. next)
guarded-HasAdmin id role active reply reply' next k = record {
  at = λ w h.
      let (same, passes) = guard-Harmless id role active w in
      let w' = (guard_last_admin id role active w).1 in
      let h' = subst HasAdmin (sym same) h in
      or_reply-at HasAdmin (guard_last_admin id role active) reply _ w (λ e _. h')
        λ a e.
          let (u, found, harmless) = passes e in
          let kept : HasAdmin (update_user id role active w').1.db =
            update-HasAdmin id u role active w' h' (rw same found)
              (subst (λ db. Harmless db u role active) (sym same) harmless) in
          or_reply-at HasAdmin (update_user id role active) reply' _ w' (λ e _. kept)
            λ a _. k.at (update_user id role active w').1 kept;
}

audit-HasAdmin :
    (r : Request) (action object_id object_key : Text)
    → Keeps HasAdmin (record_user_audit r action object_id object_key)
unfolding record_user_audit
audit-HasAdmin r action object_id object_key = Keeps-attempt _ (insert_audit-HasAdmin _ r.now)

pub then-HasAdmin :
    (r : Request) (action object_id object_key : Text) (next : M Reply)
    → Keeps HasAdmin next
    → Keeps HasAdmin (record_user_audit r action object_id object_key >> next)
then-HasAdmin r action object_id object_key next k =
    Keeps-bind (record_user_audit r action object_id object_key) (λ _. next)
      (audit-HasAdmin r action object_id object_key) (λ _. k)

pub Keeps-hashed : {Q : Db → Type 0} (h : Option Text) → Keeps Q (hashed_or h)
Keeps-hashed none = record { at = λ w q. q }
Keeps-hashed (some h) = record { at = λ w q. q }
