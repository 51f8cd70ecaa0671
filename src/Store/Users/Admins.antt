-- ===== src/Store/Users/Admins.antt =====
-- What the guard lets through, and what an update that it has let through leaves.
use groot_share.Prelude.{
  ℕ, ◌≤◌, ◌≡◌, refl, ◌⊎◌, inl, inr, Bool, true, false, ◌&&◌, some, find, update_if, count_if, arith,
  Option-cases,
}
use groot_share.Auth.{Role, is_admin}
use groot_share.Store.Types.{User, Db}
use groot_share.Store.Rows.{IsUnique, count-update, count-update_if}
use groot_share.Store.World.{World, ok, exec, query}
use groot_share.Store.Users.{has_id, is_active_admin, active_admins, guard_last_admin, update_user}

-- User ids are a primary key below the next one to give out, and some user is an active admin.
pub record HasAdmin (db : Db) : Type 0 where
  pub unique : (id : ℕ) → IsUnique (has_id id) db.users
  pub present : 1 ≤ active_admins db
  pub fresh : (id : ℕ) → db.next_user ≤ id → count_if (has_id id) db.users ≡ 0

-- What the guard has checked when it lets a change of user `u` through.
abbrev pub Harmless : Db → User → Role → Bool → Type 0
Harmless db u role active =
    (is_active_admin u ≡ false) ⊎ ((active && is_admin role) ≡ true) ⊎ (2 ≤ active_admins db)

-- The guard changes nothing in the database, and passes harmless changes of existing users only.
pub guard-Harmless :
    (id : ℕ) (role : Role) (active : Bool) (w : World)
    → ((guard_last_admin id role active w).1.db ≡ w.db)
      × ((guard_last_admin id role active w).0 ≡ ok tt
          → (u : User) × (find (has_id id) w.db.users ≡ some u) × Harmless w.db u role active)
unfolding guard_last_admin query
guard-Harmless id role active w = (
  ground arith,
  λ done. elim (Option-cases (find (has_id id) w.db.users)) [
    | inl e ↦ ground arith
    | inr (u, e) ↦ (u, e, ground arith)
  ],
)

-- What a harmless update of an existing user leaves.
pub Harmless-update :
    (db : Db) (id : ℕ) (u : User) (role : Role) (active : Bool)
    → HasAdmin db
    → find (has_id id) db.users ≡ some u
    → Harmless db u role active
    → 1
      ≤ count_if is_active_admin
          (update_if (has_id id) (λ x. record x { role = role; active = active }) db.users)
Harmless-update db id u role active h e harmless = ground (
  arith,
  h.present,
  count-update (has_id id) is_active_admin (λ x. record x { role = role; active = active }) db.users
      u (h.unique id) e,
)

pub update-HasAdmin :
    (id : ℕ) (u : User) (role : Role) (active : Bool) (w : World)
    → HasAdmin w.db
    → find (has_id id) w.db.users ≡ some u
    → Harmless w.db u role active
    → HasAdmin (update_user id role active w).1.db
unfolding update_user exec
update-HasAdmin id u role active w h e harmless = record {
  unique = λ k. ground (
    arith,
    h.unique k,
    count-update_if (has_id k) (has_id id) (λ x. record x { role = role; active = active })
        (λ x. refl) w.db.users,
  );
  present = ground (arith, h.present, Harmless-update w.db id u role active h e harmless);
  fresh = λ k below. ground (
    arith,
    below,
    h.fresh k,
    count-update_if (has_id k) (has_id id) (λ x. record x { role = role; active = active })
        (λ x. refl) w.db.users,
  );
}
