-- ===== src/Auth/Laws.antt =====
-- The permission matrix: the order of the roles, and API keys.
use groot_share.Prelude.{ℕ, ◌≤◌, ◌≡◌, refl, true, false, arith}
use groot_share.Auth.{
  Role, viewer, uploader, admin, Permission, archives_delete, users_manage, api_keys_manage,
  shares_manage, AuthMethod, api_key, KeyScope, can,
}

-- The tiers; an unknown role stands below all of them.
abbrev rank : Role → ℕ
rank (Role.other t) = 0
rank viewer = 1
rank uploader = 2
rank admin = 3

-- What a role may do by some method and scope, every role of at least its rank may do too.
can_mono :
    (r r' : Role) (p : Permission) (m : AuthMethod) (s : KeyScope)
    → can r p m s ≡ true
    → rank r ≤ rank r'
    → can r' p m s ≡ true
unfolding can
can_mono r r' p api_key s h le = ground arith
can_mono r r' p _ s h le = ground arith

-- No API key deletes archives or manages users, keys or shares, whatever its role and scope.
can-api_key_never :
    (r : Role) (s : KeyScope)
    → (can r archives_delete api_key s ≡ false)
      × (can r users_manage api_key s ≡ false)
      × (can r api_keys_manage api_key s ≡ false)
      × (can r shares_manage api_key s ≡ false)
unfolding can
can-api_key_never r s = (refl, refl, refl, refl)
