-- ===== src/Server/Keys/Laws.antt =====
-- What the revocation of a key leaves.
use groot_share.Prelude.{
  ℕ, ◌≡◌, ◌≢◌, arith, Text, codes, not, Option, none, some, find, inl, inr, Option-cases, keep_if,
  ◌==◌,
}
use mathlib.Core.Path.{subst}
use groot_share.Auth.{is_session}
use groot_share.Store.Types.{Db, ApiKey}
use groot_share.Store.Rows.{find-passes, find-kept, find-keep_found}
use groot_share.Store.World.{World, ok, query, exec}
use groot_share.Store.World.Laws.{
  Keeps, Keeps-exec, Keeps-bind, Keeps-choose, Keeps-pure, Keeps-raise, Keeps-attempt,
}
use groot_share.Store.Audit.{insert_audit}
use groot_share.Store.Users.{has_id, found_rows}
use groot_share.Store.ApiKeys.{
  ApiKeyAuth, auth_by_api_key_hash, has_hash, owned, delete_api_key, without_key,
}
use groot_share.Server.Users.{Request, record_user_audit}
use groot_share.Server.Actor.{Actor}
use groot_share.Server.Identity.Laws.{Keeps-or_answer}
use groot_share.Server.Keys.{settings_revoke_key, revoke_own, handle_delete_api_key, delete_own}

-- The row of a key is there.
abbrev pub HasKey : Text → ApiKey → Db → Type 0
HasKey key_hash k db = find (has_hash key_hash) db.api_keys ≡ some k

module _ (key_hash : Text) (k : ApiKey) where
  delete_api_key-HasKey :
      (id user_id : ℕ) → k.user_id ≢ user_id → Keeps (HasKey key_hash k) (delete_api_key id user_id)
  unfolding delete_api_key
  delete_api_key-HasKey id user_id other =
      Keeps-bind (exec (without_key id user_id)) found_rows
        (Keeps-exec (without_key id user_id) λ db n db' h e. ground (
          arith,
          e,
          find-keep_found (has_hash key_hash) (λ x. not (owned id user_id x)) db.api_keys k h,
        ))
        λ n. Keeps-choose (n == 0) _ _ (Keeps-raise _) (Keeps-pure _)

  record_user_audit-HasKey :
      (r : Request) (action object_id object_key : Text)
      → Keeps (HasKey key_hash k) (record_user_audit r action object_id object_key)
  unfolding record_user_audit insert_audit
  record_user_audit-HasKey r action object_id object_key =
      Keeps-attempt _ (Keeps-exec _ λ db a db' h e. ground (arith, h, e))

  delete_own-HasKey :
      (digits : ℕ → Text) (r : Request) (a : Actor) (id : Option ℕ)
      → k.user_id ≢ a.user.id
      → Keeps (HasKey key_hash k) (delete_own digits r a id)
  delete_own-HasKey digits r a none other = Keeps-pure _
  delete_own-HasKey digits r a (some id) other =
      Keeps-or_answer (delete_api_key id a.user.id) _ _ (delete_api_key-HasKey id a.user.id other)
        λ _.
          Keeps-bind (record_user_audit r (codes "apikey.revoke") (digits id) a.user.username) _
            (record_user_audit-HasKey r (codes "apikey.revoke") (digits id) a.user.username)
            λ _. Keeps-pure _

  revoke_own-HasKey :
      (digits : ℕ → Text) (r : Request) (a : Actor) (id : Option ℕ)
      → k.user_id ≢ a.user.id
      → Keeps (HasKey key_hash k) (revoke_own digits r a id)
  revoke_own-HasKey digits r a none other = Keeps-pure _
  revoke_own-HasKey digits r a (some id) other =
      Keeps-or_answer (delete_api_key id a.user.id) _ _ (delete_api_key-HasKey id a.user.id other)
        λ _.
          Keeps-bind (record_user_audit r (codes "apikey.revoke") (digits id) a.user.username) _
            (record_user_audit-HasKey r (codes "apikey.revoke") (digits id) a.user.username)
            λ _. Keeps-pure _

  -- On neither route to revoke a key, that of the API and that of the settings page, does a user
  -- revoke a key of another user: its row stays, whatever id is asked for and whatever fails.
  pub handle_delete_api_key-HasKey :
      (digits : ℕ → Text) (r : Request) (a : Actor) (id : Option ℕ) (w : World)
      → k.user_id ≢ a.user.id
      → find (has_hash key_hash) w.db.api_keys ≡ some k
      → (find (has_hash key_hash) (handle_delete_api_key digits r (some a) id w).1.db.api_keys
          ≡ some k)
        × (find (has_hash key_hash) (settings_revoke_key digits r (some a) id w).1.db.api_keys
            ≡ some k)
  unfolding handle_delete_api_key settings_revoke_key
  handle_delete_api_key-HasKey digits r a id w other h = (
    (Keeps-choose (is_session a.method) _ _ (delete_own-HasKey digits r a id other)
          (Keeps-pure _)).at
        w h,
    (Keeps-choose (is_session a.method) _ _ (revoke_own-HasKey digits r a id other)
          (Keeps-pure _)).at
        w h,
  )

-- Once a user has revoked a key, nobody is authenticated as that user by a key of that id.
pub delete_api_key-revoked :
    (id user_id : ℕ) (key_hash : Text) (w v : World) (ka : ApiKeyAuth)
    → (delete_api_key id user_id w).0 ≡ ok tt
    → v.db ≡ (delete_api_key id user_id w).1.db
    → (auth_by_api_key_hash key_hash v).0 ≡ ok ka
    → ¬ ((ka.key_id ≡ id) × (ka.user.id ≡ user_id))
unfolding delete_api_key auth_by_api_key_hash query exec
delete_api_key-revoked id user_id key_hash w v ka done same h (is_it, is_theirs) =
    elim (Option-cases (find (has_hash key_hash) v.db.api_keys)) [
      | inl e ↦ ground (arith, h, e)
      | inr (k, e) ↦ elim (Option-cases (find (has_id k.user_id) v.db.users)) [
        | inl e' ↦ ground (arith, h, e, e')
        | inr (u, e') ↦
            let left : v.db.api_keys ≡ keep_if (λ x. not (owned id user_id x)) w.db.api_keys =
              ground (arith, done, same) in
            let kept =
              find-kept (has_hash key_hash) (λ x. not (owned id user_id x)) w.db.api_keys k
                (subst (λ xs. find (has_hash key_hash) xs ≡ some k) left e) in
            let mine = find-passes (has_id k.user_id) v.db.users u e' in
            let auth : (ka.key_id ≡ k.id) × (ka.user ≡ u) = ground (arith, h, e, e') in
            ground (arith, kept, mine, auth, is_it, is_theirs)
      ]
    ]
