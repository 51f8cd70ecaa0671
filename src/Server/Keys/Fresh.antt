-- ===== src/Server/Keys/Fresh.antt =====
-- A key that has been created, and the requests that present it.
use groot_share.Prelude.{
  ℕ, ◌≡◌, ◌<◌, ◌/◌, ◌%◌, refl, arith, Text, codes, Bool, true, false, List, [], ◌∷◌, ◌++◌, Option,
  none, some, find, inl, inr, ◌⊎◌, All, text_eq_refl,
}
use groot_share.Time.{blank}
use groot_share.Auth.{
  is_api_key, KeyScope, api_key, ScopeCheck, granted, bad_scope, forbidden_scope, check_scope,
}
use groot_share.Auth.Secrets.{new_api_key, hex_encode, hex_digit, extract_key, FreshKey}
use groot_share.Store.Types.{User, ApiKey}
use groot_share.Store.World.{World, M, Result, ok, fails, query, exec, may_fail, pure, choose}
use groot_share.Store.Names.{trim_space, trim_left, trim_right, is_space}
use groot_share.Store.Users.{has_id}
use groot_share.Store.ApiKeys.{auth_by_api_key_hash, create_api_key, insert_api_key}
use groot_share.Server.Identity.Laws.{or_answer-at, db-may_fail}
use groot_share.Server.Keys.{
  KeyReply, created_key, internal, stored_key, scoped_key, create_api_key_for_user,
  handle_create_api_key, requested_scope, ScopeBody,
}
use groot_share.Server.Actor.{Actor, Credentials, actor_from_request}

abbrev pub Solid : Text → Type 0
Solid = All (λ c. is_space c ≡ false)

trim_left-Solid : (s : Text) → Solid s → trim_left is_space s ≡ s
unfolding trim_left
trim_left-Solid [] h = refl
trim_left-Solid (c ∷ s) (h, _) = rw h refl

trim_right-Solid : (s : Text) → Solid s → trim_right is_space s ≡ s
unfolding trim_right
trim_right-Solid [] h = refl
trim_right-Solid (c ∷ []) (h, _) = rw h refl
trim_right-Solid (c ∷ d ∷ s) (h, k) = rw (trim_right-Solid (d ∷ s) k) refl

trim_space-Solid : (s : Text) → Solid s → trim_space s ≡ s
unfolding trim_space
trim_space-Solid s h = rw (trim_left-Solid s h) (trim_right-Solid s h)

hex_digit-solid : (d : ℕ) → d < 16 → is_space (hex_digit d) ≡ false
hex_digit-solid d h = ground arith

hex_encode-Solid : (bytes : List ℕ) → All (λ b. b < 256) bytes → Solid (hex_encode bytes)
unfolding hex_encode
hex_encode-Solid [] h = tt
hex_encode-Solid (b ∷ bytes) (h, hs) = (
  hex_digit-solid (b / 16) (omega arith),
  (hex_digit-solid (b % 16) (omega arith), hex_encode-Solid bytes hs),
)

extract-shown :
    (header authorization : Text) (c : ℕ) (key : Text)
    → trim_space header ≡ c ∷ key
    → extract_key header authorization ≡ c ∷ key
unfolding extract_key
extract-shown header authorization c key e = ground (arith, e)

-- The key that was shown is the key that is read from the header.
extract-new_api_key :
    (sha256_hex : Text → Text) (bytes : List ℕ) (authorization : Text)
    → All (λ b. b < 256) bytes
    → extract_key (new_api_key sha256_hex bytes).raw authorization
      ≡ (new_api_key sha256_hex bytes).raw
unfolding new_api_key
extract-new_api_key sha256_hex bytes authorization h =
    extract-shown (codes "gfs_" ++ hex_encode bytes) authorization b'g' _ (
      trim_space-Solid (codes "gfs_" ++ hex_encode bytes)
        (refl, (refl, (refl, (refl, hex_encode-Solid bytes h)))))

abbrev fresh_row : ℕ → ℕ → Text → Text → KeyScope → ApiKey
fresh_row id user_id key_hash prefix scope = record {
  id = id;
  user_id = user_id;
  key_hash = key_hash;
  prefix = prefix;
  scope = scope;
  last_used_at = blank;
}

create_api_key-db :
    (user_id : ℕ) (key_hash prefix : Text) (scope : KeyScope) (w : World)
    → (create_api_key user_id key_hash prefix scope w).0 ≡ ok tt
    → ((create_api_key user_id key_hash prefix scope w).1.db.users ≡ w.db.users)
      × ((create_api_key user_id key_hash prefix scope w).1.db.api_keys
          ≡ fresh_row w.db.next_key user_id key_hash prefix scope ∷ w.db.api_keys)
unfolding create_api_key insert_api_key exec
create_api_key-db user_id key_hash prefix scope w done = ground (arith, done)

-- The answer to a request for a key.
abbrev pub key_made : Result KeyReply → Option (FreshKey × KeyScope)
key_made (ok (created_key k s)) = some (k, s)
key_made _ = none

module _ (sha256_hex : Text → Text) (bytes : List ℕ) (user_id : ℕ) (scope : KeyScope)
    (w : World) where
  -- What has happened when a key is shown.
  record Made (r : Result KeyReply × World) : Type 0 where
    before : World
    same : before.db ≡ w.db
    made : key_made r.0 ≡ some (new_api_key sha256_hex bytes, scope)
    stored :
        (create_api_key user_id
          (new_api_key sha256_hex bytes).hash
          (new_api_key sha256_hex bytes).prefix
          scope
          before).0
        ≡ ok tt
    after :
        r.1
        ≡ (create_api_key user_id
            (new_api_key sha256_hex bytes).hash
            (new_api_key sha256_hex bytes).prefix
            scope
            before).1

  scoped_key-Made :
      (check : ScopeCheck)
      → (key_made (scoped_key sha256_hex user_id scope bytes check w).0 ≡ none)
        ⊎ ((check ≡ granted) × Made (scoped_key sha256_hex user_id scope bytes check w))
  scoped_key-Made bad_scope = inl refl
  scoped_key-Made forbidden_scope = inl refl
  scoped_key-Made granted =
      or_answer-at (λ r. (key_made r.0 ≡ none) ⊎ ((granted ≡ granted) × Made r)) may_fail
        (λ _. internal) (λ _. stored_key sha256_hex user_id scope (new_api_key sha256_hex bytes)) w
        (λ _ _. inl refl)
        λ _ _.
          let k = new_api_key sha256_hex bytes in
          or_answer-at (λ r. (key_made r.0 ≡ none) ⊎ ((granted ≡ granted) × Made r))
            (create_api_key user_id k.hash k.prefix scope) (λ _. internal)
            (λ _. pure (created_key k scope)) (may_fail w).1 (λ _ _. inl refl)
            λ _ e. inr (
              refl,
              record {
                before = (may_fail w).1;
                same = db-may_fail w;
                made = refl;
                stored = e;
                after = refl;
              },
            )

-- A request that presents a key whose row is on top of the table.
key-actor :
    (sha256_hex : Text → Text) (q : Credentials) (c : ℕ) (key : Text) (k : ApiKey)
    (rest : List ApiKey) (v : World) (u : User)
    → extract_key q.x_api_key q.authorization ≡ c ∷ key
    → v.db.api_keys ≡ k ∷ rest
    → k.key_hash ≡ sha256_hex (c ∷ key)
    → find (has_id k.user_id) v.db.users ≡ some u
    → u.active ≡ true
    → fails v ≡ false
    → (actor_from_request sha256_hex q v).0
      ≡ ok (some (record { user = u; method = api_key; key_scope = k.scope }))
unfolding actor_from_request auth_by_api_key_hash query
key-actor sha256_hex q c key k rest v u shown top hash owner active fine =
    ground (arith, shown, top, hash, owner, active, fine, text_eq_refl (sha256_hex (c ∷ key)))

Made-actor :
    (sha256_hex : Text → Text) (bytes : List ℕ) (scope s : KeyScope) (w v : World) (k : FreshKey)
    (u : User) (q : Credentials) (r : Result KeyReply × World)
    → All (λ b. b < 256) bytes
    → u.active ≡ true
    → find (has_id u.id) w.db.users ≡ some u
    → Made sha256_hex bytes u.id s w r
    → key_made r.0 ≡ some (k, scope)
    → v.db ≡ r.1.db
    → fails v ≡ false
    → q.x_api_key ≡ k.raw
    → ((actor_from_request sha256_hex q v).0
        ≡ ok (some (record { user = u; method = api_key; key_scope = scope })))
      × (scope ≡ s)
unfolding new_api_key
Made-actor sha256_hex bytes scope s w v k u q r small active owner m h same fine shown =
    let made : (k ≡ new_api_key sha256_hex bytes) × (scope ≡ s) = ground (arith, h, m.made) in
    let (users, keys) =
      create_api_key-db u.id (new_api_key sha256_hex bytes).hash
        (new_api_key sha256_hex bytes).prefix s m.before m.stored in
    let presented : extract_key q.x_api_key q.authorization ≡ codes "gfs_" ++ hex_encode bytes =
      rw shown (rw (made.0) (extract-new_api_key sha256_hex bytes q.authorization small)) in
    (
      rw (made.1) (
          key-actor sha256_hex q b'g' _
            (fresh_row m.before.db.next_key u.id (new_api_key sha256_hex bytes).hash
              (new_api_key sha256_hex bytes).prefix s)
            m.before.db.api_keys v u presented (rw same (rw m.after keys)) refl
            (rw same (rw m.after (rw users (rw m.same owner)))) active fine),
      made.1,
    )

-- A key that the handler shows makes whoever presents it in the header X-API-Key its creator, with
-- the scope that was granted, as long as the database stays as the request left it.
pub handle_create_api_key-actor :
    (sha256_hex : Text → Text) (a : Actor) (body : ScopeBody) (bytes : List ℕ) (w v : World)
    (k : FreshKey) (scope : KeyScope) (q : Credentials)
    → All (λ b. b < 256) bytes
    → a.user.active ≡ true
    → find (has_id a.user.id) w.db.users ≡ some a.user
    → key_made (handle_create_api_key sha256_hex (some a) body bytes w).0 ≡ some (k, scope)
    → v.db ≡ (handle_create_api_key sha256_hex (some a) body bytes w).1.db
    → fails v ≡ false
    → q.x_api_key ≡ k.raw
    → ((actor_from_request sha256_hex q v).0
        ≡ ok (some (record { user = a.user; method = api_key; key_scope = scope })))
      × (check_scope a.user.role scope ≡ granted)
unfolding handle_create_api_key create_api_key_for_user
handle_create_api_key-actor sha256_hex a body bytes w v k scope q small active owner h same fine
      shown =
    go (is_api_key a.method) h same
  where
    checked : ScopeCheck
    checked = check_scope a.user.role (requested_scope body)

    made : M KeyReply
    made = scoped_key sha256_hex a.user.id (requested_scope body) bytes checked

    go :
        (by_key : Bool)
        → key_made (choose by_key (pure KeyReply.forbidden) made w).0 ≡ some (k, scope)
        → v.db ≡ (choose by_key (pure KeyReply.forbidden) made w).1.db
        → ((actor_from_request sha256_hex q v).0
            ≡ ok (some (record { user = a.user; method = api_key; key_scope = scope })))
          × (check_scope a.user.role scope ≡ granted)
    go true e _ = cc
    go false e s =
        elim (scoped_key-Made sha256_hex bytes a.user.id (requested_scope body) w checked) [
          | inl none_made ↦ cc
          | inr (g, m) ↦
              let (actor, as_asked) =
                Made-actor sha256_hex bytes scope (requested_scope body) w v k a.user q (made w)
                  small active owner m e s fine shown in
              (actor, rw as_asked g)
        ]
