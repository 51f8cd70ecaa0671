-- ===== src/Server/Routes/Keyed.antt =====
-- The routes that API keys open.
use groot_share.Prelude.{
  keep_if-ext, ℕ, ◌++◌, all, any, true, false, not, ◌||◌, find, text_eq, ◌≡◌, ◌⊎◌, refl, arith, ◌∙◌,
  ap, Text, codes, Bool, map, List, [], ◌∷◌, keep_if, some,
}
use groot_share.Auth.{Permission, uploader, admin, api_key, KeyScope, upload, read, can}
use groot_share.Auth.Secrets.{extract_key}
use groot_share.Store.World.{World, M}
use groot_share.Server.Actor.{Actor, actor_can, Credentials, require_permission}
use groot_share.Server.Actor.Gate.{reached, key_permission, require_permission-key}
use groot_share.Server.Routes.{asks, Gate, Route, routes, grants}

-- The patterns that an API key of the scope opens, for an uploader or an admin.
abbrev pub key_patterns : KeyScope → List Text
key_patterns upload = codes "GET /upload" ∷ codes "POST /v1/archives" ∷ []
key_patterns read =
    codes "GET /{$}"
    ∷ codes "GET /activity"
    ∷ codes "GET /v1/me"
    ∷ codes "GET /v1/archives"
    ∷ codes "GET /v1/archives/{id...}"
    ∷ codes "GET /v1/audit"
    ∷ codes "POST /v1/pin/archives/{id...}"
    ∷ codes "DELETE /v1/pin/archives/{id...}"
    ∷ []
key_patterns (KeyScope.other t) = []

key_actor : Actor → KeyScope → Actor
key_actor a s = record a { user = record a.user { role = admin }; method = api_key; key_scope = s }

-- An uploader's key opens what an admin's key of its scope opens.
same_grants :
    (a : Actor) (g : Gate)
    → a.method ≡ api_key
    → (a.user.role ≡ uploader) ⊎ (a.user.role ≡ admin)
    → grants (some a) g ≡ grants (some (key_actor a a.key_scope)) g
unfolding grants actor_can can key_actor
same_grants a g m t = ground (arith, m, t)

key_routes :
    (a : Actor) (s : KeyScope)
    → map (λ r. r.pattern) (keep_if (λ (r : Route). grants (some (key_actor a s)) r.gate) routes)
      ≡ key_patterns s
unfolding grants actor_can can key_actor routes
key_routes a upload = refl
key_routes a read = refl
key_routes a (KeyScope.other t) = refl

-- Of all routes that ask for a permission, an API key of an uploader or an admin opens by its scope
-- `upload` the upload page and POST /v1/archives, by its scope `read` the home page, the activity
-- page, GET /v1/me, the listing and the download of archives, GET /v1/audit and both pin routes, and
-- by any other scope none.
pub routes-key_patterns :
    (a : Actor)
    → a.method ≡ api_key
    → (a.user.role ≡ uploader) ⊎ (a.user.role ≡ admin)
    → map (λ r. r.pattern) (keep_if (λ (r : Route). grants (some a) r.gate) routes)
      ≡ key_patterns a.key_scope
routes-key_patterns a m t =
    ap (map (λ (r : Route). r.pattern)) (
      keep_if-ext (λ (r : Route). grants (some a) r.gate)
        (λ (r : Route). grants (some (key_actor a a.key_scope)) r.gate)
        (λ r. same_grants a r.gate m t) routes)
    ∙ key_routes a a.key_scope

find-all :
    {A : Type 0} (p q : A → Bool) (xs : List A) (x : A)
    → all p xs ≡ true
    → find q xs ≡ some x
    → p x ≡ true
find-all p q [] x h e = cc
find-all p q (y ∷ ys) x h e = ground (arith, h, e, find-all p q ys x)

-- The patterns that a key opens by some scope.
abbrev pub open_patterns : List Text
open_patterns = key_patterns upload ++ key_patterns read

asks_key : Gate → Bool
asks_key (asks perm) = key_permission perm
asks_key _ = false

-- No key passes the gate, or the pattern is of the list.
listed : Route → Bool
listed r = not (asks_key r.gate) || any (text_eq r.pattern) open_patterns

listed-routes : all listed routes ≡ true
unfolding routes text_eq listed asks_key
listed-routes = refl

-- A request that presents an API key, whatever its cookie, its owner and its scope, and whatever the
-- handler, runs the handler of a route that asks for a permission only where the route is one of
-- ten: the home, upload and activity pages, GET /v1/me, the listing, the upload and the download of
-- archives, GET /v1/audit and the two pin routes.
pub require_permission-open_patterns :
    {R : Type 0} (sha256_hex : Text → Text) (r : Route) (perm : Permission) (next : Actor → M R)
    (q : Credentials) (w : World) (c : ℕ) (key : Text)
    → find (λ (x : Route). text_eq x.pattern r.pattern) routes ≡ some r
    → r.gate ≡ asks perm
    → extract_key q.x_api_key q.authorization ≡ c ∷ key
    → reached (require_permission sha256_hex perm next q w).0 ≡ true
    → any (text_eq r.pattern) open_patterns ≡ true
unfolding listed asks_key
require_permission-open_patterns sha256_hex r perm next q w c key found gate shown h =
    let is_listed =
      find-all listed (λ (x : Route). text_eq x.pattern r.pattern) routes r listed-routes found in
    ground (arith, gate, is_listed, require_permission-key sha256_hex perm next q w c key shown h)
