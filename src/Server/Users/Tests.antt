-- ===== src/Server/Users/Tests.antt =====
-- Requests against the last admin of a store.
use groot_share.Prelude.{true, codes, List, [], ◌∷◌, none, some, arith}
use groot_share.Auth.{viewer}
use groot_share.Store.Sample.{sample, sample_db}
use groot_share.Store.Users.Admins.{HasAdmin}
use groot_share.Server.Users.{Request, Patch}
use groot_share.Server.Users.Serve.{UserRequest, patch, delete, deactivate, remove, create, serve}
use groot_share.Server.Users.Create.{NewUser}
use groot_share.Server.Users.Admins.{serve-HasAdmin}

abbrev by_root : Request
by_root = record { actor = codes "root"; actor_id = 1; remote_ip = []; now = 1 }

abbrev demote : Patch
demote = record { role = some viewer; active = none; password = []; name = none; username = none }

abbrev second_admin : NewUser
second_admin = record {
  username = codes "eva";
  name = codes "Eva";
  password = codes "password";
  role = [];
  is_admin = true;
}

-- Every way to lose the only admin, the removal of the other user and a new admin.
abbrev attempts : List UserRequest
attempts =
    deactivate 1
    ∷ delete by_root 1
    ∷ patch by_root 1 demote
    ∷ deactivate 2
    ∷ remove 1 2
    ∷ create by_root second_admin
    ∷ []

sample-HasAdmin : HasAdmin sample_db
sample-HasAdmin = record {
  unique = λ id. ground arith;
  present = omega arith;
  fresh = λ id h. ground (arith, h);
}

serve-HasAdmin_example : HasAdmin (serve (λ p. some p) (λ n. n ∷ []) attempts sample).db
serve-HasAdmin_example = serve-HasAdmin (λ p. some p) (λ n. n ∷ []) attempts sample sample-HasAdmin
