-- ===== src/Store/Archives/Key/Tests.antt =====
-- Keys from names that clients send.
use groot_share.Prelude.{◌≡◌, codes, false}
use groot_share.Store.Archives.Key.{sanitize_key, has_double, collapse_dashes}
use groot_share.Store.Archives.Key.Laws.{IsSafeKey, sanitize_key-IsSafeKey, collapse_dashes-done}

sanitize_key-IsSafeKey_example : IsSafeKey (sanitize_key (codes "../../etc/pass wd\\--x é.tar.gz"))
sanitize_key-IsSafeKey_example = sanitize_key-IsSafeKey (codes "../../etc/pass wd\\--x é.tar.gz")

collapse_dashes-done_example : has_double (collapse_dashes (codes "a-----b--c")) ≡ false
collapse_dashes-done_example = collapse_dashes-done (codes "a-----b--c")
