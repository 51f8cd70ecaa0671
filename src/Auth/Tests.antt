-- ===== src/Auth/Tests.antt =====
-- The matrix at the cases of internal/auth/perm_test.go.
use groot_share.Prelude.{◌≡◌, refl, true}
use groot_share.Auth.{viewer, archives_read, session, read, can}

viewer_reads : can viewer archives_read session read ≡ true
unfolding can
viewer_reads = refl
