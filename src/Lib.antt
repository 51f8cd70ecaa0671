-- ===== src/Lib.antt =====
-- groot-share, a server that keeps diagnostic archives: models of its parts and their theorems.
--
-- Uploads come in by HTTP or by SFTP and are staged as files. In the topology `vps` they then move
-- to the home directory and get a row of the sqlite table `archives`; in `vps-s3` they are copied
-- to a bucket, and wait in the table `transit` while the bucket does not take them. Users pin
-- archives and admins make share links to them. A retention sweep deletes what is beyond the
-- count and age limits, but for pinned and shared archives.
--
-- The files and the code they model:
--   Prelude/...        shared names, Boolean tests, lists over the native numbers, text
--   Time               time.Time and the text form of times in the tables
--   Auth               internal/auth/perm.go and the scope check of internal/server/apikeys.go
--   Auth/Secrets       internal/auth/auth.go: passwords, drawn keys and tokens, the key of a request
--   Config             internal/config/config.go
--   Retain             internal/retain/retain.go
--   RateLimit          internal/ratelimit/ratelimit.go
--   Store/Types        the rows of internal/store/schema.go
--   Store/World        the database, disk and bucket that a request works on, and calls that fail;
--                      lemmas on them in Store/World/Runs, Spares and Laws
--   Store/Names        internal/store/name.go
--   Store/Users        the operations on users of internal/store/identity.go
--   Store/Users/Bootstrap  EnsureAdmin of internal/store/identity.go
--   Store/Sessions     the sessions of internal/store/identity.go
--   Store/ApiKeys      internal/store/apikeys.go and the keys of internal/store/identity.go
--   Store/Audit        internal/store/audit.go
--   Store/Shares       internal/store/share.go
--   Store/Pins         internal/store/pins.go
--   Store/Protected    internal/store/protected.go
--   Store/Transit      internal/store/transit.go
--   Store/Archives     internal/store/archives.go, with the file names in Store/Archives/Key
--   Store/Filter       internal/store/filter.go and cluster.go
--   Blob/Keys          internal/blob/key.go
--   Blob/Bucket        internal/blob/store.go, with the behaviour of internal/blob/memory.go
--   Server/Actor       internal/server/actor.go and actorFromRequest of internal/server/identity.go
--   Server/Routes      the route table of internal/server/server.go and pins.go
--   Server/Identity    sign-in and sign-out of internal/server/identity.go
--   Server/Keys        the handlers of API keys, internal/server/apikeys.go, identity.go and
--                      settings.go
--   Server/Users       the handlers of internal/server/users.go, admin.go and settings.go that
--                      create (Server/Users/Create) and change users
--   Server/Catalog     internal/server/catalog.go
--   Server/Archives    the handlers of internal/server/archives.go that list and send archives, and
--                      handleDelete of internal/server/sweep.go
--   Server/Sweep       internal/server/sweep.go
--   Server/Shares      internal/server/share.go
--   Server/Pins        internal/server/pins.go
--   Server/Audit       internal/server/audit.go
--   Server/Filter      ParseFilter of internal/server/filter.go
--   Server/Watch       internal/server/watch.go
--   Server/Sort        internal/server/sort.go
--   Server/Pager       internal/server/pager.go
-- A file Tests in such a directory runs the definitions at concrete inputs.
--
-- How the code is rendered. A Go function of the name doThis is `do_this`. A function that touches
-- the database, a file or the bucket is a function from a World to a result and the World that it
-- leaves. Its `faults` say of each call in turn whether the environment makes it fail, so a
-- theorem about every World is one about every pattern of failures. A transaction is one call, and
-- a request is not interleaved with another. A loop is recursion on its list. uniqueObjectKey has
-- its 8 rounds as fuel, and collapseDashes as many as the text has characters, which is enough.
-- Text is a list of code points, and the body of a file a list of bytes of the same type. A time
-- is a number of nanoseconds since year 1, and a time column a number of whole seconds, so that
-- the cut to seconds of RFC 3339 shows; texts are compared and read back as such, which from the
-- year 10000 on is not the order of the times. Each request has one time `now`. The hash of an
-- upload, the ETag, the hash of a token, bcrypt, strings.ToLower and the parsers of numbers,
-- durations and URLs are parameters, and random bytes are arguments. sqlite's ORDER BY leaves the
-- order of equal keys open; the model keeps that of the table.
--
-- Not modelled: the S3 client, HTTP decoding and replies, HTML pages, the tar reader, static
-- files, logging, schema migrations, timers, the building of query strings, and handleUpload of
-- internal/server/archives.go, which decodes a request for ingestWithSource.
pub mod Prelude
pub mod Time
pub mod Auth
pub mod Store
pub mod Retain
pub mod RateLimit
pub mod Blob
pub mod Config
pub mod Server
