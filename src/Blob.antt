-- ===== src/Blob.antt =====
-- internal/blob: the object store, and the keys of its objects.
pub mod Keys
pub mod Bucket
