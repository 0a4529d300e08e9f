-- ===== src/Prelude/Errors.antt =====
-- The values of `errno` that the modelled functions set.
pub data Errno : Type 0 where
  einval eoverflow enoent e2big eagain eexist enospc eproto : Errno
