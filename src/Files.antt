-- ===== src/Files.antt =====
-- What the components that write a file atomically see of it (writeFileAtomic of packages rewrites,
-- dnsroutes and clients): a temporary file is written and renamed, and the directory synchronised.

-- It was written, it failed before the file was renamed, or it failed to synchronise the directory
-- afterwards.
pub data Write : Type 0 where
  written : Write
  failed : Write
  unsynced : Write
