-- ===== src/PhoshPrivate/Orphans.antt =====
-- src/phosh-private.c: a grab on a keyboard event that has outlived the shell's resource.
use phoc.PhoshPrivate.State.{PhoshPrivate}
