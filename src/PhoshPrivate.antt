-- ===== src/PhoshPrivate.antt =====
-- src/phosh-private.c: the private protocol of the shell. The keyboard events, through which the
-- shell subscribes to accelerators, the startup trackers and the shell's state. A resource is a
-- number, a message that is sent to a client is a value, and a g_hash_table is an association list.
pub mod State
pub mod Accelerators
pub mod Lifecycle
pub mod Grab
pub mod Tables
pub mod Subscriptions
pub mod Ungrab
mod Orphans
mod Tests
