-- ===== src/Host.antt =====
-- The host's end of the debug protocol, tools/rswdp.c: `Txn` builds transactions, `Bulk` moves
-- blocks of memory, `Reply` reads replies, `Exec` sends and waits, `Single` and `Control` drive the
-- processor, `Attach` the probe, and `Wait` polls.
pub mod Txn
pub mod Bulk
pub mod Reply
pub mod Exec
pub mod Single
pub mod Control
pub mod Attach
pub mod Wait
mod Tests
