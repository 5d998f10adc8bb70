-- ===== src/Session.antt =====
-- The host of tools/rswdp.c and the firmware of m3debug/main.c together: one exchange, from the
-- commands that a transaction asks for to the words that end up in the host's memory.
pub mod Blocks
pub mod Words
pub mod Exchange
pub mod Main
mod Tests
