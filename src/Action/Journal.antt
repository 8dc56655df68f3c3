-- ===== src/Action/Journal.antt =====
-- action/src/RevertJournal.cpp and its header. The journal is a file of slots of 112 bytes; an
-- index of byte offsets stands in memory. Reads, seeks and writes of an open file succeed; what a
-- crash leaves behind a write that it interrupts is a tail shorter than a slot.
pub mod Codec
pub mod Disk
pub mod State
pub mod Refine
pub mod Recover
pub mod Lifecycle
pub mod Lasting
pub mod Stale
pub mod Torn
mod Tests
