-- ===== src/Config/RoundTrip.antt =====
-- What `save_policies` writes, `load_policies` reads back: config/src/ConfigStore.cpp.
pub mod Lines
pub mod Reading
pub mod Numbers
pub mod Fields
pub mod Steps
pub mod Items
pub mod Savable
pub mod Loops
pub mod Whole
pub mod Buffer
pub mod LongPath
mod Tests
