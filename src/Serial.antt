-- ===== src/Serial.antt =====
-- The buffers of nandroid_shared/serialization.cpp: `DataWriter` and `DataReader` as they are,
-- and that they put on the wire and take off it what `Wire` says.
pub mod Writer
pub mod Reader
pub mod Refine
mod Tests
