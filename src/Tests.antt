-- ===== src/Tests.antt =====
-- The properties at concrete inputs, and runs of the model.
pub mod Fixtures
pub mod Files
pub mod Encodings
pub mod Guests
pub mod Transforms
pub mod Values
