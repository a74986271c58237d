-- ===== src/Go.antt =====
-- What the code takes from the Go language and its package reflect.
pub mod Types
pub mod Identity
pub mod Layout
pub mod Outcome
pub mod Platform
pub mod Values
