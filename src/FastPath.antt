-- ===== src/FastPath.antt =====
-- The fast path of RegisterFunc: genfastfunc.go and the file zz_fast_func.go that it generates.
pub mod Slots
pub mod Dispatch
pub mod Names
pub mod Signature
pub mod Shape
pub mod Selection
pub mod Decision
pub mod Call
pub mod Pool
pub mod Emit
mod Tests
