-- ===== src/Common.antt =====
-- Common/include and Common/src: utilities, timer, random numbers and allocators.
pub mod Utility
pub mod Allocators
pub mod Timer
pub mod Random
pub mod UniquePtr
