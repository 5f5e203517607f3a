-- ===== src/ExitState.antt =====
-- src/exitState.h and src/exitState.cpp.
pub mod Data
pub mod Compare
pub mod Import
pub mod Dump
pub mod DumpLaws
pub mod ImportLaws
mod Tests
