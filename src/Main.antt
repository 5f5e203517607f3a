-- ===== src/Main.antt =====
-- src/zofi.cpp.
pub mod Program
pub mod ProgramLaws
pub mod Overrides
mod Tests
