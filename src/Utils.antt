-- ===== src/Utils.antt =====
-- src/utils.h and src/utils.cpp: the helpers that the other parts call.
pub mod Text
pub mod TextLaws
pub mod Number
pub mod Rand
pub mod Diff
pub mod Time
pub mod Print
pub mod PrintLaws
pub mod Scan
mod Tests
