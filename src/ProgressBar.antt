-- ===== src/ProgressBar.antt =====
-- src/progressbar.h and src/progressbar.cpp.
pub mod Bar
pub mod BarLaws
mod Tests
