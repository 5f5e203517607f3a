-- ===== src/DebugStream.antt =====
-- src/debugstream.h and src/debugstream.cpp: the debug output.
pub mod Dbg
pub mod Threads
pub mod ThreadsLaws
mod Tests
