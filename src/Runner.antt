-- ===== src/Runner.antt =====
-- src/runner.cpp.
pub mod Wait
pub mod WaitLaws
pub mod Threads
pub mod Race
pub mod Verdict
pub mod VerdictLaws
pub mod Counted
pub mod Inject
pub mod InjectLaws
pub mod FaultLaws
pub mod Attempts
pub mod Lifecycle
pub mod InitFiles
pub mod InitFilesLaws
pub mod Child
pub mod ChildView
pub mod ChildLaws
pub mod ChildFiles
pub mod LifecycleLaws
pub mod LifetimeLaws
pub mod Whole
pub mod WholeLaws
pub mod JobCode
pub mod JobFiles
pub mod DiffCmd
mod Tests
mod FlipTests
mod LifeTests
mod InitFilesTests
mod ChildTests
