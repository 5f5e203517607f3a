-- ===== src/Scheduler.antt =====
-- src/threads.h and src/threads.cpp.
pub mod Jobs
pub mod JobsLaws
pub mod Pipes
pub mod Opened
pub mod PipesLaws
pub mod PipesRun
pub mod PipesLaunch
pub mod PipesWhole
pub mod PipesTotal
pub mod PipesCampaign
pub mod OnceEach
pub mod Masked
pub mod MaskedRuns
pub mod BarRun
pub mod BarShown
pub mod BarLines
pub mod BarWhole
pub mod Complete
pub mod Campaign
mod Samples
mod PipesTests
mod BarTests
