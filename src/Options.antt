-- ===== src/Options.antt =====
-- src/options.h and src/options.cpp.
pub mod Checks
pub mod ChecksLaws
pub mod Parse
pub mod ParseLaws
pub mod Rendered
pub mod Values
pub mod ValuesLaws
pub mod Registry
pub mod LastValue
pub mod Table
pub mod HelpText
pub mod Init
mod JobsOption
mod InitLaws
pub mod HelpTextLaws
mod Tests
mod TableTests
mod InitTests
