-- ===== src/AddrSpace.antt =====
-- src/addrSpace.h and src/addrSpace.cpp.
pub mod Mappings
pub mod Maps
pub mod MapsLaws
pub mod Found
pub mod Lookup
pub mod Library
mod MapsTests
