-- ===== src/Statistics.antt =====
-- src/statistics.h and src/statistics.cpp: class Statistics. `Store` has the class, `Counts` the
-- proofs about its counters and `Report` those about what it prints.
pub mod Store
pub mod Counts
pub mod Report
mod Tests
