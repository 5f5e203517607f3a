-- ===== src/Regs.antt =====
-- The registers of the traced process: src/regManip.h, src/regManip.cpp and src/regs.def.
-- `Data` has the structures, `XSave` the vector buffer, `Table` the register definitions and
-- `Manip` the class RegisterManipulator; the other children hold the proofs.
pub mod Data
pub mod XSave
pub mod Table
pub mod Manip
pub mod Dump
pub mod DumpLaws
pub mod TableLaws
pub mod Insn
pub mod Select
pub mod SelectLaws
pub mod Known
pub mod Chosen
pub mod XSaveLaws
pub mod ExportLaws
pub mod Toggle
pub mod Flip
mod Tests
mod SelectTests
mod DumpTests
