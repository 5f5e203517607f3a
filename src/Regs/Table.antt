-- ===== src/Regs/Table.antt =====
-- src/regs.def: one entry for each DEF_REG line, in order.
use zofi.Base.{◌+◌, ◌*◌, String, List, [], ◌∷◌, ◌++◌}
use zofi.Regs.XSave
use zofi.Regs.Data.{GpField, in_gp, in_xsave, in_zmm, nullptr, RegData, reg_data}

abbrev pub general_regs : List (String × RegData)
general_regs =
    ("r8", reg_data (in_gp GpField.r8) 0 64)
    ∷ ("r8d", reg_data (in_gp GpField.r8) 0 32)
    ∷ ("r8w", reg_data (in_gp GpField.r8) 0 16)
    ∷ ("r8b", reg_data (in_gp GpField.r8) 0 8)
    ∷ ("r9", reg_data (in_gp GpField.r9) 0 64)
    ∷ ("r9d", reg_data (in_gp GpField.r9) 0 32)
    ∷ ("r9w", reg_data (in_gp GpField.r9) 0 16)
    ∷ ("r9b", reg_data (in_gp GpField.r9) 0 8)
    ∷ ("r10", reg_data (in_gp GpField.r10) 0 64)
    ∷ ("r10d", reg_data (in_gp GpField.r10) 0 32)
    ∷ ("r10w", reg_data (in_gp GpField.r10) 0 16)
    ∷ ("r10b", reg_data (in_gp GpField.r10) 0 8)
    ∷ ("r11", reg_data (in_gp GpField.r11) 0 64)
    ∷ ("r11d", reg_data (in_gp GpField.r11) 0 32)
    ∷ ("r11w", reg_data (in_gp GpField.r11) 0 16)
    ∷ ("r11b", reg_data (in_gp GpField.r11) 0 8)
    ∷ ("r12", reg_data (in_gp GpField.r12) 0 64)
    ∷ ("r12d", reg_data (in_gp GpField.r12) 0 32)
    ∷ ("r12w", reg_data (in_gp GpField.r12) 0 16)
    ∷ ("r12b", reg_data (in_gp GpField.r12) 0 8)
    ∷ ("r13", reg_data (in_gp GpField.r13) 0 64)
    ∷ ("r13d", reg_data (in_gp GpField.r13) 0 32)
    ∷ ("r13w", reg_data (in_gp GpField.r13) 0 16)
    ∷ ("r13b", reg_data (in_gp GpField.r13) 0 8)
    ∷ ("r14", reg_data (in_gp GpField.r14) 0 64)
    ∷ ("r14d", reg_data (in_gp GpField.r14) 0 32)
    ∷ ("r14w", reg_data (in_gp GpField.r14) 0 16)
    ∷ ("r14b", reg_data (in_gp GpField.r14) 0 8)
    ∷ ("r15", reg_data (in_gp GpField.r15) 0 64)
    ∷ ("r15d", reg_data (in_gp GpField.r15) 0 32)
    ∷ ("r15w", reg_data (in_gp GpField.r15) 0 16)
    ∷ ("r15b", reg_data (in_gp GpField.r15) 0 8)
    ∷ ("rbp", reg_data (in_gp GpField.rbp) 0 64)
    ∷ ("ebp", reg_data (in_gp GpField.rbp) 0 32)
    ∷ ("bp", reg_data (in_gp GpField.rbp) 0 16)
    ∷ ("bpl", reg_data (in_gp GpField.rbp) 0 8)
    ∷ ("bph", reg_data (in_gp GpField.rbp) 8 8)
    ∷ ("rax", reg_data (in_gp GpField.rax) 0 64)
    ∷ ("eax", reg_data (in_gp GpField.rax) 0 32)
    ∷ ("ax", reg_data (in_gp GpField.rax) 0 16)
    ∷ ("al", reg_data (in_gp GpField.rax) 0 8)
    ∷ ("ah", reg_data (in_gp GpField.rax) 8 8)
    ∷ ("rbx", reg_data (in_gp GpField.rbx) 0 64)
    ∷ ("ebx", reg_data (in_gp GpField.rbx) 0 32)
    ∷ ("bx", reg_data (in_gp GpField.rbx) 0 16)
    ∷ ("bl", reg_data (in_gp GpField.rbx) 0 8)
    ∷ ("bh", reg_data (in_gp GpField.rbx) 8 8)
    ∷ ("rcx", reg_data (in_gp GpField.rcx) 0 64)
    ∷ ("ecx", reg_data (in_gp GpField.rcx) 0 32)
    ∷ ("cx", reg_data (in_gp GpField.rcx) 0 16)
    ∷ ("cl", reg_data (in_gp GpField.rcx) 0 8)
    ∷ ("ch", reg_data (in_gp GpField.rcx) 8 8)
    ∷ ("rdx", reg_data (in_gp GpField.rdx) 0 64)
    ∷ ("edx", reg_data (in_gp GpField.rdx) 0 32)
    ∷ ("dx", reg_data (in_gp GpField.rdx) 0 16)
    ∷ ("dl", reg_data (in_gp GpField.rdx) 0 8)
    ∷ ("dh", reg_data (in_gp GpField.rdx) 8 8)
    ∷ ("rdi", reg_data (in_gp GpField.rdi) 0 64)
    ∷ ("edi", reg_data (in_gp GpField.rdi) 0 32)
    ∷ ("di", reg_data (in_gp GpField.rdi) 0 16)
    ∷ ("dil", reg_data (in_gp GpField.rdi) 0 8)
    ∷ ("dih", reg_data (in_gp GpField.rdi) 8 8)
    ∷ ("rsi", reg_data (in_gp GpField.rsi) 0 64)
    ∷ ("esi", reg_data (in_gp GpField.rsi) 0 32)
    ∷ ("si", reg_data (in_gp GpField.rsi) 0 16)
    ∷ ("sil", reg_data (in_gp GpField.rsi) 0 8)
    ∷ ("sih", reg_data (in_gp GpField.rsi) 8 8)
    ∷ ("rsp", reg_data (in_gp GpField.rsp) 0 64)
    ∷ ("esp", reg_data (in_gp GpField.rsp) 0 32)
    ∷ ("sp", reg_data (in_gp GpField.rsp) 0 16)
    ∷ ("spl", reg_data (in_gp GpField.rsp) 0 8)
    ∷ []

abbrev pub special_regs : List (String × RegData)
special_regs =
    ("orig_rax", reg_data (in_gp GpField.orig_rax) 0 64)
    ∷ ("rip", reg_data (in_gp GpField.rip) 0 64)
    ∷ ("eip", reg_data (in_gp GpField.rip) 0 32)
    ∷ ("ip", reg_data (in_gp GpField.rip) 0 16)
    ∷ ("cs", reg_data (in_gp GpField.cs) 0 16)
    ∷ ("eflags", reg_data (in_gp GpField.eflags) 0 32)
    ∷ ("flags", reg_data (in_gp GpField.eflags) 0 16)
    ∷ ("rflags", reg_data (in_gp GpField.eflags) 0 64)
    ∷ ("ss", reg_data (in_gp GpField.ss) 0 16)
    ∷ ("fs_base", reg_data (in_gp GpField.fs_base) 0 16)
    ∷ ("gs_base", reg_data (in_gp GpField.gs_base) 0 16)
    ∷ ("ds", reg_data (in_gp GpField.ds) 0 16)
    ∷ ("es", reg_data (in_gp GpField.es) 0 16)
    ∷ ("fs", reg_data (in_gp GpField.fs) 0 16)
    ∷ ("gs", reg_data (in_gp GpField.gs) 0 16)
    ∷ []

abbrev pub x87_regs : List (String × RegData)
x87_regs =
    ("cwd", reg_data (in_xsave XSave.legacy_fsave_fcw) 0 16)
    ∷ ("swd", reg_data (in_xsave XSave.legacy_fsave_fsw) 0 16)
    ∷ ("ftw", reg_data (in_xsave XSave.legacy_fsave_ftw) 0 16)
    ∷ ("fop", reg_data (in_xsave XSave.legacy_fsave_fop) 0 16)
    ∷ ("fp_rip", reg_data (in_xsave XSave.legacy_fsave_fip) 0 64)
    ∷ ("rdp", reg_data (in_xsave XSave.legacy_fsave_fdp) 0 64)
    ∷ ("mxcsr", reg_data (in_xsave XSave.legacy_fsave_mxcsr) 0 32)
    ∷ ("mxcr_mask", reg_data (in_xsave XSave.legacy_fsave_mxcsr_mask) 0 32)
    ∷ ("st(0)", reg_data (in_xsave (XSave.legacy_mm_0to7 + 0 * 16)) 0 80)
    ∷ ("st(1)", reg_data (in_xsave (XSave.legacy_mm_0to7 + 1 * 16)) 0 80)
    ∷ ("st(2)", reg_data (in_xsave (XSave.legacy_mm_0to7 + 2 * 16)) 0 80)
    ∷ ("st(3)", reg_data (in_xsave (XSave.legacy_mm_0to7 + 3 * 16)) 0 80)
    ∷ ("st(4)", reg_data (in_xsave (XSave.legacy_mm_0to7 + 4 * 16)) 0 80)
    ∷ ("st(5)", reg_data (in_xsave (XSave.legacy_mm_0to7 + 5 * 16)) 0 80)
    ∷ ("st(6)", reg_data (in_xsave (XSave.legacy_mm_0to7 + 6 * 16)) 0 80)
    ∷ ("st(7)", reg_data (in_xsave (XSave.legacy_mm_0to7 + 7 * 16)) 0 80)
    ∷ ("mm0", reg_data (in_xsave (XSave.legacy_mm_0to7 + 0 * 16)) 0 64)
    ∷ ("mm1", reg_data (in_xsave (XSave.legacy_mm_0to7 + 1 * 16)) 0 64)
    ∷ ("mm2", reg_data (in_xsave (XSave.legacy_mm_0to7 + 2 * 16)) 0 64)
    ∷ ("mm3", reg_data (in_xsave (XSave.legacy_mm_0to7 + 3 * 16)) 0 64)
    ∷ ("mm4", reg_data (in_xsave (XSave.legacy_mm_0to7 + 4 * 16)) 0 64)
    ∷ ("mm5", reg_data (in_xsave (XSave.legacy_mm_0to7 + 5 * 16)) 0 64)
    ∷ ("mm6", reg_data (in_xsave (XSave.legacy_mm_0to7 + 6 * 16)) 0 64)
    ∷ ("mm7", reg_data (in_xsave (XSave.legacy_mm_0to7 + 7 * 16)) 0 64)
    ∷ ("fp0", reg_data (in_xsave (XSave.legacy_mm_0to7 + 0 * 16)) 0 80)
    ∷ ("fp1", reg_data (in_xsave (XSave.legacy_mm_0to7 + 1 * 16)) 0 80)
    ∷ ("fp2", reg_data (in_xsave (XSave.legacy_mm_0to7 + 2 * 16)) 0 80)
    ∷ ("fp3", reg_data (in_xsave (XSave.legacy_mm_0to7 + 3 * 16)) 0 80)
    ∷ ("fp4", reg_data (in_xsave (XSave.legacy_mm_0to7 + 4 * 16)) 0 80)
    ∷ ("fp5", reg_data (in_xsave (XSave.legacy_mm_0to7 + 5 * 16)) 0 80)
    ∷ ("fp6", reg_data (in_xsave (XSave.legacy_mm_0to7 + 6 * 16)) 0 80)
    ∷ ("fp7", reg_data (in_xsave (XSave.legacy_mm_0to7 + 7 * 16)) 0 80)
    ∷ []

abbrev pub vector_xmm_regs : List (String × RegData)
vector_xmm_regs =
    ("xmm0", reg_data (in_zmm 0) 0 128)
    ∷ ("xmm1", reg_data (in_zmm 1) 0 128)
    ∷ ("xmm2", reg_data (in_zmm 2) 0 128)
    ∷ ("xmm3", reg_data (in_zmm 3) 0 128)
    ∷ ("xmm4", reg_data (in_zmm 4) 0 128)
    ∷ ("xmm5", reg_data (in_zmm 5) 0 128)
    ∷ ("xmm6", reg_data (in_zmm 6) 0 128)
    ∷ ("xmm7", reg_data (in_zmm 7) 0 128)
    ∷ ("xmm8", reg_data (in_zmm 8) 0 128)
    ∷ ("xmm9", reg_data (in_zmm 9) 0 128)
    ∷ ("xmm10", reg_data (in_zmm 10) 0 128)
    ∷ ("xmm11", reg_data (in_zmm 11) 0 128)
    ∷ ("xmm12", reg_data (in_zmm 12) 0 128)
    ∷ ("xmm13", reg_data (in_zmm 13) 0 128)
    ∷ ("xmm14", reg_data (in_zmm 14) 0 128)
    ∷ ("xmm15", reg_data (in_zmm 15) 0 128)
    ∷ ("xmm16", reg_data (in_zmm 16) 0 128)
    ∷ ("xmm17", reg_data (in_zmm 17) 0 128)
    ∷ ("xmm18", reg_data (in_zmm 18) 0 128)
    ∷ ("xmm19", reg_data (in_zmm 19) 0 128)
    ∷ ("xmm20", reg_data (in_zmm 20) 0 128)
    ∷ ("xmm21", reg_data (in_zmm 21) 0 128)
    ∷ ("xmm22", reg_data (in_zmm 22) 0 128)
    ∷ ("xmm23", reg_data (in_zmm 23) 0 128)
    ∷ ("xmm24", reg_data (in_zmm 24) 0 128)
    ∷ ("xmm25", reg_data (in_zmm 25) 0 128)
    ∷ ("xmm26", reg_data (in_zmm 26) 0 128)
    ∷ ("xmm27", reg_data (in_zmm 27) 0 128)
    ∷ ("xmm28", reg_data (in_zmm 28) 0 128)
    ∷ ("xmm29", reg_data (in_zmm 29) 0 128)
    ∷ ("xmm30", reg_data (in_zmm 30) 0 128)
    ∷ ("xmm31", reg_data (in_zmm 31) 0 128)
    ∷ []

abbrev pub vector_ymm_regs : List (String × RegData)
vector_ymm_regs =
    ("ymm0", reg_data (in_zmm 0) 0 256)
    ∷ ("ymm1", reg_data (in_zmm 1) 0 256)
    ∷ ("ymm2", reg_data (in_zmm 2) 0 256)
    ∷ ("ymm3", reg_data (in_zmm 3) 0 256)
    ∷ ("ymm4", reg_data (in_zmm 4) 0 256)
    ∷ ("ymm5", reg_data (in_zmm 5) 0 256)
    ∷ ("ymm6", reg_data (in_zmm 6) 0 256)
    ∷ ("ymm7", reg_data (in_zmm 7) 0 256)
    ∷ ("ymm8", reg_data (in_zmm 8) 0 256)
    ∷ ("ymm9", reg_data (in_zmm 9) 0 256)
    ∷ ("ymm10", reg_data (in_zmm 10) 0 256)
    ∷ ("ymm11", reg_data (in_zmm 11) 0 256)
    ∷ ("ymm12", reg_data (in_zmm 12) 0 256)
    ∷ ("ymm13", reg_data (in_zmm 13) 0 256)
    ∷ ("ymm14", reg_data (in_zmm 14) 0 256)
    ∷ ("ymm15", reg_data (in_zmm 15) 0 256)
    ∷ ("ymm16", reg_data (in_zmm 16) 0 256)
    ∷ ("ymm17", reg_data (in_zmm 17) 0 256)
    ∷ ("ymm18", reg_data (in_zmm 18) 0 256)
    ∷ ("ymm19", reg_data (in_zmm 19) 0 256)
    ∷ ("ymm20", reg_data (in_zmm 20) 0 256)
    ∷ ("ymm21", reg_data (in_zmm 21) 0 256)
    ∷ ("ymm22", reg_data (in_zmm 22) 0 256)
    ∷ ("ymm23", reg_data (in_zmm 23) 0 256)
    ∷ ("ymm24", reg_data (in_zmm 24) 0 256)
    ∷ ("ymm25", reg_data (in_zmm 25) 0 256)
    ∷ ("ymm26", reg_data (in_zmm 26) 0 256)
    ∷ ("ymm27", reg_data (in_zmm 27) 0 256)
    ∷ ("ymm28", reg_data (in_zmm 28) 0 256)
    ∷ ("ymm29", reg_data (in_zmm 29) 0 256)
    ∷ ("ymm30", reg_data (in_zmm 30) 0 256)
    ∷ ("ymm31", reg_data (in_zmm 31) 0 256)
    ∷ []

abbrev pub vector_zmm_regs : List (String × RegData)
vector_zmm_regs =
    ("zmm0", reg_data (in_zmm 0) 0 512)
    ∷ ("zmm1", reg_data (in_zmm 1) 0 512)
    ∷ ("zmm2", reg_data (in_zmm 2) 0 512)
    ∷ ("zmm3", reg_data (in_zmm 3) 0 512)
    ∷ ("zmm4", reg_data (in_zmm 4) 0 512)
    ∷ ("zmm5", reg_data (in_zmm 5) 0 512)
    ∷ ("zmm6", reg_data (in_zmm 6) 0 512)
    ∷ ("zmm7", reg_data (in_zmm 7) 0 512)
    ∷ ("zmm8", reg_data (in_zmm 8) 0 512)
    ∷ ("zmm9", reg_data (in_zmm 9) 0 512)
    ∷ ("zmm10", reg_data (in_zmm 10) 0 512)
    ∷ ("zmm11", reg_data (in_zmm 11) 0 512)
    ∷ ("zmm12", reg_data (in_zmm 12) 0 512)
    ∷ ("zmm13", reg_data (in_zmm 13) 0 512)
    ∷ ("zmm14", reg_data (in_zmm 14) 0 512)
    ∷ ("zmm15", reg_data (in_zmm 15) 0 512)
    ∷ ("zmm16", reg_data (in_zmm 16) 0 512)
    ∷ ("zmm17", reg_data (in_zmm 17) 0 512)
    ∷ ("zmm18", reg_data (in_zmm 18) 0 512)
    ∷ ("zmm19", reg_data (in_zmm 19) 0 512)
    ∷ ("zmm20", reg_data (in_zmm 20) 0 512)
    ∷ ("zmm21", reg_data (in_zmm 21) 0 512)
    ∷ ("zmm22", reg_data (in_zmm 22) 0 512)
    ∷ ("zmm23", reg_data (in_zmm 23) 0 512)
    ∷ ("zmm24", reg_data (in_zmm 24) 0 512)
    ∷ ("zmm25", reg_data (in_zmm 25) 0 512)
    ∷ ("zmm26", reg_data (in_zmm 26) 0 512)
    ∷ ("zmm27", reg_data (in_zmm 27) 0 512)
    ∷ ("zmm28", reg_data (in_zmm 28) 0 512)
    ∷ ("zmm29", reg_data (in_zmm 29) 0 512)
    ∷ ("zmm30", reg_data (in_zmm 30) 0 512)
    ∷ ("zmm31", reg_data (in_zmm 31) 0 512)
    ∷ []

abbrev pub unsupported_regs : List (String × RegData)
unsupported_regs =
    ("riz", reg_data nullptr 0 64)
    ∷ ("eiz", reg_data nullptr 0 32)
    ∷ ("fpsw", reg_data nullptr 0 80)
    ∷ ("cr0", reg_data nullptr 0 64)
    ∷ ("cr1", reg_data nullptr 0 64)
    ∷ ("cr2", reg_data nullptr 0 64)
    ∷ ("cr3", reg_data nullptr 0 64)
    ∷ ("cr4", reg_data nullptr 0 64)
    ∷ ("cr5", reg_data nullptr 0 64)
    ∷ ("cr6", reg_data nullptr 0 64)
    ∷ ("cr7", reg_data nullptr 0 64)
    ∷ ("cr8", reg_data nullptr 0 64)
    ∷ ("cr9", reg_data nullptr 0 64)
    ∷ ("cr10", reg_data nullptr 0 64)
    ∷ ("cr11", reg_data nullptr 0 64)
    ∷ ("cr12", reg_data nullptr 0 64)
    ∷ ("cr13", reg_data nullptr 0 64)
    ∷ ("cr14", reg_data nullptr 0 64)
    ∷ ("cr15", reg_data nullptr 0 64)
    ∷ ("dr0", reg_data nullptr 0 64)
    ∷ ("dr1", reg_data nullptr 0 64)
    ∷ ("dr2", reg_data nullptr 0 64)
    ∷ ("dr3", reg_data nullptr 0 64)
    ∷ ("dr4", reg_data nullptr 0 64)
    ∷ ("dr5", reg_data nullptr 0 64)
    ∷ ("dr6", reg_data nullptr 0 64)
    ∷ ("dr7", reg_data nullptr 0 64)
    ∷ ("dr8", reg_data nullptr 0 64)
    ∷ ("dr9", reg_data nullptr 0 64)
    ∷ ("dr10", reg_data nullptr 0 64)
    ∷ ("dr11", reg_data nullptr 0 64)
    ∷ ("dr12", reg_data nullptr 0 64)
    ∷ ("dr13", reg_data nullptr 0 64)
    ∷ ("dr14", reg_data nullptr 0 64)
    ∷ ("dr15", reg_data nullptr 0 64)
    ∷ []

abbrev pub opmask_regs : List (String × RegData)
opmask_regs =
    ("k0", reg_data (in_xsave (XSave.opmask_0to7 + 0 * 8)) 0 64)
    ∷ ("k1", reg_data (in_xsave (XSave.opmask_0to7 + 1 * 8)) 0 64)
    ∷ ("k2", reg_data (in_xsave (XSave.opmask_0to7 + 2 * 8)) 0 64)
    ∷ ("k3", reg_data (in_xsave (XSave.opmask_0to7 + 3 * 8)) 0 64)
    ∷ ("k4", reg_data (in_xsave (XSave.opmask_0to7 + 4 * 8)) 0 64)
    ∷ ("k5", reg_data (in_xsave (XSave.opmask_0to7 + 5 * 8)) 0 64)
    ∷ ("k6", reg_data (in_xsave (XSave.opmask_0to7 + 6 * 8)) 0 64)
    ∷ ("k7", reg_data (in_xsave (XSave.opmask_0to7 + 7 * 8)) 0 64)
    ∷ []

abbrev pub def_regs : List (String × RegData)
def_regs =
    general_regs ++ special_regs ++ x87_regs ++ vector_xmm_regs ++ vector_ymm_regs
    ++ vector_zmm_regs ++ unsupported_regs ++ opmask_regs
