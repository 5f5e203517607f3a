-- ===== src/Runner/FlipTests.antt =====
-- doBitFlip on a process whose requests all succeed.
use zofi.Base.{
  arith, inr, Bool, Outcome, ap, false, ok, pos, refl, some, some_inj, suc, sym, true, ℕ, ◌≡◌, ◌⊎◌,
}
use zofi.Regs.Toggle.{FlipsGp}
use zofi.Runner.FaultLaws.{do_bit_flip-gp}
use zofi.ExitState.Data.{stopped, get_wait_pid_exit_state}
use zofi.Runner.Inject.{Target, do_bit_flip, single_step, flip_and_continue, continued}
use zofi.Runner.InjectLaws.{IsAt, do_bit_flip-ok}
use zofi.Runner.Tests.{linux}
use zofi.Regs.Select.{Selected}
use zofi.Regs.Data.{GpField, GpRegs, RegData, RegState, get_reg_ptr, in_gp, reg_data}
use zofi.Regs.Manip.{
  IsPtrace, Ptrace, export_flip, export_registers, find, initial_state, insert, populate,
  str_to_reg_map, try_bit_flip, write_byte,
}
use zofi.Regs.Flip.{flipped_state, try_bit_flip-eq}
use zofi.Regs.XSave.{Bytes}

-- The two register sets, and how many instructions were executed.
abbrev Process : Type 0
Process = GpRegs × Bytes × ℕ

abbrev plain : Ptrace Process
plain = record {
  get_regs = λ m. some m.0;
  get_regset = λ m. some m.1;
  set_regs = λ g m. some (g, m.1, m.2);
  set_regset = λ x m. some (m.0, x, m.2);
}

plain-IsPtrace : IsPtrace plain
plain-IsPtrace = record {
  get_regs-set_regs = λ g m n e. ap (λ (k : Process). some k.0) (sym (some_inj e));
  get_regset-set_regs = λ g m n e. ap (λ (k : Process). some k.1) (sym (some_inj e));
  get_regset-set_regset = λ x m n e. ap (λ (k : Process). some k.1) (sym (some_inj e));
  get_regs-set_regset = λ x m n e. ap (λ (k : Process). some k.0) (sym (some_inj e));
}

abbrev gp_zeros : GpRegs
gp_zeros f i = 0

abbrev zeros : Bytes
zeros i = 0

abbrev before_step : Process
before_step = (gp_zeros, zeros, 7)

abbrev after_step : Process
after_step = (gp_zeros, zeros, 8)

abbrev blank : RegState
blank = initial_state

abbrev rax_4 : Selected
rax_4 = record {
  descr = record { name = "rax"; start_bit = 0; bits = 64; written = true };
  bit = 4;
  success = true;
}

abbrev rax_data : RegData
rax_data = record { reg_ptr = in_gp GpField.rax; start_bit = 0; bits = 64 }

rax_known : find "rax" str_to_reg_map ≡ some rax_data
unfolding find str_to_reg_map populate insert reg_data
rax_known = refl

-- A process outside of the libraries, at an instruction that writes rax.
abbrev stepped_over : Target Process
stepped_over = record {
  pid = pos 10;
  in_library = λ m. ok false;
  selected = λ m. ok rax_4;
  step = λ m. some (1407, (m.0, m.1, suc m.2));
  ptrace = plain;
  rm = blank;
  cont = λ m. some m;
}

abbrev rax_flipped : RegState
rax_flipped = flipped_state plain plain-IsPtrace blank gp_zeros zeros (in_gp GpField.rax) 4

abbrev with_fault : Process
with_fault = (rax_flipped.gpregs, zeros, 8)

flip_succeeds : try_bit_flip plain blank "rax" 4 after_step ≡ ok (true, rax_flipped, with_fault)
unfolding export_flip export_registers write_byte
flip_succeeds =
    try_bit_flip-eq plain plain-IsPtrace blank "rax" 4 after_step gp_zeros zeros rax_data refl refl
      rax_known (in_gp GpField.rax) (unfold get_reg_ptr in refl) (λ e. cc)

flips : do_bit_flip linux true stepped_over before_step ≡ ok (true, with_fault)
unfolding do_bit_flip single_step get_wait_pid_exit_state flip_and_continue continued
flips = rw flip_succeeds refl

do_bit_flip-ok_example :
    (r : Selected) × (m1 : Process) × (rm' : RegState) × (m2 : Process) × (◌≡◌
      {A = Outcome Selected}
      (ok rax_4)
      (ok r))
    × (r.success ≡ true)
    × ((true ≡ false) ⊎ (◌≡◌ {A = Outcome Bool} (ok false) (ok false)))
    × IsAt linux stepped_over r before_step m1
    × (try_bit_flip plain blank r.descr.name r.bit m1 ≡ ok (true, rm', m2))
    × (some m2 ≡ some with_fault)
do_bit_flip-ok_example = do_bit_flip-ok linux stepped_over true before_step with_fault flips

is_at : IsAt linux stepped_over rax_4 before_step after_step
unfolding get_wait_pid_exit_state
is_at = inr (refl, (1407, refl, (record { exit_type = stopped; val = 5 }, refl, refl, refl)))

do_bit_flip-gp_example :
    (m2 : Process) × (g' : GpRegs) × (some m2.0 ≡ some g')
    × FlipsGp GpField.rax 4 gp_zeros g'
    × (some m2.1 ≡ some zeros)
    × (some m2 ≡ some with_fault)
do_bit_flip-gp_example =
    do_bit_flip-gp linux stepped_over plain-IsPtrace true before_step after_step with_fault rax_4
      gp_zeros zeros rax_data GpField.rax refl is_at refl refl (λ h i. omega arith) rax_known refl
      flips
