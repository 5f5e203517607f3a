-- ===== src/Runner/DiffCmd.antt =====
-- src/runner.cpp: the placeholders in the user's diff command.
use zofi.Base.{arith, none, some, ℕ, ◌<◌, ◌≡◌}
use zofi.Utils.TextLaws.{count, str_replace-count, str_replace-total}
use zofi.Runner.Verdict.{eval_diff_cmd}
use zofi.Utils.Text.{Text, codes, find_text}
use zofi.ExitState.Compare.{ExecutionExitState}
use mathlib.Core.Option

-- With file names that hold no `%`, evaluating -diff-cmd ends with fuel for each `%` of the command,
-- and no %TEST_STDERR is left in what the shell is given.
pub eval_diff_cmd-total :
    (fuel : ℕ) (cmd : Text) (orig test : ExecutionExitState)
    → count 37 orig.stdout_file ≡ 0
    → count 37 orig.stderr_file ≡ 0
    → count 37 test.stdout_file ≡ 0
    → count 37 test.stderr_file ≡ 0
    → count 37 cmd < fuel
    → (r : Text) × (eval_diff_cmd fuel cmd orig test ≡ some r)
      × (find_text r (codes "%TEST_STDERR") ≡ none)
unfolding eval_diff_cmd Option.bind
eval_diff_cmd-total fuel cmd orig test h1 h2 h3 h4 h =
    let (a, ran_a, _) = str_replace-total fuel cmd (codes "ORIG_STDOUT") orig.stdout_file 37 h1 h in
    let a_less = str_replace-count fuel cmd (codes "ORIG_STDOUT") orig.stdout_file a 37 h1 ran_a in
    let (b, ran_b, _) =
      str_replace-total fuel a (codes "ORIG_STDERR") orig.stderr_file 37 h2 (omega arith) in
    let b_less = str_replace-count fuel a (codes "ORIG_STDERR") orig.stderr_file b 37 h2 ran_b in
    let (c, ran_c, _) =
      str_replace-total fuel b (codes "TEST_STDOUT") test.stdout_file 37 h3 (omega arith) in
    let c_less = str_replace-count fuel b (codes "TEST_STDOUT") test.stdout_file c 37 h3 ran_c in
    let (r, ran_r, clean) =
      str_replace-total fuel c (codes "TEST_STDERR") test.stderr_file 37 h4 (omega arith) in
    (r, rw (ran_a, eval_diff_cmd) (rw ran_b (rw ran_c ran_r)), clean)
