-- ===== src/Runner/ChildFiles.antt =====
-- src/runner.cpp: the standard output and error of the program, and their files after some attempts.
use zofi.Base.{
  ◌-◌, List, ap, drop, length, map, refl, replicate, suc, take, ◌++◌, ◌+◌, ◌∷◌, Bool, [], arith,
  false, ok, some, true, ℕ, ◌<◌, ◌∙◌, ◌≡◌, ◌≢◌, zero,
}
use zofi.Runner.ChildLaws.{prepared, alarm_safe-fd, save_output-fd, child_side-prepared}
use zofi.Utils.Text.{Text}
use zofi.Runner.Child.{
  alarm_safe, attempts, fork_child, inf_exec_timeout, save_output, ChildOptions, Floats, Unix,
  child_side, redirect,
}
use zofi.Runner.ChildView.{overwrite, View, IsProcess, IsTruncate, IsPrinter}
use mathlib.Core.List.{append-nil}

-- The bytes of all texts.
abbrev pub total : List Text → ℕ
total [] = 0
total (s ∷ l) = length s + total l

take-replicate : (n : ℕ) → take {A = ℕ} n (replicate n 0) ≡ replicate n 0
take-replicate zero = refl
take-replicate (suc n) = ap (λ (l : Text). 0 ∷ l) (take-replicate n)

sub_zero : (n : ℕ) → n - 0 ≡ n
sub_zero n = omega arith

drop-nil : (n : ℕ) → drop {A = ℕ} n [] ≡ []
drop-nil zero = refl
drop-nil (suc n) = refl

overwrite-empty : (n : ℕ) (s : Text) → overwrite n s [] ≡ replicate n 0 ++ s
overwrite-empty n s =
    ap (λ (m : ℕ). take n (replicate m 0) ++ (s ++ drop (n + length s) [])) (sub_zero n)
    ∙ rw (take-replicate n, drop-nil (n + length s), append-nil s) refl

module _ {D P W : Type 0} (floats : Floats D) (unix : Unix P W) (v : View P W)
    (proc : IsProcess v unix) (cut : IsTruncate v unix) where
  -- What redirection leaves to the program: `f` and `g` are the files of stdout and stderr.
  pub record Redirected (f g : ℕ) (w : W) (c : P) (w' : W) : Type 0 where
    pub stdout : v.description 1 c ≡ some f
    pub stderr : v.description 2 c ≡ some g
    pub out_empty : v.text_of f w' ≡ []
    pub err_empty : v.text_of g w' ≡ []
    pub others : (h : ℕ) → h ≢ f → h ≢ g → v.text_of h w' ≡ v.text_of h w
    pub offsets : (h : ℕ) → v.offset_of h w' ≡ v.offset_of h w

  fork_child-fd :
      (b : Bool) (fd : ℕ) (p : P)
      → b ≡ false
      → 2 < fd
      → v.description fd (fork_child floats unix b p) ≡ v.description fd p
  unfolding fork_child
  fork_child-fd true fd p e above = cc
  fork_child-fd false fd p e above = proc.forkpty-fd fd p above

  redirect-Redirected :
      (b : Bool) (out err f g : ℕ) (p : P) (w : W)
      → b ≡ false
      → v.description out p ≡ some f
      → v.description err p ≡ some g
      → err ≢ 1
      → f ≢ g
      → Redirected f g w
          (redirect floats unix b out err p w).0
          (redirect floats unix b out err p w).1
  unfolding redirect
  redirect-Redirected true out err f g p w e o_fd e_fd above distinct = cc
  redirect-Redirected false out err f g p w e o_fd e_fd above distinct = record {
    stdout =
        proc.dup2-others err 2 1 (unix.dup2 out 1 p) (ground arith) ∙ proc.dup2-new out 1 f p o_fd;
    stderr = proc.dup2-new err 2 g (unix.dup2 out 1 p) (proc.dup2-others out 1 err p above ∙ e_fd);
    out_empty =
        cut.others err g f p (unix.ftruncate out 0 p w) e_fd distinct ∙ cut.empties out f p w o_fd;
    err_empty = cut.empties err g p (unix.ftruncate out 0 p w) e_fd;
    others = λ h hf hg.
        cut.others err g h p (unix.ftruncate out 0 p w) e_fd hg ∙ cut.others out f h p w o_fd hf;
    offsets = λ h. cut.offsets err h p (unix.ftruncate out 0 p w) ∙ cut.offsets out h p w;
  }

  module _ (o : ChildOptions D) (t : D) (timed : o.bin_exec_time ≡ some t)
      (redirects : o.no_redirect ≡ false) (traces : (p : P) → (unix.traceme p).0 ≡ true)
      (starts : (p : P) → (c : P) × (unix.execve o.binary o.argv o.argp p ≡ some c))
      (out err f g : ℕ) (above : 2 < out) (above' : 2 < err) (apart : f ≢ g) where
    -- With redirection, and where ptrace and execve succeed: the child comes to its program, whose
    -- descriptors 1 and 2 are the two files, which are empty then, while no other file and no offset
    -- has changed.
    pub child_side-Redirected :
        (p : P) (w : W)
        → v.description out p ≡ some f
        → v.description err p ≡ some g
        → (c : P) × (w' : W) × (child_side floats unix true o out err p w ≡ ok (c, w'))
          × Redirected f g w c w'
    child_side-Redirected p w o_fd e_fd =
        let q = save_output floats unix o.no_redirect p in
        let secs = inf_exec_timeout floats unix o t in
        let a = alarm_safe floats unix secs q in
        let ready = λ (fd h : ℕ) (e : v.description fd p ≡ some h).
          alarm_safe-fd floats unix v proc secs fd q
          ∙ save_output-fd floats unix v proc o.no_redirect fd h p e in
        let m =
          redirect-Redirected o.no_redirect out err f g a w redirects (ready out f o_fd)
            (ready err g e_fd) (ground arith) apart in
        let (c, e, fds, timer) =
          child_side-prepared floats unix v proc o t timed traces starts out err p w in
        (
          c,
          (prepared floats unix v proc o t timed traces starts out err p w).1,
          e,
          record {
            stdout = fds 1 ∙ m.stdout;
            stderr = fds 2 ∙ m.stderr;
            out_empty = m.out_empty;
            err_empty = m.err_empty;
            others = m.others;
            offsets = m.offsets;
          },
        )

    module _ (prints : Text → P → W → W) (printer : IsPrinter v prints) (p : P)
        (o_fd : v.description out p ≡ some f) (e_fd : v.description err p ≡ some g) where
      one_attempt :
          (s : Text) (l : List Text) (w : W)
          → (w' : W) × (attempts floats unix o out err p (map prints (s ∷ l)) w
              ≡ attempts floats unix o out err p (map prints l) w')
            × (v.text_of f w' ≡ replicate (v.offset_of f w) 0 ++ s)
            × (v.offset_of f w' ≡ v.offset_of f w + length s)
      unfolding attempts
      one_attempt s l w =
          let child = fork_child floats unix o.no_redirect p in
          let (c, w', e, m) =
            child_side-Redirected child w (fork_child-fd o.no_redirect out p redirects above ∙ o_fd)
              (fork_child-fd o.no_redirect err p redirects above' ∙ e_fd) in
          (
            prints s c w',
            rw e refl,
            printer.writes s f c w' m.stdout
                ∙ ap (λ t. overwrite (v.offset_of f w') s t) m.out_empty
                ∙ overwrite-empty (v.offset_of f w') s
                ∙ ap (λ n. replicate n 0 ++ s) (m.offsets f),
            printer.moves s f c w' m.stdout ∙ ap (λ n. n + length s) (m.offsets f),
          )

      -- With redirection, and where each child comes to its program and the program prints a text:
      -- the attempts come to an end, and the file of the standard output then holds a zero byte for
      -- each byte that the attempts before the last have printed, and after these what the last
      -- program has printed. The files start at offset `v.offset_of f w`.
      pub attempts-out :
          (before : List Text) (last : Text) (w : W)
          → (w' : W) × (attempts floats unix o out err p (map prints (before ++ last ∷ [])) w
              ≡ ok w')
            × (v.text_of f w' ≡ replicate (v.offset_of f w + total before) 0 ++ last)
      unfolding attempts
      attempts-out [] last w =
          let (w', e, text, moved) = one_attempt last [] w in
          (w', e, text ∙ ap (λ n. replicate n 0 ++ last) (omega arith))
      attempts-out (s ∷ before) last w =
          let (w', e, text, moved) = one_attempt s (before ++ last ∷ []) w in
          let (w'', e', text') = attempts-out before last w' in
          (w'', e ∙ e', text' ∙ ap (λ n. replicate n 0 ++ last) (omega (arith, moved)))
