-- ===== src/Runner/ChildView.antt =====
-- What the child of src/runner.cpp needs of the system: the manual pages of its calls.
use zofi.Base.{
  List, Option, [], drop, length, none, replicate, some, take, ℕ, ◌*◌, ◌++◌, ◌+◌, ◌-◌, ◌<◌, ◌≡◌,
  ◌≢◌, ◌≤◌,
}
use zofi.Utils.Text.{Text}
use zofi.Runner.Child.{Unix}

-- What can be seen of the system: the open file of a descriptor, the text of an open file and its
-- offset, and the microseconds after which a process gets SIGALRM.
pub record View (P W : Type 0) : Type 0 where
  pub description : ℕ → P → Option ℕ
  pub text_of : ℕ → W → Text
  pub offset_of : ℕ → W → ℕ
  pub timer : P → Option ℕ

-- What write does at an offset, with zeros in a gap.
abbrev pub overwrite : ℕ → Text → Text → Text
overwrite n s t = take n (t ++ replicate (n - length t) 0) ++ (s ++ drop (n + length s) t)

module _ {P W : Type 0} (v : View P W) where
  -- The manual pages of fork, forkpty, dup, dup2, execve, alarm, ualarm and ptrace.
  pub record IsProcess (unix : Unix P W) : Type 0 where
    pub fork-fd : (fd : ℕ) (p : P) → v.description fd (unix.fork p) ≡ v.description fd p
    pub forkpty-fd :
        (fd : ℕ) (p : P) → 2 < fd → v.description fd (unix.forkpty p) ≡ v.description fd p
    pub fork-timer : (p : P) → v.timer (unix.fork p) ≡ none
    pub forkpty-timer : (p : P) → v.timer (unix.forkpty p) ≡ none
    pub dup-fd :
        (d fd f : ℕ) (p : P)
        → v.description fd p ≡ some f
        → v.description fd (unix.dup d p).1 ≡ some f
    pub dup-timer : (d : ℕ) (p : P) → v.timer (unix.dup d p).1 ≡ v.timer p
    pub dup2-new :
        (old new f : ℕ) (p : P)
        → v.description old p ≡ some f
        → v.description new (unix.dup2 old new p) ≡ some f
    pub dup2-others :
        (old new fd : ℕ) (p : P)
        → fd ≢ new
        → v.description fd (unix.dup2 old new p) ≡ v.description fd p
    pub dup2-timer : (old new : ℕ) (p : P) → v.timer (unix.dup2 old new p) ≡ v.timer p
    pub alarm-fd : (n fd : ℕ) (p : P) → v.description fd (unix.alarm n p) ≡ v.description fd p
    pub alarm-off : (p : P) → v.timer (unix.alarm 0 p) ≡ none
    pub alarm-on : (n : ℕ) (p : P) → 0 < n → v.timer (unix.alarm n p) ≡ some (1000000 * n)
    pub ualarm-fd : (n fd : ℕ) (p : P) → v.description fd (unix.ualarm n p) ≡ v.description fd p
    pub ualarm-off : (p : P) → v.timer (unix.ualarm 0 p) ≡ none
    pub ualarm-on : (n : ℕ) (p : P) → 0 < n → n < 1000000 → v.timer (unix.ualarm n p) ≡ some n
    -- EINVAL
    pub ualarm-refused : (n : ℕ) (p : P) → 1000000 ≤ n → v.timer (unix.ualarm n p) ≡ v.timer p
    pub traceme-fd : (fd : ℕ) (p : P) → v.description fd (unix.traceme p).1 ≡ v.description fd p
    pub traceme-timer : (p : P) → v.timer (unix.traceme p).1 ≡ v.timer p
    pub execve-fd :
        (b : Text) (a e : List (Option Text)) (fd : ℕ) (p q : P)
        → unix.execve b a e p ≡ some q
        → v.description fd q ≡ v.description fd p
    pub execve-timer :
        (b : Text) (a e : List (Option Text)) (p q : P)
        → unix.execve b a e p ≡ some q
        → v.timer q ≡ v.timer p

  -- The manual page of ftruncate.
  pub record IsTruncate (unix : Unix P W) : Type 0 where
    pub empties :
        (fd f : ℕ) (p : P) (w : W)
        → v.description fd p ≡ some f
        → v.text_of f (unix.ftruncate fd 0 p w) ≡ []
    pub others :
        (fd f g : ℕ) (p : P) (w : W)
        → v.description fd p ≡ some f
        → g ≢ f
        → v.text_of g (unix.ftruncate fd 0 p w) ≡ v.text_of g w
    pub offsets :
        (fd g : ℕ) (p : P) (w : W) → v.offset_of g (unix.ftruncate fd 0 p w) ≡ v.offset_of g w

  -- A program that writes a text to its standard output.
  pub record IsPrinter (prints : Text → P → W → W) : Type 0 where
    pub writes :
        (o : Text) (f : ℕ) (p : P) (w : W)
        → v.description 1 p ≡ some f
        → v.text_of f (prints o p w) ≡ overwrite (v.offset_of f w) o (v.text_of f w)
    pub moves :
        (o : Text) (f : ℕ) (p : P) (w : W)
        → v.description 1 p ≡ some f
        → v.offset_of f (prints o p w) ≡ v.offset_of f w + length o
