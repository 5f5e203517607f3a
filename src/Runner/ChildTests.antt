-- ===== src/Runner/ChildTests.antt =====
-- The child's side of run, on a concrete system whose doubles are whole microseconds.
use zofi.Runner.ChildView.{overwrite, View, IsProcess, IsTruncate, IsPrinter}
use zofi.Runner.ChildFiles.{Redirected, attempts-out, child_side-Redirected, total}
use zofi.Runner.Child.{ChildOptions, attempts, child_side, inf_exec_timeout, Floats, Unix}
use zofi.Base.{
  false, length, map, ok, replicate, ◌++◌, ◌↔◌, ◌∷◌, ==_iff, Bool-cases, Option, [], ap, arith,
  if◌then◌else◌, inl, inr, leb, ltb, lt→ltb, none, refl, some, some_inj, sym, true, ℕ, ◌*◌, ◌+◌,
  ◌/◌, ◌==◌, ◌∙◌, ◌≡◌, ◌≢◌,
}
use zofi.Runner.ChildLaws.{IsUnset, child_side-no_timer_iff}
use zofi.Utils.Text.{codes, Text}

record Proc : Type 0 where
  fds : ℕ → Option ℕ
  timer : Option ℕ

record Disk : Type 0 where
  texts : ℕ → Text
  offsets : ℕ → ℕ

abbrev put {ℓ} : {A : Type ℓ} → ℕ → A → (ℕ → A) → ℕ → A
put k a f j = if j == k then a else f j

put_here {ℓ} : {A : Type ℓ} (k : ℕ) (a : A) (f : ℕ → A) → put k a f k ≡ a
put_here k a f = rw ((==_iff k k).1 refl) refl

put_there {ℓ} : {A : Type ℓ} (k j : ℕ) (a : A) (f : ℕ → A) → j ≢ k → put k a f j ≡ f j
put_there k j a f apart = elim (Bool-cases (j == k)) [
  | inl same ↦ absurd (apart ((==_iff j k).0 same))
  | inr other_one ↦ rw other_one refl
]

-- A descriptor that is used for every copy, while it is free.
abbrev copy_to : Option ℕ → ℕ → Proc → Option ℕ × Proc
copy_to none d p = (some 20, record p { fds = put 20 (p.fds d) p.fds })
copy_to (some f) d p = (none, p)

abbrev microseconds : Floats ℕ
microseconds = record {
  plus = λ a b. a + b;
  times = λ a b. a * b;
  le_one = λ t. leb t 1000000;
  micros = λ t. t;
  ceil = λ t. (t + 999999) / 1000000;
}

abbrev empty_at : Option ℕ → Disk → Disk
empty_at none w = w
empty_at (some f) w = record w { texts = put f [] w.texts }

abbrev ualarm_timer : ℕ → Option ℕ → Option ℕ
ualarm_timer n before = if n == 0 then none else if ltb n 1000000 then some n else before

abbrev sample_unix : Unix Proc Disk
sample_unix = record {
  fork = λ p. record p { timer = none };
  forkpty = λ p. record { fds = λ fd. if ltb 2 fd then p.fds fd else some 90; timer = none };
  dup = λ d p. copy_to (p.fds 20) d p;
  dup2 = λ old new p. record p { fds = put new (p.fds old) p.fds };
  ftruncate = λ fd n p w. empty_at (p.fds fd) w;
  ualarm = λ n p. record p { timer = ualarm_timer n p.timer };
  alarm = λ n p. record p { timer = if n == 0 then none else some (1000000 * n) };
  traceme = λ p. (true, p);
  execve = λ b a e p. some p;
}

abbrev sample_view : View Proc Disk
sample_view = record {
  description = λ fd p. p.fds fd;
  text_of = λ f w. w.texts f;
  offset_of = λ f w. w.offsets f;
  timer = λ p. p.timer;
}

copy_to-fd :
    (at20 : Option ℕ) (d fd f : ℕ) (p : Proc)
    → p.fds 20 ≡ at20
    → p.fds fd ≡ some f
    → (copy_to at20 d p).1.fds fd ≡ some f
copy_to-fd none d fd f p free e = elim (Bool-cases (fd == 20)) [
  | inl same ↦ cc (free, e, (==_iff fd 20).0 same)
  | inr other_one ↦ rw other_one e
]
copy_to-fd (some g) d fd f p used e = e

copy_to-timer : (at20 : Option ℕ) (d : ℕ) (p : Proc) → (copy_to at20 d p).1.timer ≡ p.timer
copy_to-timer none d p = refl
copy_to-timer (some g) d p = refl

sample-IsProcess : IsProcess sample_view sample_unix
sample-IsProcess = record {
  fork-fd = λ fd p. refl;
  forkpty-fd = λ fd p above. rw (lt→ltb 2 fd above) refl;
  fork-timer = λ p. refl;
  forkpty-timer = λ p. refl;
  dup-fd = λ d fd f p e. copy_to-fd (p.fds 20) d fd f p refl e;
  dup-timer = λ d p. copy_to-timer (p.fds 20) d p;
  dup2-new = λ old new f p e. put_here new (p.fds old) p.fds ∙ e;
  dup2-others = λ old new fd p apart. put_there new fd (p.fds old) p.fds apart;
  dup2-timer = λ old new p. refl;
  alarm-fd = λ n fd p. refl;
  alarm-off = λ p. refl;
  alarm-on = λ n p some_time. ground arith;
  ualarm-fd = λ n fd p. refl;
  ualarm-off = λ p. refl;
  ualarm-on = λ n p some_time small. ground arith;
  ualarm-refused = λ n p large. ground arith;
  traceme-fd = λ fd p. refl;
  traceme-timer = λ p. refl;
  execve-fd = λ b a e fd p q same. ap (λ (x : Proc). x.fds fd) (sym (some_inj same));
  execve-timer = λ b a e p q same. ap (λ (x : Proc). x.timer) (sym (some_inj same));
}

empty_at-offsets : (m : Option ℕ) (g : ℕ) (w : Disk) → (empty_at m w).offsets g ≡ w.offsets g
empty_at-offsets none g w = refl
empty_at-offsets (some f) g w = refl

sample-IsTruncate : IsTruncate sample_view sample_unix
sample-IsTruncate = record {
  empties = λ fd f p w e. rw e (put_here f [] w.texts);
  others = λ fd f g p w e apart. rw e (put_there f g [] w.texts apart);
  offsets = λ fd g p w. empty_at-offsets (p.fds fd) g w;
}

abbrev print_at : Option ℕ → Text → Disk → Disk
print_at none o w = w
print_at (some f) o w = record {
  texts = put f (overwrite (w.offsets f) o (w.texts f)) w.texts;
  offsets = put f (w.offsets f + length o) w.offsets;
}

abbrev sample_prints : Text → Proc → Disk → Disk
sample_prints o p w = print_at (p.fds 1) o w

sample_prints-IsPrinter : IsPrinter sample_view sample_prints
sample_prints-IsPrinter = record {
  writes = λ o f p w e. rw e (put_here f (overwrite (w.offsets f) o (w.texts f)) w.texts);
  moves = λ o f p w e. rw e (put_here f (w.offsets f + length o) w.offsets);
}

-- A program that ends at once, with a timeout of a second.
abbrev quick_options : ChildOptions ℕ
quick_options = record {
  binary = codes "/bin/true";
  argv = some (codes "/bin/true") ∷ none ∷ [];
  argp = none ∷ [];
  no_redirect = false;
  inf_exec_timeout_base = 1000000;
  inf_exec_timeout_mul = 2;
  bin_exec_time = some 0;
}

-- The runner's process, with its two files on 5 and 6.
abbrev runner_process : Proc
runner_process = record { fds = put 5 (some 100) (put 6 (some 101) (λ fd. none)); timer = none }

abbrev old_texts : Disk
old_texts = record { texts = λ f. codes "old"; offsets = λ f. 0 }

child_side-no_timer_iff_example :
    (c : Proc) × (w' : Disk) × (child_side microseconds sample_unix true quick_options 5 6
        runner_process old_texts
      ≡ ok (c, w'))
    × (c.timer ≡ none
        ↔ IsUnset microseconds sample_unix sample_view sample-IsProcess
            (inf_exec_timeout microseconds sample_unix quick_options 0))
child_side-no_timer_iff_example =
    child_side-no_timer_iff microseconds sample_unix sample_view sample-IsProcess quick_options 0
      refl (λ p. refl) (λ p. (p, refl)) 5 6 runner_process old_texts refl

child_side-Redirected_example :
    (c : Proc) × (w' : Disk) × (child_side microseconds sample_unix true quick_options 5 6
        runner_process old_texts
      ≡ ok (c, w'))
    × Redirected microseconds sample_unix sample_view sample-IsProcess sample-IsTruncate 100 101
        old_texts c w'
child_side-Redirected_example =
    child_side-Redirected microseconds sample_unix sample_view sample-IsProcess sample-IsTruncate
      quick_options 0 refl refl (λ p. refl) (λ p. (p, refl)) 5 6 100 101 (omega arith) (omega arith)
      (omega arith) runner_process old_texts refl refl

attempts-out_example :
    (w' : Disk) × (attempts microseconds sample_unix quick_options 5 6 runner_process
        (map sample_prints ((codes "ab" ∷ []) ++ codes "abc" ∷ []))
        old_texts
      ≡ ok w')
    × (w'.texts 100 ≡ replicate (0 + total (codes "ab" ∷ [])) 0 ++ codes "abc")
attempts-out_example =
    attempts-out microseconds sample_unix sample_view sample-IsProcess sample-IsTruncate
      quick_options 0 refl refl (λ p. refl) (λ p. (p, refl)) 5 6 100 101 (omega arith) (omega arith)
      (omega arith) sample_prints sample_prints-IsPrinter runner_process refl refl (codes "ab" ∷ [])
      (codes "abc") old_texts
