-- ===== src/Lib.antt =====
-- ZOFI injects faults: it runs a program under ptrace, stops it at a random time, flips a bit of
-- a register, lets it go on, and compares how it ends with a timing run. This library models the
-- parts of it that decide something, and proves what makes them correct.
--
-- Parts and files
--   Base          names shared by all modules: Boolean tests, lists, the outcomes of a function
--                 (a value, die or assert, userDie), counted loops, integers.
--   Utils         src/utils.h, src/utils.cpp: isIn and strReplace (Text), the number parsers
--                 (Number), randSafe (Rand), defaultDiff (Diff), prettyPrintTime (Time), the
--                 conversions of sscanf (Scan), those of printf and the stream (Print).
--                 Proofs: PrintLaws and others.
--   Regs          src/regManip.h, src/regManip.cpp, src/regs.def: RegData and the registers
--                 (Data), struct XSave and VecRegsState (XSave), the table (Table), the
--                 RegisterManipulator with tryBitFlip (Manip), getInstrRegisters (Insn),
--                 getSelectedRegAndBit (Select), dump and dumpMachine (Dump). Proofs:
--                 TableLaws, XSaveLaws, ExportLaws, Flip, SelectLaws, Known, Chosen, DumpLaws.
--   Statistics    src/statistics.h, src/statistics.cpp, incrStatsCounter of src/threads.cpp, and
--                 the order in which main of src/zofi.cpp fills them: Store, Counts, Report.
--   ExitState     src/exitState.h, src/exitState.cpp, getWaitPidExitState of src/runner.cpp:
--                 Data, Compare, ExecutionExitState::import (Import), getDumpStr (Dump). Proofs:
--                 ImportLaws, DumpLaws.
--   Runner        src/runner.cpp: waitpidSkipThreadState and getRandomChildThreadPID (Wait),
--                 waitChildAndGetStatus and checkOutput (Verdict), stopChildAfter, doBitFlip,
--                 tryInjectFaultAt and the loop of runAndWait (Inject), the constructor, the
--                 destructor and the parent's side of run (Lifecycle), its child's side (Child),
--                 runAndWait of both runners (Whole), childJobCode of src/threads.cpp (JobCode),
--                 the thread that sleeps (Race), initFiles (InitFiles). Proofs: InitFilesLaws,
--                 ChildLaws, ChildFiles, WaitLaws, Threads, VerdictLaws, Counted, DiffCmd,
--                 Attempts, InjectLaws, FaultLaws, LifecycleLaws, LifetimeLaws, WholeLaws, JobFiles.
--   Main          src/zofi.cpp: main after the options are read (Program). Proofs: ProgramLaws,
--                 Overrides.
--   Scheduler     src/threads.h, src/threads.cpp: waitForJob and run with the results handed over
--                 (Jobs), with the progress bar too (BarRun), and with the pipes, the seeds and the
--                 descriptors (Pipes). Proofs: JobsLaws, Complete, Campaign; BarShown, BarLines,
--                 BarWhole; Opened, PipesLaws, PipesRun, PipesLaunch, PipesWhole, PipesTotal,
--                 PipesCampaign; OnceEach, Masked, MaskedRuns, which join the scheduler to the
--                 verdicts of Runner.
--   AddrSpace     src/addrSpace.h, src/addrSpace.cpp: Mapping and isInLibrary (Mappings), parse
--                 (Maps), both together (Lookup). Proofs: Found, Library, MapsLaws.
--   Options       src/options.h, src/options.cpp, src/optionsList.cpp: Option<T> (Values),
--                 OptionsMap (Registry), the options of the program (Table), parse (Parse),
--                 sanityChecks and the checks of init (Checks), init and helpMessages (Init),
--                 printAllOptions (HelpText). Proofs: ChecksLaws, ParseLaws, Rendered, ValuesLaws,
--                 LastValue, HelpTextLaws, JobsOption, InitLaws.
--   DebugStream   src/debugstream.h, src/debugstream.cpp: the class Dbg (Dbg) and its lock under
--                 several threads (Threads). Proofs: ThreadsLaws.
--   ProgressBar   src/progressbar.h, src/progressbar.cpp: the bar (Bar). Proofs: BarLaws.
--
-- The scheduler runs each test in a process of its own, which runs the Runner: this calls the
-- register manipulation for the flip and the comparison of exit states for the verdict, and the
-- verdict goes back to the scheduler, which counts it in Statistics. Main reads the options, has the
-- scheduler make the timing run and the test runs, and prints the statistics.
--
-- Modelling
--   Each C++ function is a function by clauses of the same name in snake_case. An int that the code
--   only compares is a natural number; an unsigned or unsigned long that can wrap keeps its
--   modulus. The assertions are kept, as in the default build: a failed one is `die`. The asserts
--   of the constructors of RegData are part of its getters.
--   Memory is a function from offsets to bytes: user_regs_struct by field and byte, the XSAVE
--   buffer by its offset, the rows of `zmm` by 64 times the row plus the byte.
--   ptrace, capstone, rand, fork, waitpid, the shell and the files are parameters: records of the
--   functions that the code calls. What is assumed of them stands in IsPtrace (what is written can
--   be read back), IsKernel (waitpid gives a child that exited), IsPipe (pipe gives two free
--   descriptors), IsMkstemp (mkstemp, where it succeeds, replaces the six last characters of its
--   template such that the path is new), and
--   IsProcess and IsTruncate of Runner/ChildView (what fork, dup2, ftruncate, alarm, ualarm and
--   execve do to descriptors, files and timers).
--
-- Fuel
--   str_replace needs one unit for each occurrence of the first byte of the needle, and one more.
--   inject_loop needs as many as -max-injection-attempts. run, with the pipes or the bar or without,
--   needs total + jobs + 2. decimal carries its own fuel, the number it prints and one more.
--   default_diff carries its own fuel, the length of a file.
--   The fuel of split_lines is the length of the description. run_and_wait has that of inject_loop.
--
-- Not modelled
--   Signals and timing, the text of the error messages, the counter before the progress bar, what
--   the options print other than their descriptions, the precision of the debug output, floating
--   point values (a parameter where they are stored), the text layout of the reports, what import of
--   ExecutionExitState overwrites past the end of a full buffer, whether the cleanup after the
--   kill in tryInjectFaultAt comes to its end, and the shell scripts under test/.
pub mod Base
pub mod Utils
pub mod Regs
pub mod Statistics
pub mod ExitState
pub mod Runner
pub mod Scheduler
pub mod Options
pub mod AddrSpace
pub mod ProgressBar
pub mod DebugStream
pub mod Main
