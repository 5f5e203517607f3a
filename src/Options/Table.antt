-- ===== src/Options/Table.antt =====
-- src/optionsList.cpp: the options with their types, initial values and descriptions.
use zofi.Options.Values.{
  Kind, OptionVar, Value, bytes, chars, natural, real, signed, strings, truth,
}
use zofi.Options.Registry.{OptionsMap, add_option}
use zofi.Utils.Text.{Text, codes}
use zofi.Base.{List, [], false, none, pos, some, ℕ, ◌∷◌}

-- The constructor of Option<T>.
abbrev option : {D : Type 0} → Text → Kind → Value D → Text → OptionVar D
option f k v descr = record { flag = f; kind = k; description = descr; val = v; is_set = false }

-- The constructors of the options run in the order of the file. `decimal a b` is the double a.b.
unfoldable pub options_list : {D : Type 0} → (ℕ → ℕ → D) → List (OptionVar D)
options_list decimal =
    option (codes "-inject-to") Kind.string (bytes (codes "rwe")) (
      codes
        "Inject errors to: registers read(r) or written(w). You can select between explicitly(e) and/or implicitly(i) accessed registers and/or the instruction pointer (c and/or o). Using `c` accepts only control-flow instructions, while `o` accepts all others.")
    ∷ option (codes "-force-inject-to-reg") Kind.string (bytes (codes "")) (
        codes
          "Force fault injection to a specific register, regardless of whether the current instruction accesses it or not. Pass 'help' for a list of available registers.")
    ∷ option (codes "-force-inject-to-bit") Kind.string (bytes (codes "")) (
        codes
          "Force fault injection to the specified bit. To get a list of the legal bits for each register please pass 'help'.")
    ∷ option (codes "-bin") Kind.cstr (chars none) (codes "The binary to inject faults into.")
    ∷ option (codes "-args") Kind.cstrs (strings none) (
        codes
          "The command line arguments for the binary. Note: This should be placed last. Every argument that follows is considered to be an argument for the binary, not for zofi.")
    ∷ option (codes "-injections-per-run") Kind.unsigned (natural 1)
        (codes "The number of fault injections per program run.")
    ∷ option (codes "-injection-time") Kind.double (real (decimal 0 0))
        (codes "Fault injection should occur after this many seconds")
    ∷ option (codes "-max-injection-attempts") Kind.int (signed (pos 100))
        (codes "Stop trying to inject after this many attempts.")
    ∷ option (codes "-test-runs") Kind.unsigned (natural 1) (codes "The number of test runs.")
    ∷ option (codes "-j") Kind.unsigned (natural 1) (
        codes
          "The number of parallel jobs. Use -j 0 for automatically detecting the number of HW threads supported by the CPU.")
    ∷ option (codes "-bin-exec-time") Kind.double (real (decimal 0 0)) (
        codes
          "The execution time of the binary in microseconds. If not set, it will be measured with a test run.")
    ∷ option (codes "-bin-exec-time-overshoot") Kind.double (real (decimal 1 1)) (
        codes
          "The original run may be slightly faster than the test runs. To accommodate for this, we multiply the original execution by this much.")
    ∷ option (codes "-inf-exec-timeout-mul") Kind.ulong (natural 4) (
        codes
          "The timeout for infinte execution is calculated as Base + Time * Mul. This is the 'Mul' part.")
    ∷ option (codes "-inf-exec-timeout-base") Kind.double (real (decimal 0 3)) (
        codes
          "The timeout for infinte execution is calculated as Base + Time * Mul. This is the 'Base' part (in seconds).")
    ∷ option (codes "-diff-cmd") Kind.string (bytes (codes "")) (
        codes
          "Provide a custom diff command for comparing the outputs. The macros \"%ORIG_STDOUT\", \"%ORIG_STDERR\", \"%TEST_STDOUT\", \"%TEST_STDERR\" will be replaced by the corresponding files. Note: you can specify a different shell with -diff-shell.")
    ∷ option (codes "-diff-shell") Kind.cstr (chars (some (codes "/bin/bash")))
        (codes "Specify a shell for -diff-cmd. The default is /bin/bash.")
    ∷ option (codes "-diff-disable-redirect") Kind.bool (truth false) (
        codes
          "Don't redirect the stdout and stderr of the custom -diff-cmd. This is for debugging.")
    ∷ option (codes "-help") Kind.bool (truth false) (codes "Print the help message and exit.")
    ∷ option (codes "-version") Kind.bool (truth false) (codes "Print the version and exit.")
    ∷ option (codes "-no-redirect") Kind.bool (truth false)
        (codes "Don't redirect the stdout and stderr")
    ∷ option (codes "-stdout-path") Kind.string (bytes (codes "/tmp/zofi.Stdout"))
        (codes "The path prefix where the stdout will get dumped.")
    ∷ option (codes "-stderr-path") Kind.string (bytes (codes "/tmp/zofi.Stderr"))
        (codes "The path prefix where the stderr will get dumped.")
    ∷ option (codes "-v") Kind.int (signed (pos 1)) (codes "The program's verbosity level.")
    ∷ option (codes "-no-progress-bar") Kind.bool (truth false) (codes "Disable the progress bar.")
    ∷ option (codes "-no-inject-to-libs") Kind.bool (truth false)
        (codes "Inject faults to external dynamically linked code.")
    ∷ option (codes "-no-cleanup") Kind.bool (truth false) (codes "Do not remove temparary files.")
    ∷ option (codes "-detection-exit-code") Kind.int (signed (pos 0)) (
        codes
          "If the binary is protected by an error detection technique, then this is the exit code returned upon detection of an error. Please use a positive value <= 125 to enable this feature.")
    ∷ option (codes "-out-csv") Kind.cstr (chars none) (codes "Output statistics to this CSV file.")
    ∷ option (codes "-out-moufoplot") Kind.cstr (chars none)
        (codes "Output statistics in Moufoplot format using this dir.")
    ∷ option (codes "-set-orig-exit-state") Kind.cstr (chars none) (
        codes
          "Set the exit state of the original run, without running the workload. This should be in the form /path/to/stdout,/path/to/stderr,{exited:<EXIT_CODE>,signaled:<SIGNAL>}")
    ∷ option (codes "-disable-timing-run") Kind.bool (truth false)
        (codes "Skip the original timing run.")
    ∷ []

-- OptionsMap once every constructor has run.
unfoldable pub add_options : {D : Type 0} → List (OptionVar D) → OptionsMap D → OptionsMap D
add_options [] m = m
add_options (o ∷ l) m = add_options l (add_option o m)

unfoldable pub option_table : {D : Type 0} → (ℕ → ℕ → D) → OptionsMap D
option_table decimal = add_options (options_list decimal) []
