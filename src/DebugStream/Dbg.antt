-- ===== src/DebugStream/Dbg.antt =====
-- src/debugstream.h and src/debugstream.cpp: class Dbg and the macro dbg, and getTimestamp of
-- src/utils.h. The stream is std::cerr.
use zofi.Base.{Bool, List, [], false, leb, negsuc, pos, true, ℕ, ℤ, ◌%◌, ◌++◌, ◌∷◌}
use zofi.Utils.Text.{Text, codes}
use zofi.Utils.Print.{decimal, signed_decimal}

pub record Dbg : Type 0 where
  pub program_verbose_level : ℤ
  pub msg_level : ℤ

-- Dbg::Dbg, with the value that -v has at the time.
unfoldable pub make_dbg : ℤ → ℤ → Dbg
make_dbg verbose_level msg_level = record {
  program_verbose_level = verbose_level;
  msg_level = msg_level;
}

-- a >= b
unfoldable pub at_least : ℤ → ℤ → Bool
at_least (pos a) (pos b) = leb b a
at_least (pos a) (negsuc b) = true
at_least (negsuc a) (pos b) = false
at_least (negsuc a) (negsuc b) = leb a b

-- The test of operator<<.
unfoldable pub is_shown : Dbg → Bool
is_shown d = at_least d.program_verbose_level d.msg_level

-- getTimestamp, from the milliseconds of the clock.
unfoldable pub get_timestamp : ℕ → ℕ
get_timestamp millis = millis % 65536

-- One `<<`: its stream object and what is printed.
pub record Call : Type 0 where
  pub stream : Dbg
  pub str : Text

unfoldable pub calls_of : Dbg → List Text → List Call
calls_of d [] = []
calls_of d (s ∷ l) = record { stream = d; str = s } ∷ calls_of d l

-- `dbg(LEVEL) << ...` in a function.
unfoldable pub dbg : ℤ → ℤ → ℕ → Text → List Text → List Call
dbg verbose_level level millis function pieces =
    calls_of (make_dbg verbose_level level)
      (codes "[" ∷ decimal (get_timestamp millis) ∷ codes "] " ∷ function ∷ codes "(): " ∷ pieces)

-- Dbg::dump
unfoldable pub dump_dbg : Dbg → Text
dump_dbg d =
    codes "ProgramVerboseLevel: "
    ++ (signed_decimal d.program_verbose_level
        ++ (codes "\n" ++ (codes "MsgLevel: " ++ (signed_decimal d.msg_level ++ codes "\n"))))
