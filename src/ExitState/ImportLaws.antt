-- ===== src/ExitState/ImportLaws.antt =====
-- src/exitState.cpp: import on texts of the form that sscanf reads.
use zofi.Scheduler.BarLines.{both}
use zofi.Base.{
  if◌then◌else◌, user_die, >>=-eq-ok, Bool-cases, Option-cases, ap, inl, inr, ok-injective, set,
  sym, ◌||◌, die, ok, to_unsigned, ◌>>=◌, ◌∙◌, Bool, [], arith, leb, length, not, refl, some, suc,
  true, zero, ℕ, ℤ, ◌&&◌, ◌++◌, ◌==◌, ◌∷◌, ◌≡◌, ◌≤◌,
}
use zofi.Utils.Scan.{scan_char, scan_field, scan_until}
use zofi.ExitState.Import.{
  Scanned, import_execution, import_scanned, max_ty_sz, scan_exit_state, scan_int,
}
use zofi.Utils.Diff.{same_bytes}
use zofi.ExitState.Compare.{ExecutionExitState}
use zofi.ExitState.Data.{ExitType, exited, import, invalid, signaled, stopped}
use zofi.Utils.Text.{codes, Text}
use zofi.Utils.Number.{is_empty}

-- A text that a scanset of this width takes whole, up to a byte it stops at.
abbrev pub lacks : ℕ → Text → Bool
lacks stop [] = true
lacks stop (c ∷ s) = not (c == stop) && lacks stop s

abbrev pub is_field : ℕ → ℕ → Text → Bool
is_field n stop s = not (is_empty s) && (leb (length s) n && lacks stop s)

scan_until_whole :
    (n stop : ℕ) (s rest : Text)
    → length s ≤ n
    → lacks stop s ≡ true
    → scan_until n stop (s ++ stop ∷ rest) ≡ (s, stop ∷ rest)
unfolding scan_until
scan_until_whole zero stop [] rest le h = refl
scan_until_whole (suc n) stop [] rest le h = ground arith
scan_until_whole zero stop (c ∷ s) rest le h = absurd (omega arith)
scan_until_whole (suc n) stop (c ∷ s) rest le h = ground (arith, scan_until_whole n stop s rest)

scan_field_whole :
    (n stop : ℕ) (s rest : Text)
    → is_field n stop s ≡ true
    → scan_field n stop (s ++ stop ∷ rest) ≡ some (s, stop ∷ rest)
unfolding scan_field
scan_field_whole n stop [] rest h = cc
scan_field_whole n stop (c ∷ s) rest h =
    rw (scan_until_whole n stop (c ∷ s) rest (ground arith) (ground arith)) refl

scan_char_here : (c : ℕ) (s : Text) → scan_char c (c ∷ s) ≡ some s
unfolding scan_char
scan_char_here c s = ground arith

-- The form that import reads.
abbrev pub state_text : Text → Text → Text → Text → Text
state_text out err type_str digits = out ++ b',' ∷ (err ++ b',' ∷ (type_str ++ b':' ∷ digits))

module _ (fname_sz : ℕ) (out err type_str digits : Text) (v : ℤ) where
  scan_exit_state_lem :
      is_field fname_sz b',' out ≡ true
      → is_field fname_sz b',' err ≡ true
      → is_field max_ty_sz b':' type_str ≡ true
      → scan_int digits ≡ some v
      → scan_exit_state fname_sz (state_text out err type_str digits)
        ≡ some (record { out = out; err = err; type_str = type_str; number = v })
  unfolding scan_exit_state mathlib.Core.Option.bind
  scan_exit_state_lem ho he ht hd =
      rw
        (
          scan_field_whole fname_sz b',' out _ ho,
          scan_char_here,
          scan_field_whole fname_sz b',' err _ he,
          scan_char_here,
          scan_field_whole max_ty_sz b':' type_str _ ht,
          scan_char_here,
          hd,
        )
        refl

-- The words for the exit types, and none for those that a user cannot give.
abbrev pub type_name : ExitType → Text
type_name exited = codes "exited"
type_name signaled = codes "signaled"
type_name stopped = []
type_name invalid = []

import-brace : (t : Text) (v : ℕ) → import (b'{' ∷ t) v ≡ die
unfolding import same_bytes
import-brace t v = refl

module _ (fname_sz : ℕ) (file_exists : Text → Bool) (out err digits : Text) (v : ℤ)
    (e : ExecutionExitState) (out_field : is_field fname_sz b',' out ≡ true)
    (err_field : is_field fname_sz b',' err ≡ true) (number : scan_int digits ≡ some v)
    (out_exists : file_exists out ≡ true) (err_exists : file_exists err ≡ true) where
  imported :
      (errno : ℕ) (type_str : Text)
      → is_field max_ty_sz b':' type_str ≡ true
      → import_execution fname_sz errno file_exists (state_text out err type_str digits) e ≡ (
          if errno == 0
          then (import type_str (to_unsigned v) >>= λ s.
              ok (record e { state = s; stdout_file = out; stderr_file = err }))
          else user_die)
  unfolding import_execution import_scanned
  imported errno type_str ht =
      let read =
        scan_exit_state_lem fname_sz out err type_str digits v out_field err_field ht number in
      elim (Bool-cases (errno == 0)) [
        | inl unset_before ↦
            rw (read, import_execution, unset_before) (rw (out_exists, err_exists) refl)
        | inr set_before ↦ rw (read, import_execution, set_before) refl
      ]

  -- With the brace of the help text before the exit type, import ends in `die`.
  pub import_execution-brace :
      (type_str : Text)
      → is_field max_ty_sz b':' (b'{' ∷ type_str) ≡ true
      → import_execution fname_sz 0 file_exists (state_text out err (b'{' ∷ type_str) digits) e
        ≡ die
  import_execution-brace type_str ht =
      imported 0 (b'{' ∷ type_str) ht ∙ rw (import-brace type_str (to_unsigned v)) refl

import_scanned-stdout_fd :
    (file_exists : Text → Bool) (r : Scanned) (e : ExecutionExitState) {e' : ExecutionExitState}
    → import_scanned file_exists r e ≡ ok e'
    → e'.stdout_fd ≡ e.stdout_fd
unfolding import_scanned
import_scanned-stdout_fd file_exists r e h =
    elim (Bool-cases (not (file_exists r.out) || not (file_exists r.err))) [
      | inl missing ↦ cc (rw missing at h)
      | inr both ↦
          let (s, set, h1) =
            >>=-eq-ok (import r.type_str (to_unsigned r.number)) _ (rw both at h) in
          ap (λ x. x.stdout_fd) (sym (ok-injective h1))
    ]

-- import opens no file.
pub import_execution-stdout_fd :
    (fname_sz errno : ℕ) (file_exists : Text → Bool) (str : Text) (e : ExecutionExitState)
    {e' : ExecutionExitState}
    → import_execution fname_sz errno file_exists str e ≡ ok e'
    → e'.stdout_fd ≡ e.stdout_fd
unfolding import_execution
import_execution-stdout_fd fname_sz errno file_exists str e h =
    elim (Option-cases (scan_exit_state fname_sz str)) [
      | inl bad ↦ cc (rw (bad, import_execution) at h)
      | inr (r, read) ↦ elim (Bool-cases (not (errno == 0))) [
        | inl failed ↦ cc (rw (failed) at (rw (read, import_execution) at h))
        | inr fine ↦
            import_scanned-stdout_fd file_exists r e (rw fine at (rw (read, import_execution) at h))
      ]
    ]
