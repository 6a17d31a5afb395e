-- ===== src/Programs/Shell.antt =====
-- syscalls/ece391shell.c.
pub mod Lines
pub mod Running
use Prim.Native.String.{String}
use mp.Base.{
  ℕ, zero, suc, ◌+◌, ◌&&◌, Option, none, some, ◌>>=◌, ◌==◌, if◌then◌else◌, minus_one, slt, sub32,
}
use mp.Memory.{store}
use mp.Memory.Text.{at}
use mp.Programs.{Os, ece391_strcmp, ece391_fdputs, complain}

module _ {S : Type 0} (os : Os S) (fuel : ℕ) (place : String → ℕ) (buf : ℕ) where
  -- What the shell says of the value of a command.
  unfoldable pub report_value : ℕ → S → Option S
  report_value rval s =
      if rval == minus_one
      then ece391_fdputs os fuel 1 (place "no such command\n") s
      else if rval == 256
      then ece391_fdputs os fuel 1 (place "program terminated by exception\n") s
      else if rval == 0
      then some s
      else ece391_fdputs os fuel 1 (place "program terminated abnormally\n") s

  -- The count without the newline at the end of the line, which becomes the NUL.
  unfoldable pub end_line : ℕ → S → S
  end_line cnt s =
      let n = if slt 0 cnt && (os.mem s (buf + sub32 cnt 1) == 10) then sub32 cnt 1 else cnt in
      os.set_mem s (store (os.mem s) (buf + n) 0)

  -- A round of the loop behind the end of the line: `none` inside is the next round.
  unfoldable pub run_line : S → Option (Option ℕ × S)
  run_line s = do
    differs ← ece391_strcmp fuel (at (os.mem s) buf) (at (os.mem s) (place "exit"))
    if differs == 0
        then some (some 0, s)
        else if os.mem s buf == 0
        then some (none, s)
        else (do (rval, s1) ← os.execute s buf; s2 ← report_value rval s1; some (none, s2))

  -- A round of the loop.
  unfoldable pub shell_round : S → Option (Option ℕ × S)
  shell_round s = do
    s1 ← ece391_fdputs os fuel 1 (place "391OS> ") s
    (cnt, s2) ← os.read s1 0 buf 1023
    if cnt == minus_one
        then (do
          (v, s3) ← complain os fuel 1 (place "read from keyboard failed\n") 3 s2
          some (some v, s3))
        else run_line (end_line cnt s2)

  unfoldable pub shell_loop : ℕ → S → Option (ℕ × S)
  shell_loop zero s = none
  shell_loop (suc rounds) s = do
    (ended, s1) ← shell_round s
    elim ended [ some v ↦ some (v, s1) | none ↦ shell_loop rounds s1 ]

  -- main
  unfoldable pub shell : ℕ → S → Option (ℕ × S)
  shell rounds s = do
    s1 ← ece391_fdputs os fuel 1 (place "Starting 391 Shell\n") s
    shell_loop rounds s1
