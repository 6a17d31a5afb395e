-- ===== src/Programs/Ls.antt =====
-- syscalls/ece391ls.c.
pub mod Listing
use Prim.Native.String.{String}
use mp.Base.{
  ℕ, zero, suc, ◌+◌, true, false, Option, none, some, ◌>>=◌, ◌==◌, if◌then◌else◌, minus_one, add32,
}
use mp.Memory.{store}
use mp.Programs.{Os, complain}

module _ {S : Type 0} (os : Os S) (fuel : ℕ) (place : String → ℕ) (buf : ℕ) where
  -- One round of the while loop, behind the read that answered `cnt`; `none` inside is the next
  -- round.
  unfoldable pub ls_round : ℕ → S → Option (Option ℕ × S)
  ls_round cnt s =
      if cnt == minus_one
      then (do
        (v, s1) ← complain os fuel 1 (place "directory entry read failed\n") 3 s
        some (some v, s1))
      else (do
        (v, s1) ← os.write (os.set_mem s (store (os.mem s) (buf + cnt) 10)) 1 buf (add32 cnt 1)
        some (if v == minus_one then some 3 else none, s1))

  -- The while loop.
  unfoldable pub ls_loop : ℕ → ℕ → S → Option (ℕ × S)
  ls_loop zero fd s = none
  ls_loop (suc rounds) fd s = do
    (cnt, s1) ← os.read s fd buf 32
    elim (cnt == 0) [
      | true ↦ some (0, s1)
      | false ↦ do
        (ended, s2) ← ls_round cnt s1
        elim ended [ some v ↦ some (v, s2) | none ↦ ls_loop rounds fd s2 ]
    ]

  -- main
  unfoldable pub ls : ℕ → S → Option (ℕ × S)
  ls rounds s = do
    (fd, s1) ← os.open_file s (place ".")
    if fd == minus_one
        then complain os fuel 1 (place "directory open failed\n") 2 s1
        else ls_loop rounds fd s1
