-- ===== src/Programs/Cat.antt =====
-- syscalls/ece391cat.c.
pub mod Copying
use Prim.Native.String.{String}
use mp.Base.{
  ℕ, zero, suc, ◌+◌, true, false, Option, none, some, ◌>>=◌, ◌==◌, if◌then◌else◌, minus_one,
}
use mp.Programs.{Os, complain}

module _ {S : Type 0} (os : Os S) (fuel : ℕ) (place : String → ℕ) (buf : ℕ) where
  -- One round of the while loop, behind the read that answered `cnt`; `none` inside is the next
  -- round.
  unfoldable pub cat_round : ℕ → S → Option (Option ℕ × S)
  cat_round cnt s =
      if cnt == minus_one
      then (do (v, s1) ← complain os fuel 1 (place "file read failed\n") 3 s; some (some v, s1))
      else (do (v, s1) ← os.write s 1 buf cnt; some (if v == minus_one then some 3 else none, s1))

  -- The while loop.
  unfoldable pub cat_loop : ℕ → ℕ → S → Option (ℕ × S)
  cat_loop zero fd s = none
  cat_loop (suc rounds) fd s = do
    (cnt, s1) ← os.read s fd buf 1024
    elim (cnt == 0) [
      | true ↦ some (0, s1)
      | false ↦ do
        (ended, s2) ← cat_round cnt s1
        elim ended [ some v ↦ some (v, s2) | none ↦ cat_loop rounds fd s2 ]
    ]

  -- main
  unfoldable pub cat : ℕ → S → Option (ℕ × S)
  cat rounds s = do
    (v, s1) ← os.getargs s buf 1024
    if v == 0
        then (do
          (fd, s2) ← os.open_file s1 buf
          if fd == minus_one
              then complain os fuel 1 (place "file not found\n") 2 s2
              else cat_loop rounds fd s2)
        else complain os fuel 1 (place "could not read arguments\n") 3 s1
