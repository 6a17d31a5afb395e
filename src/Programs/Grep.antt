-- ===== src/Programs/Grep.antt =====
-- syscalls/ece391grep.c. Its counters are `int32_t`s, kept as 32-bit patterns.
use Prim.Native.String.{String}
use mp.Base.{
  ℕ, zero, suc, ◌+◌, Bool, true, false, not, ◌&&◌, Option, none, some, ◌>>=◌, ◌==◌, if◌then◌else◌,
  minus_one, slt, add32, sub32,
}
use mp.Memory.{Mem, store}
use mp.Memory.Text.{at}
use mp.Programs.{Os, ece391_strlen, ece391_strcpy, ece391_strncmp, ece391_fdputs, complain}

module _ {S : Type 0} (os : Os S) (fuel : ℕ) (place : String → ℕ)
    (data_at s_at fname s_len : ℕ) where
  -- `while (line_end < last && data[line_end] != NEWLINE)`
  unfoldable pub find_end : ℕ → Mem → ℕ → ℕ → Option ℕ
  find_end zero m last line_end = none
  find_end (suc rounds) m last line_end =
      elim (slt line_end last && not (m (data_at + line_end) == 10)) [
        | true ↦ find_end rounds m last (add32 line_end 1)
        | false ↦ some line_end
      ]

  -- Whether the text searched for stands at index `check`.
  unfoldable pub matches : Mem → ℕ → Bool
  matches m check =
      (m s_at == m (data_at + check))
      && (ece391_strncmp (at m (data_at + check)) (at m s_at) s_len == 0)

  -- The name of the file, a colon and the line.
  unfoldable pub print_line : ℕ → S → Option S
  print_line line_start s = do
    s1 ← ece391_fdputs os fuel 1 fname s
    s2 ← ece391_fdputs os fuel 1 (place ":") s1
    s3 ← ece391_fdputs os fuel 1 (data_at + line_start) s2
    ece391_fdputs os fuel 1 (place "\n") s3

  -- The for loop over the indices of a line.
  unfoldable pub search_line : ℕ → ℕ → ℕ → ℕ → S → Option S
  search_line zero line_start line_end check s = none
  search_line (suc rounds) line_start line_end check s = elim (slt check line_end) [
    | false ↦ some s
    | true ↦ elim (matches (os.mem s) check) [
      | true ↦ print_line line_start s
      | false ↦ search_line rounds line_start line_end (add32 check 1) s
    ]
  ]

  -- The loop over the lines of the data: `last`, and the state.
  unfoldable pub search_lines : ℕ → ℕ → ℕ → ℕ → S → Option (ℕ × S)
  search_lines zero cnt last line_start s = none
  search_lines (suc rounds) cnt last line_start s = do
    line_end ← find_end fuel (os.mem s) last line_start
    elim (not (os.mem s (data_at + line_end) == 10) && not (cnt == 0) && not (line_start == 0)) [
      | true ↦ do
        m ←
            ece391_strcpy fuel (store (os.mem s) (data_at + line_end) 0) data_at
              (data_at + line_start)
        some (sub32 last line_start, os.set_mem s m)
      | false ↦ do
        s1 ←
            search_line fuel line_start line_end line_start
              (os.set_mem s (store (os.mem s) (data_at + line_end) 0))
        elim (slt (add32 line_end 1) last) [
          | false ↦ some (0, s1)
          | true ↦ search_lines rounds cnt last (add32 line_end 1) s1
        ]
    ]

  -- The outer loop: `some v` inside is a return, `none` the end of the file.
  unfoldable pub search_file : ℕ → ℕ → ℕ → S → Option (Option ℕ × S)
  search_file zero fd last s = none
  search_file (suc rounds) fd last s = do
    (cnt, s1) ← os.read s fd (data_at + last) (sub32 1024 last)
    elim (cnt == minus_one) [
      | true ↦ do
        (v, s2) ← complain os fuel 1 (place "file read failed\n") minus_one s1
        some (some v, s2)
      | false ↦ do
        (last1, s2) ← search_lines fuel cnt (add32 last cnt) 0 s1
        elim (cnt == 0) [ true ↦ some (none, s2) | false ↦ search_file rounds fd last1 s2 ]
    ]

  -- do_one_file behind its open.
  unfoldable pub search_open : ℕ → S → Option (ℕ × S)
  search_open fd s = do
    (ended, s1) ← search_file fuel fd 0 s
    elim ended [
      | some v ↦ some (v, s1)
      | none ↦ do
        (v, s2) ← os.close_file s1 fd
        if v == minus_one
            then complain os fuel 1 (place "file close failed\n") minus_one s2
            else some (0, s2)
    ]

module _ {S : Type 0} (os : Os S) (fuel : ℕ) (place : String → ℕ) (data_at : ℕ) where
  unfoldable pub do_one_file : ℕ → ℕ → S → Option (ℕ × S)
  do_one_file s_at fname s = do
    s_len ← ece391_strlen fuel (at (os.mem s) s_at)
    (fd, s1) ← os.open_file s fname
    if fd == minus_one
        then complain os fuel 1 (place "file open failed\n") minus_one s1
        else search_open os fuel place data_at s_at fname s_len fd s1

  -- The loop of main over the directory.
  unfoldable pub grep_loop : ℕ → ℕ → ℕ → ℕ → S → Option (ℕ × S)
  grep_loop zero buf search fd s = none
  grep_loop (suc rounds) buf search fd s = do
    (cnt, s1) ← os.read s fd buf 32
    elim (cnt == 0) [
      | true ↦ some (0, s1)
      | false ↦ elim (cnt == minus_one) [
        | true ↦ complain os fuel 1 (place "directory entry read failed\n") 3 s1
        | false ↦ elim (os.mem s1 buf == 46) [
          | true ↦ grep_loop rounds buf search fd s1
          | false ↦ do
            (v, s2) ← do_one_file search buf (os.set_mem s1 (store (os.mem s1) (buf + cnt) 0))
            elim (v == 0) [ true ↦ grep_loop rounds buf search fd s2 | false ↦ some (3, s2) ]
        ]
      ]
    ]

  -- main
  unfoldable pub grep : ℕ → ℕ → ℕ → S → Option (ℕ × S)
  grep rounds buf search s = do
    (v, s1) ← os.getargs s search 1024
    if v == 0
        then (do
          (fd, s2) ← os.open_file s1 (place ".")
          if fd == minus_one
              then complain os fuel 1 (place "directory open failed\n") 2 s2
              else grep_loop rounds buf search fd s2)
        else complain os fuel 1 (place "could not read argument\n") 3 s1
