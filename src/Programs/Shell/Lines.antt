-- ===== src/Programs/Shell/Lines.antt =====
-- What the shell of syscalls/ece391shell.c needs of the system, and the commands among its lines.
use Prim.Native.String.{String}
use mp.Base.{
  ℕ, zero, suc, ◌+◌, ◌≤◌, ◌<◌, ◌≡◌, ◌≢◌, ◌⊎◌, some, List, [], ◌∷◌, ◌++◌, true, false, ◌==◌,
  if◌then◌else◌,
}
use mp.Memory.{Mem, store}
use mp.Memory.Text.{at, EndsAt}
use mp.FileSystem.{bytes_at}
use mp.Programs.{Os, ece391_strlen}

-- The letters of "exit", and its NUL.
abbrev pub exit_letter : ℕ → ℕ
exit_letter j =
    if j == 0
    then 101
    else if j == 1
    then 120
    else if j == 2
    then 105
    else if j == 3
    then 116
    else 0

-- What read returns of a line of `len` bytes: its length, as terminal_read does, or one more, with the
-- newline behind the line.
abbrev pub IsCount : ℕ → Mem → ℕ → ℕ → Type 0
IsCount len m buf cnt = (cnt ≡ len) ⊎ ((cnt ≡ len + 1) × (m (buf + len) ≡ 10))

-- A system that delivers the lines `line 0` to `line (total - 1)`, of `len` bytes without
-- NUL or newline, and that executes commands. `At s n ran` is an invariant of the states: `n`
-- lines are read, and `ran` was executed. The program's literals stay in place, and writing and
-- storing into the buffer neither read lines nor execute.
pub record Obeys {S : Type 0} (os : Os S) (fuel : ℕ) (place : String → ℕ) (buf total : ℕ)
    (len : ℕ → ℕ) (line : ℕ → Mem) (At : S → ℕ → List (List ℕ) → Type 0) : Type 0 where
  pub bytes : (s : S) (n : ℕ) (ran : List (List ℕ)) → At s n ran → (a : ℕ) → os.mem s a < 256
  pub literal :
      (s : S) (n : ℕ) (ran : List (List ℕ))
      → At s n ran
      → (text : String) → (l : ℕ) × (ece391_strlen fuel (at (os.mem s) (place text)) ≡ some l)
  pub exit :
      (s : S) (n : ℕ) (ran : List (List ℕ))
      → At s n ran
      → (j : ℕ) → j ≤ 4
      → os.mem s (place "exit" + j) ≡ exit_letter j
  pub writes :
      (s : S) (n : ℕ) (ran : List (List ℕ))
      → At s n ran
      → (p l : ℕ) → (v : ℕ) × (s' : S) × (os.write s 1 p l ≡ some (v, s')) × At s' n ran
  pub short : (n : ℕ) → n < total → len n < 1023
  pub no_nul : (n j : ℕ) → n < total → j < len n → line n j ≢ 0
  pub no_end : (n j : ℕ) → n < total → j < len n → line n j ≢ 10
  pub reads :
      (s : S) (n : ℕ) (ran : List (List ℕ))
      → At s n ran
      → n < total
      → (cnt : ℕ) × (s' : S) × (os.read s 0 buf 1023 ≡ some (cnt, s'))
        × At s' (n + 1) ran
        × ((j : ℕ) → j < len n → os.mem s' (buf + j) ≡ line n j)
        × IsCount (len n) (os.mem s') buf cnt
  pub stores :
      (s : S) (n : ℕ) (ran : List (List ℕ)) (j : ℕ)
      → At s n ran
      → j < 1023
      → At (os.set_mem s (store (os.mem s) (buf + j) 0)) n ran
  pub holds : (s : S) (m : Mem) → os.mem (os.set_mem s m) ≡ m
  pub executes :
      (s : S) (n : ℕ) (ran : List (List ℕ)) (l : ℕ)
      → At s n ran
      → EndsAt (at (os.mem s) buf) l
      → l < 1023
      → (v : ℕ) × (s' : S) × (os.execute s buf ≡ some (v, s'))
        × At s' n (ran ++ (bytes_at l (os.mem s) buf ∷ []))

-- Line `n` is "exit".
pub record IsExit (len : ℕ → ℕ) (line : ℕ → Mem) (n : ℕ) : Type 0 where
  pub length_four : len n ≡ 4
  pub letters : (j : ℕ) → j < 4 → line n j ≡ exit_letter j

-- Line `n` as a command, unless it is empty; those of `left` lines from line `n` on.
unfoldable pub command : (ℕ → ℕ) → (ℕ → Mem) → ℕ → List (List ℕ)
command len line n = elim (len n == 0) [ true ↦ [] | false ↦ bytes_at (len n) (line n) 0 ∷ [] ]

unfoldable pub commands : (ℕ → ℕ) → (ℕ → Mem) → ℕ → ℕ → List (List ℕ)
commands len line zero n = []
commands len line (suc left) n = command len line n ++ commands len line left (n + 1)
