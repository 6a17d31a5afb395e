-- ===== src/Programs/Shell/Running.antt =====
-- What the shell executes, over any system that delivers lines and executes commands.
use Prim.Native.String.{String}
use mp.Base.{ℕ, inl, inr, ◌+◌, ◌≤◌, ◌<◌, ◌≡◌, List, ◌==◌, sub32, slt, if◌then◌else◌, inl, inr, ◌&&◌}
use mp.Memory.{Mem, store}
use mp.Programs.{Os}
use mp.Programs.Shell.Lines.{Obeys}

module _ {S : Type 0} (os : Os S) (fuel : ℕ) (place : String → ℕ) (buf total : ℕ) (len : ℕ → ℕ)
    (line : ℕ → Mem) (At : S → ℕ → List (List ℕ) → Type 0)
    (obeys : Obeys os fuel place buf total len line At) (enough : 1023 ≤ fuel) where
  -- A state with line `n` in the buffer, and its NUL.
  record HasLine (s : S) (n : ℕ) : Type 0 where
    text : (j : ℕ) → j < len n → os.mem s (buf + j) ≡ line n j
    nul : os.mem s (buf + len n) ≡ 0

  -- The line with its newline replaced.
  abbrev ended : S → ℕ → S
  ended s n = os.set_mem s (store (os.mem s) (buf + len n) 0)

  -- The count of the line alone.
  abbrev trimmed : S → ℕ → ℕ
  trimmed s cnt = if slt 0 cnt && (os.mem s (buf + sub32 cnt 1) == 10) then sub32 cnt 1 else cnt
