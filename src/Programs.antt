-- ===== src/Programs.antt =====
-- The programs of src/syscalls: what they ask of the system, and ece391support.c. Local arrays and
-- string literals stand in memory at addresses that are parameters.
use Prim.Native.String.{String}
pub mod Support
pub mod Compare
pub mod Pieces
pub mod Cat
pub mod Ls
pub mod Shell
pub mod Grep
pub mod Counter
mod Tests
use mp.Base.{
  ℕ, zero, suc, ◌+◌, Bool, true, false, not, ◌&&◌, ◌||◌, Option, none, some, ◌>>=◌, ◌==◌, ◌%◌, ◌/◌,
  if◌then◌else◌, slt, sub32, add32, u32,
}
use mp.Memory.{Mem, store}
use mp.Memory.Text.{at, digit_char, itoa_fuel}

-- The system calls, over the states `S` that hold the program's memory. `none` means that a call
-- does not return.
pub record Os (S : Type 0) : Type 0 where
  pub mem : S → Mem
  pub set_mem : S → Mem → S
  pub getargs : S → ℕ → ℕ → Option (ℕ × S)
  pub open_file : S → ℕ → Option (ℕ × S)
  pub close_file : S → ℕ → Option (ℕ × S)
  pub read : S → ℕ → ℕ → ℕ → Option (ℕ × S)
  pub write : S → ℕ → ℕ → ℕ → Option (ℕ × S)
  pub execute : S → ℕ → Option (ℕ × S)

pub ece391_strlen_from : ℕ → (ℕ → ℕ) → ℕ → Option ℕ
ece391_strlen_from zero s len = none
ece391_strlen_from (suc fuel) s len = elim (s len == 0) [
  | true ↦ some len
  | false ↦ ece391_strlen_from fuel s (len + 1)
]

unfoldable pub ece391_strlen : ℕ → (ℕ → ℕ) → Option ℕ
ece391_strlen fuel s = ece391_strlen_from fuel s 0

-- The byte is stored before it is tested.
pub ece391_strcpy : ℕ → Mem → ℕ → ℕ → Option Mem
ece391_strcpy zero m dst src = none
ece391_strcpy (suc fuel) m dst src = elim (m src == 0) [
  | true ↦ some (store m dst (m src))
  | false ↦ ece391_strcpy fuel (store m dst (m src)) (dst + 1) (src + 1)
]

-- The difference of two bytes as an `int32_t`.
unfoldable pub ece391_strcmp_from : ℕ → (ℕ → ℕ) → (ℕ → ℕ) → ℕ → Option ℕ
ece391_strcmp_from zero s1 s2 i = none
ece391_strcmp_from (suc fuel) s1 s2 i = elim (s1 i == s2 i) [
  | false ↦ some (sub32 (s1 i) (s2 i))
  | true ↦ elim (s1 i == 0) [ true ↦ some 0 | false ↦ ece391_strcmp_from fuel s1 s2 (i + 1) ]
]

unfoldable pub ece391_strcmp : ℕ → (ℕ → ℕ) → (ℕ → ℕ) → Option ℕ
ece391_strcmp fuel s1 s2 = ece391_strcmp_from fuel s1 s2 0

-- The loop of ece391_strncmp; the rounds left count `n`.
unfoldable pub ece391_strncmp_from : ℕ → (ℕ → ℕ) → (ℕ → ℕ) → ℕ → ℕ
ece391_strncmp_from zero s1 s2 i = 0
ece391_strncmp_from (suc n) s1 s2 i = elim (s1 i == s2 i) [
  | false ↦ sub32 (s1 i) (s2 i)
  | true ↦ elim (s1 i == 0) [ true ↦ 0 | false ↦ ece391_strncmp_from n s1 s2 (i + 1) ]
]

unfoldable pub ece391_strncmp : (ℕ → ℕ) → (ℕ → ℕ) → ℕ → ℕ
ece391_strncmp s1 s2 n = ece391_strncmp_from n s1 s2 0

-- The loop of ece391_itoa: the memory and `newbuf`.
pub ece391_itoa_from : ℕ → Mem → ℕ → ℕ → ℕ → Option (Mem × ℕ)
ece391_itoa_from zero m newbuf newval radix = none
ece391_itoa_from (suc fuel) m newbuf newval radix = elim (newval == 0) [
  | true ↦ some (m, newbuf)
  | false ↦
      ece391_itoa_from fuel (store m newbuf (digit_char (newval % radix))) (newbuf + 1)
        (newval / radix) radix
]

-- The loop of ece391_strrev.
pub ece391_strrev_from : ℕ → Mem → ℕ → ℕ → ℕ → Option Mem
ece391_strrev_from zero m s beg end = none
ece391_strrev_from (suc fuel) m s beg end = elim (slt beg end) [
  | true ↦
      ece391_strrev_from fuel (store (store m (s + end) (m (s + beg))) (s + beg) (m (s + end))) s
        (add32 beg 1) (sub32 end 1)
  | false ↦ some m
]

-- ece391_strrev behind its call of ece391_strlen.
unfoldable pub ece391_strrev_of : ℕ → Mem → ℕ → Option ℕ → Option Mem
ece391_strrev_of fuel m s none = none
ece391_strrev_of fuel m s (some len) =
    let end = sub32 len 1 in if not (slt 0 end) then some m else ece391_strrev_from fuel m s 0 end

unfoldable pub ece391_strrev : ℕ → Mem → ℕ → Option Mem
ece391_strrev fuel m s = ece391_strrev_of fuel m s (ece391_strlen fuel (at m s))

unfoldable pub ece391_itoa : Mem → ℕ → ℕ → ℕ → Option Mem
ece391_itoa m value buf radix =
    if value == 0 then some (store (store m buf 48) (buf + 1) 0) else (do
      (m', newbuf) ← ece391_itoa_from itoa_fuel m buf value radix
      ece391_strrev itoa_fuel (store m' newbuf 0) buf)

module _ {S : Type 0} (os : Os S) (fuel : ℕ) where
  -- What `write` answers is not looked at.
  unfoldable pub ece391_fdputs : ℕ → ℕ → S → Option S
  ece391_fdputs fd s state = do
    n ← ece391_strlen fuel (at (os.mem state) s)
    (v, after) ← os.write state fd s n
    some after

  -- A message, and then `return rval`.
  unfoldable pub complain : ℕ → ℕ → ℕ → S → Option (ℕ × S)
  complain fd s rval state = do after ← ece391_fdputs fd s state; some (rval, after)
