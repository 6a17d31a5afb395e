-- ===== src/Memory/Text.antt =====
-- The string functions of student-distrib/lib.c. A string that is only read is the function that
-- gives its bytes, `s[i]` for each `i`; a string that is written stands in memory at an address.
-- A loop with no bound of its own takes fuel, and `none` means that the fuel ran out.
pub mod Laws
pub mod Reverse
pub mod Digits
use mp.Base.{
  ℕ, zero, suc, ◌+◌, ◌<◌, Bool, true, false, not, ◌||◌, ◌≡◌, ◌≢◌, Option, none, some, ltb, ◌==◌,
  List, [], ◌∷◌, get_or, ◌%◌, ◌/◌, if◌then◌else◌, sub32, add32, slt, sign_extend,
}
use mp.Memory.{Mem, store}

-- What stands at a pointer.
abbrev pub at : Mem → ℕ → ℕ → ℕ
at m p i = m (p + i)

unfoldable pub strlen_from : ℕ → (ℕ → ℕ) → ℕ → Option ℕ
strlen_from zero s len = none
strlen_from (suc fuel) s len = elim (s len == 0) [
  | true ↦ some len
  | false ↦ strlen_from fuel s (len + 1)
]

unfoldable pub strlen : ℕ → (ℕ → ℕ) → Option ℕ
strlen fuel s = strlen_from fuel s 0

-- The rounds left count `n - i`.
unfoldable pub strncmp_from : ℕ → (ℕ → ℕ) → (ℕ → ℕ) → ℕ → ℕ
strncmp_from zero s1 s2 i = 0
strncmp_from (suc left) s1 s2 i = elim (not (s1 i == s2 i) || s1 i == 0) [
  | true ↦ sub32 (sign_extend (s1 i)) (sign_extend (s2 i))
  | false ↦ strncmp_from left s1 s2 (i + 1)
]

unfoldable pub strncmp : (ℕ → ℕ) → (ℕ → ℕ) → ℕ → ℕ
unfolding strncmp_from
strncmp s1 s2 n = strncmp_from n s1 s2 0

pub strcpy_from : ℕ → Mem → ℕ → ℕ → ℕ → Option Mem
strcpy_from zero m dest src i = none
strcpy_from (suc fuel) m dest src i = elim (m (src + i) == 0) [
  | true ↦ some (store m (dest + i) 0)
  | false ↦ strcpy_from fuel (store m (dest + i) (m (src + i))) dest src (i + 1)
]

unfoldable pub strcpy : ℕ → Mem → ℕ → ℕ → Option Mem
strcpy fuel m dest src = strcpy_from fuel m dest src 0

-- The second loop of strncpy.
pub strncpy_pad : ℕ → Mem → ℕ → ℕ → Mem
strncpy_pad zero m dest i = m
strncpy_pad (suc left) m dest i = strncpy_pad left (store m (dest + i) 0) dest (i + 1)

-- The first loop; the rounds left count `n - i`.
pub strncpy_from : ℕ → Mem → ℕ → ℕ → ℕ → Mem
strncpy_from zero m dest src i = m
strncpy_from (suc left) m dest src i = elim (m (src + i) == 0) [
  | true ↦ strncpy_pad (suc left) m dest i
  | false ↦ strncpy_from left (store m (dest + i) (m (src + i))) dest src (i + 1)
]

unfoldable pub strncpy : Mem → ℕ → ℕ → ℕ → Mem
strncpy m dest src n = strncpy_from n m dest src 0

-- The loop of strrev, `beg` and `end` being `int32_t`.
unfoldable pub strrev_from : ℕ → Mem → ℕ → ℕ → ℕ → Option Mem
strrev_from zero m s beg end = none
strrev_from (suc fuel) m s beg end = elim (slt beg end) [
  | true ↦
      strrev_from fuel (store (store m (s + end) (m (s + beg))) (s + beg) (m (s + end))) s
        (add32 beg 1) (sub32 end 1)
  | false ↦ some m
]

unfoldable pub strrev : ℕ → Mem → ℕ → Option Mem
strrev fuel m s = elim (strlen fuel (at m s)) [
  | none ↦ none
  | some len ↦ strrev_from fuel m s 0 (sub32 len 1)
]

-- `lookup[]`, with the NUL at its end.
abbrev pub lookup : List ℕ
lookup =
    48 ∷ 49 ∷ 50 ∷ 51 ∷ 52 ∷ 53 ∷ 54 ∷ 55 ∷ 56 ∷ 57 ∷ 65 ∷ 66 ∷ 67 ∷ 68 ∷ 69 ∷ 70 ∷ 71 ∷ 72 ∷ 73
    ∷ 74 ∷ 75 ∷ 76 ∷ 77 ∷ 78 ∷ 79 ∷ 80 ∷ 81 ∷ 82 ∷ 83 ∷ 84 ∷ 85 ∷ 86 ∷ 87 ∷ 88 ∷ 89 ∷ 90 ∷ 0 ∷ []

unfoldable pub digit_char : ℕ → ℕ
digit_char i = get_or lookup i 0

-- The loop of itoa: the memory and `newbuf`.
unfoldable pub itoa_from : ℕ → Mem → ℕ → ℕ → ℕ → Option (Mem × ℕ)
itoa_from zero m newbuf newval radix = none
itoa_from (suc fuel) m newbuf newval radix = elim (newval == 0) [
  | true ↦ some (m, newbuf)
  | false ↦
      itoa_from fuel (store m newbuf (digit_char (newval % radix))) (newbuf + 1) (newval / radix)
        radix
]

-- A number below 2 ^ 32 has at most 32 digits, so that 33 rounds are enough for each loop.
abbrev pub itoa_fuel : ℕ
itoa_fuel = 33

unfoldable pub itoa : Mem → ℕ → ℕ → ℕ → Option Mem
itoa m value buf radix =
    if value == 0
    then some (store (store m buf 48) (buf + 1) 0)
    else elim (itoa_from itoa_fuel m buf value radix) [
      | none ↦ none
      | some (m', newbuf) ↦ strrev itoa_fuel (store m' newbuf 0) buf
    ]

-- The first NUL of `s` stands at index `n`.
pub record EndsAt (s : ℕ → ℕ) (n : ℕ) : Type 0 where
  pub nul : s n ≡ 0
  pub before : (i : ℕ) → i < n → s i ≢ 0

-- Two strings agree at index `i` and so on for `n` places, or up to the end of the first.
abbrev pub SameText : ℕ → (ℕ → ℕ) → (ℕ → ℕ) → Type 0
SameText n s1 s2 = (i : ℕ) → i < n → ((j : ℕ) → j < i → s1 j ≢ 0) → s1 i ≡ s2 i

abbrev pub IsBytes : (ℕ → ℕ) → Type 0
IsBytes s = (i : ℕ) → s i < 256
