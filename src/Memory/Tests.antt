-- ===== src/Memory/Tests.antt =====
-- Runs of the block and string functions, and their laws at concrete inputs.
use mp.Base.{ℕ, ◌%◌, ◌<◌, ◌≡◌, ◌≢◌, ◌↔◌, refl, inl, arith, ◌==◌, if◌then◌else◌}
use mp.Memory.{
  Mem, memcpy, memmove, copied, memset, copy_top, copy_aligned, copy_words, copy_bytes, fill_top,
  fill_aligned, fill_words, fill_bytes, repeat_byte,
}
use mp.Memory.Copy.{memcpy-copied, memmove-copied}
use mp.Memory.Text.Digits.{itoa-Shows, Shows}
use mp.Memory.Text.{itoa, strncmp, EndsAt, SameText, IsBytes}
use mp.Memory.Text.Laws.{strncmp-zero_iff}

-- Each address holds its own low byte.
abbrev ramp : Mem
ramp a = a % 256

-- "ab", and zeros.
abbrev ab : ℕ → ℕ
ab i = if i == 0 then 97 else if i == 1 then 98 else 0

memcpy_runs : memcpy ramp 103 10 9 109 ≡ 16
unfolding memcpy copy_top copy_aligned copy_words copy_bytes
memcpy_runs = refl

memset_runs : memset ramp 5 0x1ab 10 14 ≡ 0xab
unfolding memset fill_top fill_aligned fill_words fill_bytes repeat_byte
memset_runs = refl

memcpy-copied_example : memcpy ramp 103 10 9 109 ≡ copied ramp 103 10 9 109
memcpy-copied_example = memcpy-copied ramp 103 10 9 109 (inl (omega arith))

memmove-copied_example : memmove ramp 12 10 9 20 ≡ copied ramp 12 10 9 20
memmove-copied_example = memmove-copied ramp 12 10 9 20

ab_before : (i : ℕ) → i < 2 → ab i ≢ 0
ab_before i h = ground arith

ab-EndsAt : EndsAt ab 2
ab-EndsAt = record { nul = refl; before = ab_before }

ab-IsBytes : IsBytes ab
ab-IsBytes i = ground arith

strncmp-zero_iff_example : (strncmp ab ab 32 ≡ 0) ↔ SameText 32 ab ab
strncmp-zero_iff_example = strncmp-zero_iff ab ab ab-IsBytes ab-IsBytes 32

itoa-Shows_example : Shows ramp 0x2000 0xece 16 (itoa ramp 0xece 0x2000 16)
itoa-Shows_example = itoa-Shows ramp 0x2000 0xece 16 (omega arith) (omega arith) (omega arith)
