-- ===== src/Rtc.antt =====
-- student-distrib/rtc.c: the real-time clock.
pub mod Rate
mod Tests
use mp.Base.{
  ℕ, zero, suc, ◌+◌, ◌-◌, ◌*◌, ◌%◌, Bool, true, false, ◌||◌, Option, none, some, List, [], ◌∷◌,
  ◌++◌, ◌==◌, slt, ltb, if◌then◌else◌, bit_and, bit_or, minus_one, u8, u32, add32,
}
use mp.Io.{Io, outb, inb, cli, sti}
use mp.Pic
use mp.Pic.{Pic}

-- rtc_init; `prev_b` and `prev_a` are what the registers B and A deliver.
unfoldable pub rtc_init : Pic → ℕ → ℕ → Pic × List Io
rtc_init p prev_b prev_a =
    let (p1, io1) = Pic.enable_irq p 2 in
    let (p2, io2) = Pic.enable_irq p1 8 in
    (
      p2,
      (cli
            ∷ outb 0x8b 0x70
            ∷ inb 0x71
            ∷ outb 0x8b 0x70
            ∷ outb (bit_or prev_b 0x40) 0x71
            ∷ outb 0x8a 0x70
            ∷ inb 0x71
            ∷ outb 0x8a 0x70
            ∷ outb (bit_or (bit_and prev_a 0xf0) 0x0f) 0x71
            ∷ sti
            ∷ [])
          ++ (io1 ++ io2),
    )

unfoldable pub rtc_open : Pic → ℕ → ℕ → ℕ × Pic × List Io
rtc_open p prev_b prev_a = let (p', io) = rtc_init p prev_b prev_a in (0, p', io)

unfoldable pub rtc_close : ℕ → ℕ
rtc_close fd = 0

-- rtc_interrupt: `intr_flag` goes up by one, and the interrupt is acknowledged on both lines.
unfoldable pub rtc_interrupt : ℕ → ℕ × List Io
rtc_interrupt intr_flag =
    (add32 intr_flag 1, (outb 0x8c 0x70 ∷ inb 0x71 ∷ []) ++ (Pic.send_eoi 8 ++ Pic.send_eoi 2))

-- rtc_read waits with `intr_flag` at 0 while the handler runs `rounds` times, and looks at the flag
-- after each; `none` means that it waits still.
pub wait_tick : ℕ → ℕ → Option ℕ
wait_tick zero intr_flag = if intr_flag == 0 then none else some 0
wait_tick (suc rounds) intr_flag = elim (intr_flag == 0) [
  | true ↦ wait_tick rounds (rtc_interrupt intr_flag).0
  | false ↦ some 0
]

unfoldable pub rtc_read : ℕ → ℕ → Option ℕ
rtc_read rounds intr_flag = wait_tick rounds 0

-- `for (i = RTC_MIN; i <= POW2_MAX; i *= RTC_MIN)`, with fuel for ten rounds.
pub po2_from : ℕ → ℕ → ℕ → Bool → Bool
po2_from zero i intr_freq po2_flag = po2_flag
po2_from (suc fuel) i intr_freq po2_flag = elim (slt 1024 i) [
  | true ↦ po2_flag
  | false ↦ po2_from fuel (i * 2) intr_freq (if intr_freq == i then true else po2_flag)
]

unfoldable pub is_po2 : ℕ → Bool
is_po2 intr_freq = po2_from 11 2 intr_freq false

-- `for (i = 2; i < freq; i *= 2) write_freq--`, from `i` on.
pub rate_from : ℕ → ℕ → ℕ → ℕ → Option ℕ
rate_from zero i freq write_freq = none
rate_from (suc fuel) i freq write_freq = elim (slt i freq) [
  | true ↦ rate_from fuel (i * 2) freq (u8 (write_freq + 255))
  | false ↦ some write_freq
]

-- The clamped frequency.
abbrev pub clamp_freq : ℕ → ℕ
clamp_freq freq = if slt freq 2 then 2 else if slt 1024 freq then 1024 else freq

unfoldable pub rtc_rate : ℕ → Option ℕ
rtc_rate freq = rate_from 11 2 (clamp_freq freq) 0x0f

-- rtc_set; `prev_val` is what register A delivers. `none` means that the loop ran out of fuel.
unfoldable pub rtc_set : ℕ → ℕ → Option (List Io)
rtc_set freq prev_val = elim (rtc_rate freq) [
  | none ↦ none
  | some write_freq ↦ some (
      cli
      ∷ outb 0x8a 0x70
      ∷ inb 0x71
      ∷ outb 0x8a 0x70
      ∷ outb (bit_or (bit_and prev_val 0xf0) write_freq) 0x71
      ∷ sti
      ∷ [])
]

-- rtc_write: `buf` is `none` for a null pointer, and otherwise the `int32_t` that it points to.
unfoldable pub rtc_write : Option ℕ → ℕ → ℕ → Option (ℕ × List Io)
rtc_write none nbytes prev_val = some (minus_one, [])
rtc_write (some intr_freq) nbytes prev_val = elim (nbytes == 4) [
  | false ↦ some (minus_one, [])
  | true ↦ elim (is_po2 intr_freq) [
    | false ↦ some (minus_one, [])
    | true ↦ elim (rtc_set intr_freq prev_val) [ none ↦ none | some io ↦ some (0, io) ]
  ]
]
