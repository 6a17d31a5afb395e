-- ===== src/Pic.antt =====
-- student-distrib/i8259.c: the two interrupt controllers and their mask variables.
pub mod Masks
use mp.Base.{
  ℕ, ◌+◌, ◌-◌, ◌*◌, ◌/◌, ◌%◌, ◌^◌, bit_and, bit_or, List, [], ◌∷◌, ◌==◌, ltb, if◌then◌else◌, u8,
  u32,
}
use mp.Io.{Io, outb, cli}

pub record Pic : Type 0 where
  pub master_mask : ℕ
  pub slave_mask : ℕ

-- The variables as they are initialised.
abbrev pub initial : Pic
initial = record { master_mask = 0xff; slave_mask = 0xff }

-- i8259_init; the flags are saved before `cli` and restored at the end.
unfoldable pub i8259_init : List Io
i8259_init =
    cli
    ∷ outb 0xff 0x21
    ∷ outb 0xff 0xa1
    ∷ outb 0x11 0x20
    ∷ outb 0x11 0xa0
    ∷ outb 0x20 0x21
    ∷ outb 0x28 0xa1
    ∷ outb 0x04 0x21
    ∷ outb 0x02 0xa1
    ∷ outb 0x01 0x21
    ∷ outb 0x01 0xa1
    ∷ outb 0xff 0x21
    ∷ outb 0xff 0xa1
    ∷ []

-- `1 << arg`, for an `arg` below 32.
abbrev pub bit_at : ℕ → ℕ
bit_at arg = u32 (2 ^ arg)

-- `~(1 << arg)`
abbrev pub all_but : ℕ → ℕ
all_but arg = 0xffff_ffff - bit_at arg

unfoldable pub enable_irq : Pic → ℕ → Pic × List Io
enable_irq p arg =
    let mask = all_but arg in
    let slave = bit_and p.slave_mask (bit_and mask 0xff00 / 2 ^ 8) in
    let master = bit_and p.master_mask (bit_and mask 0xff) in
    if bit_and arg 8 == 0
    then (record p { master_mask = master }, outb master 0x21 ∷ [])
    else (record p { slave_mask = slave }, outb slave 0xa1 ∷ [])

unfoldable pub disable_irq : Pic → ℕ → Pic × List Io
disable_irq p arg =
    let mask = bit_at arg in
    let slave = u8 (bit_or p.slave_mask (bit_and mask 0xff00 / 2 ^ 8)) in
    let master = u8 (bit_or p.master_mask (bit_and mask 0xff)) in
    if bit_and arg 8 == 0
    then (record p { master_mask = master }, outb master 0x21 ∷ [])
    else (record p { slave_mask = slave }, outb slave 0xa1 ∷ [])

unfoldable pub send_eoi : ℕ → List Io
send_eoi arg =
    if bit_and arg 8 == 0 then outb 0x20 0x20 ∷ [] else outb 0x20 0xa0 ∷ outb 0x20 0x20 ∷ []

-- Bit `irq` of the two masks: 1 if the line is masked.
unfoldable pub masked : Pic → ℕ → ℕ
masked p irq = if ltb irq 8 then p.master_mask / 2 ^ irq % 2 else p.slave_mask / 2 ^ (irq - 8) % 2
