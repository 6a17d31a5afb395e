-- ===== src/Boot/Lines.antt =====
-- Which interrupt lines are open when entry in student-distrib/kernel.c has set up the controllers and
-- the devices.
use mp.Base.{
  ℕ, zero, suc, ◌+◌, ◌/◌, ◌≤◌, ◌<◌, ◌≡◌, ◌∙◌, arith, ◌&&◌, ◌||◌, leb, ltb, ◌^◌, ◌==◌, if◌then◌else◌,
  bit_and, bit_and_le, List, ◌++◌,
}
use mp.Io.{Io}
use mp.Pic.{Pic, masked, all_but, enable_irq, disable_irq}
use mp.Pic.Masks.{enable_irq-masked, disable_irq-masked}
use mp.Boot.{disable_from}

-- The two masks are bytes.
pub record HasByteMasks (p : Pic) : Type 0 where
  pub master : p.master_mask < 256
  pub slave : p.slave_mask < 256

disable_irq-HasByteMasks : (p : Pic) (irq : ℕ) → HasByteMasks p → HasByteMasks (disable_irq p irq).0
unfolding disable_irq
disable_irq-HasByteMasks p irq h = record {
  master = ground (arith, h.master);
  slave = ground (arith, h.slave);
}

pub disable_from-masked :
    (left i : ℕ) (p : Pic) (io : List Io) (j : ℕ)
    → HasByteMasks p
    → i + left ≤ 16
    → j < 16
    → masked (disable_from left i (p, io)).0 j
      ≡ (if leb i j && ltb j (i + left) then 1 else masked p j)
unfolding disable_from
disable_from-masked zero i p io j h le lt = ground arith
disable_from-masked (suc left) i p io j h le lt =
    disable_from-masked left (i + 1) (disable_irq p i).0 (io ++ (disable_irq p i).1) j
      (disable_irq-HasByteMasks p i h) (omega arith) lt
    ∙ ground (arith, disable_irq-masked p h.master h.slave i j (omega arith) lt)

pub enable_irq-HasByteMasks :
    (p : Pic) (irq : ℕ) → HasByteMasks p → HasByteMasks (enable_irq p irq).0
unfolding enable_irq
enable_irq-HasByteMasks p irq h = record {
  master = ground (arith, h.master, bit_and_le p.master_mask (bit_and (all_but irq) 0xff));
  slave = ground (arith, h.slave, bit_and_le p.slave_mask (bit_and (all_but irq) 0xff00 / 2 ^ 8));
}

pub disable_from-HasByteMasks :
    (left i : ℕ) (p : Pic) (io : List Io)
    → HasByteMasks p
    → HasByteMasks (disable_from left i (p, io)).0
unfolding disable_from
disable_from-HasByteMasks zero i p io h = h
disable_from-HasByteMasks (suc left) i p io h =
    disable_from-HasByteMasks left (i + 1) (disable_irq p i).0 (io ++ (disable_irq p i).1)
      (disable_irq-HasByteMasks p i h)

-- The order in which the kernel opens lines: two for the clock, then twice that of the keyboard.
abbrev pub opened_lines : Pic → Pic
opened_lines p = (enable_irq (enable_irq (enable_irq (enable_irq p 2).0 8).0 1).0 1).0

pub opened_lines-masked :
    (p : Pic) (j : ℕ)
    → HasByteMasks p
    → j < 16
    → masked (opened_lines p) j ≡ (if j == 1 || j == 2 || j == 8 then 0 else masked p j)
opened_lines-masked p j h lt =
    let p1 = (enable_irq p 2).0 in
    let p2 = (enable_irq p1 8).0 in
    let p3 = (enable_irq p2 1).0 in
    let h1 = enable_irq-HasByteMasks p 2 h in
    let h2 = enable_irq-HasByteMasks p1 8 h1 in
    let h3 = enable_irq-HasByteMasks p2 1 h2 in
    ground (
      arith,
      enable_irq-masked p h.master h.slave 2 j (omega arith) lt,
      enable_irq-masked p1 h1.master h1.slave 8 j (omega arith) lt,
      enable_irq-masked p2 h2.master h2.slave 1 j (omega arith) lt,
      enable_irq-masked p3 h3.master h3.slave 1 j (omega arith) lt,
    )

pub lines_after :
    (p : Pic) (io : List Io) (j : ℕ)
    → HasByteMasks p
    → j < 16
    → masked (opened_lines (disable_from 16 0 (p, io)).0) j
      ≡ (if j == 1 || j == 2 || j == 8 then 0 else 1)
lines_after p io j h lt = ground (
  arith,
  opened_lines-masked (disable_from 16 0 (p, io)).0 j (disable_from-HasByteMasks 16 0 p io h) lt,
  disable_from-masked 16 0 p io j h (omega arith) lt,
)
