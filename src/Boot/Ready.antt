-- ===== src/Boot/Ready.antt =====
-- The state in which entry of student-distrib/kernel.c executes the first shell.
use mp.Base.{ℕ, ◌<◌, ◌^◌, ◌≡◌, refl, ap, ◌∙◌, arith, ◌||◌, ◌==◌, if◌then◌else◌, ◌++◌}
use mp.Pic
use mp.Pic.{Pic, masked}
use mp.Kernel.{kernel_directory}
use mp.FileSystem.{init_fs}
use mp.Screen.{video, setxy, clear}
use mp.Screen.Cells.{written, clear-blank}
use mp.Idt.{Handler}
use mp.Idt.Gates.{HasGate, init_idt-IsGate}
use mp.Boot.{
  Linked, Computer, initialise, init_terminal, init_devices, init_paging, init_interrupts,
  set_descriptors, disable_from,
}
use mp.Boot.Descriptors.{base, limit, access}
use mp.Boot.Segments.{
  ldt_entry-base, ldt_entry-limit, ldt_entry-access, tss_entry-base, tss_entry-limit,
  tss_entry-access,
}
use mp.Machine.{Machine, screen_of}
use mp.Boot.Lines.{HasByteMasks, opened_lines, lines_after}
use mp.Terminal.{terminal_open, set_cursor}
use mp.Rtc.{rtc_init}

-- What entry has set up when it executes the shell, from the state `c` behind its report.
pub record IsReady (at : Linked) (small : (h : Handler) → at.handlers h < 2 ^ 32)
    (c after : Computer) : Type 0 where
  pub lines :
      (j : ℕ)
      → j < 16
      → masked after.machine.system.kernel.pic j ≡ (if j == 1 || j == 2 || j == 8 then 0 else 1)
  pub gates : (v : ℕ) → v < 256 → HasGate at.handlers small c.idt after.idt v
  pub ldt_base : base after.ldt_desc ≡ at.ldt
  pub ldt_limit : limit after.ldt_desc ≡ at.ldt_size
  pub ldt_access : access after.ldt_desc ≡ 0x82
  pub tss_base : base after.tss_desc ≡ at.tss
  pub tss_limit : limit after.tss_desc ≡ at.tss_size
  pub tss_access : access after.tss_desc ≡ 0x89
  pub stack_segment : after.machine.system.tss_ss0 ≡ 0x18
  pub stack_pointer : after.machine.system.tss_esp0 ≡ 0x0080_0000
  pub directory : after.machine.system.kernel.cr3 ≡ kernel_directory
  pub files :
      after.machine.system.kernel.filesystem ≡ init_fs c.machine.system.kernel.mem c.boot_block_ptr
  pub count : after.machine.system.pc ≡ 0
  pub screen :
      (b : ℕ)
      → after.machine.system.kernel.mem b
        ≡ written c.machine.system.kernel.mem video 2000 (λ j. 32) b
  pub column : after.machine.screen_x ≡ 0
  pub row : after.machine.screen_y ≡ 0
  pub line : after.machine.counter ≡ 0
  pub buffer : (i : ℕ) → i < 128 → after.machine.text_buf i ≡ 0

module _ (at : Linked) (prev_b prev_a : ℕ) (c : Computer) where
  abbrev after : Computer
  after = initialise at prev_b prev_a c

  abbrev before : Machine
  before = c.machine

  initialise-pic :
      after.machine.system.kernel.pic
      ≡ opened_lines
          (disable_from 16 0
            (before.system.kernel.pic, before.system.kernel.io ++ Pic.i8259_init)).0
  unfolding initialise init_terminal init_devices init_paging init_interrupts set_descriptors
      terminal_open rtc_init
  initialise-pic = refl

  -- Behind the report, with masks of a byte each and addresses of 32 bits: entry
  -- leaves exactly the lines of the keyboard, of the second controller and of the clock open; each
  -- of the 256 gates leads to its handler; the descriptors of the LDT and of the TSS give the
  -- addresses and sizes that the linker gives, as present segments of their types at privilege 0; the TSS
  -- names the kernel's stack; CR3 holds the kernel's directory; the file system is what the boot
  -- block describes; the screen is blank with the cursor at its top left, and the line buffer empty.
  pub initialise-IsReady :
      HasByteMasks before.system.kernel.pic
      → (small : (h : Handler) → at.handlers h < 2 ^ 32) → at.ldt < 2 ^ 32
      → at.ldt_size < 2 ^ 20
      → at.tss < 2 ^ 32
      → at.tss_size < 2 ^ 20
      → IsReady at small c after
  unfolding initialise init_terminal init_devices init_paging init_interrupts set_descriptors
      terminal_open set_cursor setxy clear
  initialise-IsReady masks small ldt ldt_size tss tss_size = record {
    lines = λ j h.
        ap (λ p. masked p j) initialise-pic
        ∙ lines_after before.system.kernel.pic (before.system.kernel.io ++ Pic.i8259_init) j masks
            h;
    gates = init_idt-IsGate at.handlers small c.idt;
    ldt_base = ldt_entry-base c.ldt_desc at.ldt at.ldt_size ldt;
    ldt_limit = ldt_entry-limit c.ldt_desc at.ldt at.ldt_size ldt_size;
    ldt_access = ldt_entry-access c.ldt_desc at.ldt at.ldt_size;
    tss_base = tss_entry-base c.tss_desc at.tss at.tss_size tss;
    tss_limit = tss_entry-limit c.tss_desc at.tss at.tss_size tss_size;
    tss_access = tss_entry-access c.tss_desc at.tss at.tss_size;
    stack_segment = refl;
    stack_pointer = refl;
    directory = refl;
    files = refl;
    count = refl;
    screen = λ b. (clear-blank (setxy (screen_of before) 0 0)).0 b;
    column = refl;
    row = refl;
    line = refl;
    buffer = λ i h. ground (arith, h);
  }
