-- ===== src/Boot.antt =====
-- student-distrib/kernel.c: entry, which boot.S calls. It reports what the boot loader passed on,
-- sets up the processor's tables and the devices, and executes the first shell.
pub mod Descriptors
pub mod Multiboot
pub mod Segments
pub mod Lines
pub mod Ready
mod Tests
use mathlib.Core.Option
use mp.Base.{
  ℕ, zero, suc, ◌+◌, Bool, true, false, Option, none, some, ◌>>=◌, List, [], ◌∷◌, ◌++◌, bytes_of,
}
use mp.Memory.{Mem}
use mp.Io.{Io, sti}
use mp.Pic
use mp.Pic.{Pic}
use mp.Idt
use mp.Idt.{Handler, init_idt}
use mp.Paging.{Tables, Addresses, Registers, paging_init}
use mp.Rtc.{rtc_init}
use mp.Kernel.{Kernel, kernel_directory}
use mp.FileSystem.{init_fs}
use mp.Screen.{Screen, clear}
use mp.Terminal.{terminal_open}
use mp.Processes.{Outcome, execute}
use mp.Machine.{Machine, screen_of, terminal_of, with_terminal, put_kernel, with_screen}
use Descriptors.{SegDesc, ldt_entry, tss_entry}
use Multiboot.{Report, read_multiboot}

-- Where the linker puts the variables and functions, and the sizes of the two segments in
-- x86_desc.S.
pub record Linked : Type 0 where
  pub handlers : Handler → ℕ
  pub tables_at : Addresses
  pub ldt : ℕ
  pub ldt_size : ℕ
  pub tss : ℕ
  pub tss_size : ℕ

-- The kernel's variables, BOOT_BLOCK_PTR, and what entry sets of the processor and its tables.
pub record Computer : Type 0 where
  pub machine : Machine
  pub boot_block_ptr : ℕ
  pub ldt_desc : SegDesc
  pub tss_desc : SegDesc
  pub tss_ldt : ℕ
  pub ldtr : ℕ
  pub task_register : ℕ
  pub idt : Idt.Table
  pub tables : Tables
  pub registers : Registers

abbrev pub kernel_ldt : ℕ
kernel_ldt = 0x38

abbrev pub kernel_tss : ℕ
kernel_tss = 0x30

abbrev pub on_machine : (Machine → Machine) → Computer → Computer
on_machine f c = record c { machine = f c.machine }

abbrev pub on_kernel : (Kernel → Kernel) → Computer → Computer
on_kernel f = on_machine (λ m. put_kernel m (f m.system.kernel))

-- The two blocks that construct the entries of the global descriptor table.
unfoldable pub set_descriptors : Linked → Computer → Computer
set_descriptors at c = record c {
  ldt_desc = ldt_entry c.ldt_desc at.ldt at.ldt_size;
  ldtr = kernel_ldt;
  tss_desc = tss_entry c.tss_desc at.tss at.tss_size;
  tss_ldt = kernel_ldt;
  task_register = kernel_tss;
  machine = record c.machine {
    system = record c.machine.system { tss_ss0 = 0x18; tss_esp0 = 0x0080_0000 };
  };
}

-- `for(i = 0; i < 16; i++) disable_irq(i)`, from `i` on.
pub disable_from : ℕ → ℕ → Pic × List Io → Pic × List Io
disable_from zero i (p, io) = (p, io)
disable_from (suc left) i (p, io) =
    let (p', more) = Pic.disable_irq p i in disable_from left (i + 1) (p', io ++ more)

-- i8259_init, init_idt and the loop that masks all lines.
unfoldable pub init_interrupts : Linked → Computer → Computer
init_interrupts at c =
    on_kernel
      (λ k.
        let (pic, io) = disable_from 16 0 (k.pic, k.io ++ Pic.i8259_init) in
        record k { pic = pic; io = io })
      (record c { idt = init_idt at.handlers c.idt })

-- paging_init, whose load of CR3 is recorded twice.
unfoldable pub init_paging : Linked → Computer → Computer
init_paging at c =
    let (tables, registers) = paging_init at.tables_at c.tables c.registers in
    on_kernel (λ k. record k { cr3 = kernel_directory })
      (record c { tables = tables; registers = registers })

-- rtc_init, init_fs and `enable_irq(PIC_1)`; `prev_b` and `prev_a` are what the clock's registers
-- deliver.
unfoldable pub init_devices : ℕ → ℕ → Computer → Computer
init_devices prev_b prev_a c =
    let k = c.machine.system.kernel in
    let (pic1, io1) = rtc_init k.pic prev_b prev_a in
    let (pic2, io2) = Pic.enable_irq pic1 1 in
    on_machine (λ m. record m { system = record m.system { pc = 0 } })
      (on_kernel
        (λ k. record k {
          filesystem = init_fs k.mem c.boot_block_ptr;
          pic = pic2;
          io = (k.io ++ io1) ++ io2;
        })
        c)

-- `terminal_open(0)`, clear and sti.
unfoldable pub init_terminal : Computer → Computer
init_terminal c =
    on_kernel (λ k. record k { io = k.io ++ (sti ∷ []) })
      (on_machine
        (λ m.
          let m1 = with_terminal m (terminal_open (terminal_of m)).1 in
          with_screen m1 (clear (screen_of m1)))
        c)

-- What entry does between its report and its call of execute.
unfoldable pub initialise : Linked → ℕ → ℕ → Computer → Computer
initialise at prev_b prev_a c =
    init_terminal
      (init_devices prev_b prev_a (init_paging at (init_interrupts at (set_descriptors at c))))

-- How entry ends: it returns early, to the loop in boot.S; or execute ends, which enters the shell or
-- returns to the loop at the end of entry.
pub data Boot : Type 0 where
  stops : Computer → Boot
  executes : Computer → Outcome → Boot

-- The first clear, and the report.
unfoldable pub report : ℕ → ℕ → ℕ → ℕ → Computer → Option (Bool × Computer)
report fuel rounds magic addr c = do
  (goes_on, r) ←
      read_multiboot fuel rounds magic addr
        (record { screen = clear (screen_of c.machine); boot_block_ptr = c.boot_block_ptr })
  some (
    goes_on,
    record (on_machine (λ m. with_screen m r.screen) c) { boot_block_ptr = r.boot_block_ptr },
  )

-- entry behind its report.
unfoldable pub start : Linked → ℕ → ℕ → ℕ → ℕ → ℕ → Bool × Computer → Option Boot
start at prev_b prev_a fuel esp ebp (false, c) = some (stops c)
start at prev_b prev_a fuel esp ebp (true, c) =
    let c1 = initialise at prev_b prev_a c in
    Option.map (executes c1) (execute fuel esp ebp c1.machine.system (some (bytes_of "shell")))

-- entry; `fuel` bounds the loops of printf and of the parsing, `rounds` those over the modules and
-- the memory map, and `esp` and `ebp` are what execute saves.
unfoldable pub entry : Linked → ℕ → ℕ → ℕ → ℕ → ℕ → ℕ → ℕ → ℕ → Computer → Option Boot
entry at prev_b prev_a fuel rounds esp ebp magic addr c =
    report fuel rounds magic addr c >>= start at prev_b prev_a fuel esp ebp
