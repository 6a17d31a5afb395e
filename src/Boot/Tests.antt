-- ===== src/Boot/Tests.antt =====
-- entry on a concrete computer.
use mp.Base.{ℕ, ◌<◌, ◌^◌, arith, ◌==◌, if◌then◌else◌}
use mp.Memory.{Mem}
use mp.Idt.{Handler, IdtDesc}
use mp.Machine.{initial}
use mp.Boot.{Linked, Computer, initialise}
use mp.Boot.Descriptors.{SegDesc}
use mp.Boot.Lines.{HasByteMasks}
use mp.Boot.Ready.{IsReady, initialise-IsReady}

abbrev handlers : Handler → ℕ
handlers h = 0x0040_1000

handlers_small : (h : Handler) → handlers h < 2 ^ 32
handlers_small h = omega arith

abbrev linked : Linked
linked = record {
  handlers = handlers;
  tables_at = record {
    page_table_at = 0x0040_3000;
    task_table_at = λ n. 0x0040_4000;
    terminal_table_at = 0x0040_5000;
  };
  ldt = 0x0040_6000;
  ldt_size = 31;
  tss = 0x0040_7000;
  tss_size = 103;
}

abbrev no_segment : SegDesc
no_segment = record {
  seg_lim_15_00 = 0;
  base_15_00 = 0;
  base_23_16 = 0;
  type = 0;
  sys = 0;
  dpl = 0;
  present = 0;
  seg_lim_19_16 = 0;
  avail = 0;
  reserved = 0;
  opsize = 0;
  granularity = 0;
  base_31_24 = 0;
}

abbrev no_gate : IdtDesc
no_gate = record {
  offset_15_00 = 0;
  seg_selector = 0;
  reserved4 = 0;
  reserved3 = 0;
  reserved2 = 0;
  reserved1 = 0;
  size = 0;
  reserved0 = 0;
  dpl = 0;
  present = 0;
  offset_31_16 = 0;
}

-- A boot block at 8192 with one file.
abbrev image : Mem
image a = if a == 8192 then 1 else if a == 8196 then 2 else 0

abbrev computer : Computer
computer = record {
  machine = initial image;
  boot_block_ptr = 8192;
  ldt_desc = no_segment;
  tss_desc = no_segment;
  tss_ldt = 0;
  ldtr = 0;
  task_register = 0;
  idt = λ v. no_gate;
  tables = record {
    page_directory = λ i. 0;
    page_table = λ i. 0;
    task_directory = λ n i. 0;
    task_table = λ n i. 0;
    terminal_directory = λ i. 0;
    terminal_table = λ i. 0;
  };
  registers = record { cr0 = 1; cr3 = λ i. 0; cr4 = 0 };
}

all_masked : HasByteMasks computer.machine.system.kernel.pic
all_masked = record { master = omega arith; slave = omega arith }

initialise-IsReady_example : IsReady linked handlers_small computer (initialise linked 0 0 computer)
initialise-IsReady_example =
    initialise-IsReady linked 0 0 computer all_masked handlers_small (omega arith) (omega arith)
      (omega arith) (omega arith)
