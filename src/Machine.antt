-- ===== src/Machine.antt =====
-- The whole of the kernel's variables: those of the processes and the file system, and those of
-- student-distrib/terminal.c and lib.c. `Terminal` has fields that the kernel's records have too;
-- the terminal's operations run on a view of the machine, and what they change is put back.
use mp.Base.{ℕ, List, [], ◌∷◌, ◌==◌, if◌then◌else◌}
use mp.Memory.{Mem}
use mp.Pic
use mp.Screen.{Screen}
use mp.Kernel.{
  Kernel, Pcb, FileStruct, Dentry, FileSystem, kernel_directory, zeros, zero_dentry, zero_file,
}
use mp.Terminal.{Terminal, Saved}
use mp.Processes.{System}

pub record Machine : Type 0 where
  pub system : System
  pub screen_x : ℕ
  pub screen_y : ℕ
  pub text_buf : ℕ → ℕ
  pub counter : ℕ
  pub entered : ℕ
  pub cur_terminal : ℕ
  pub term2_flag : ℕ
  pub term3_flag : ℕ
  pub terminals : ℕ → Saved
  pub esp : ℕ
  -- `intr_flag` of rtc.c
  pub intr_flag : ℕ

abbrev pub screen_of : Machine → Screen
screen_of m = record { mem = m.system.kernel.mem; screen_x = m.screen_x; screen_y = m.screen_y }

abbrev pub terminal_of : Machine → Terminal
terminal_of m =
    let s = m.system in
    record {
      screen = screen_of m;
      text_buf = m.text_buf;
      counter = m.counter;
      entered = m.entered;
      cur_terminal = m.cur_terminal;
      term2_flag = m.term2_flag;
      term3_flag = m.term3_flag;
      term2_press = s.switch2;
      term3_press = s.switch3;
      terminals = m.terminals;
      pcblock = s.kernel.pcblock;
      saved = s.kernel.saved;
      esp = m.esp;
      cr3 = s.kernel.cr3;
      tss_ss0 = s.tss_ss0;
      tss_esp0 = s.tss_esp0;
      pic = s.kernel.pic;
      io = s.kernel.io;
    }

abbrev pub put_kernel : Machine → Kernel → Machine
put_kernel m k = record m { system = record m.system { kernel = k } }

abbrev pub with_terminal : Machine → Terminal → Machine
with_terminal m t = record m {
  system = record m.system {
    kernel = record m.system.kernel {
      mem = t.screen.mem;
      pcblock = t.pcblock;
      saved = t.saved;
      cr3 = t.cr3;
      pic = t.pic;
      io = t.io;
    };
    switch2 = t.term2_press;
    switch3 = t.term3_press;
    tss_ss0 = t.tss_ss0;
    tss_esp0 = t.tss_esp0;
  };
  screen_x = t.screen.screen_x;
  screen_y = t.screen.screen_y;
  text_buf = t.text_buf;
  counter = t.counter;
  entered = t.entered;
  cur_terminal = t.cur_terminal;
  term2_flag = t.term2_flag;
  term3_flag = t.term3_flag;
  terminals = t.terminals;
  esp = t.esp;
}

abbrev pub with_screen : Machine → Screen → Machine
with_screen m s = record (put_kernel m (record m.system.kernel { mem = s.mem })) {
  screen_x = s.screen_x;
  screen_y = s.screen_y;
}

-- The variables as they are initialised, over a memory.
abbrev pub zero_files : List FileStruct
zero_files =
    zero_file ∷ zero_file ∷ zero_file ∷ zero_file ∷ zero_file ∷ zero_file ∷ zero_file ∷ zero_file
    ∷ []

abbrev zero_dentries : List Dentry
zero_dentries =
    zero_dentry ∷ zero_dentry ∷ zero_dentry ∷ zero_dentry ∷ zero_dentry ∷ zero_dentry ∷ zero_dentry
    ∷ zero_dentry ∷ []

abbrev pub zero_pcb : Pcb
zero_pcb = record {
  prev_pcb = 0;
  esp = 0;
  ebp = 0;
  cr3 = kernel_directory;
  parent_pid = 0;
  file_struct = zero_files;
  dentry = zero_dentries;
  cmd_name = zeros 40;
  arg_name = zeros 40;
  data_arg_size = 0;
}

abbrev zero_fs : FileSystem
zero_fs = record {
  boot_block = 0;
  num_dir_entries = 0;
  num_inodes = 0;
  num_data_blocks = 0;
  dentry_begin = 0;
  data_start = 0;
}

abbrev zero_terminal : Saved
zero_terminal = record {
  t_linebuffer = λ i. 0;
  pos_x = 0;
  pos_y = 0;
  esp = 0;
  kernel_esp = 0;
  cr3 = kernel_directory;
  file_struct = zero_files;
}

abbrev pub initial : Mem → Machine
initial mem = record {
  system = record {
    kernel = record {
      mem = mem;
      filesystem = zero_fs;
      pcblock = zero_pcb;
      fd_val = 0;
      fd_index = 0;
      behind = λ i. 0;
      fd_rtc = 0;
      cr3 = kernel_directory;
      saved = λ pid. zero_pcb;
      pic = Pic.initial;
      io = [];
    };
    tasks = λ i. if i == 0 then 1 else 0;
    pc = 0;
    new_pid = 0;
    term1_rst = 0;
    term2_rst = 0;
    term3_rst = 0;
    switch2 = 0;
    switch3 = 0;
    dentry1 = zero_dentry;
    tss_ss0 = 0;
    tss_esp0 = 0;
    programs = λ n i. 0;
  };
  screen_x = 0;
  screen_y = 0;
  text_buf = λ i. 0;
  counter = 0;
  entered = 0;
  cur_terminal = 1;
  term2_flag = 0;
  term3_flag = 0;
  terminals = λ i. zero_terminal;
  esp = 0;
  intr_flag = 0;
}
