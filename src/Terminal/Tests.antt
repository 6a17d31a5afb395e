-- ===== src/Terminal/Tests.antt =====
-- A switch from the first terminal to the second and back, on concrete terminals.
use mp.Base.{◌≡◌, ◌==◌, if◌then◌else◌, refl, arith, []}
use mp.Kernel.{Pcb, kernel_directory, task_directory}
use mp.Pic
use mp.Terminal.{Terminal, Saved, returns, terminal_switch}
use mp.Terminal.Switching.{away, away-current, terminal_switch-ShownAgain, ShownAgain}

abbrev pub no_pcb : Pcb
no_pcb = record {
  prev_pcb = 0;
  esp = 0;
  ebp = 0;
  cr3 = kernel_directory;
  parent_pid = 0;
  file_struct = [];
  dentry = [];
  cmd_name = [];
  arg_name = [];
  data_arg_size = 0;
}

abbrev pub not_kept : Saved
not_kept = record {
  t_linebuffer = λ i. 0;
  pos_x = 0;
  pos_y = 0;
  esp = 0;
  kernel_esp = 0;
  cr3 = task_directory 2;
  file_struct = [];
}

-- Terminal 1 on display, with `l` typed behind the prompt; terminal 2 was started before.
abbrev pub first_shown : Terminal
first_shown = record {
  screen = record { mem = λ a. 32; screen_x = 8; screen_y = 3 };
  text_buf = λ i. if i == 0 then 108 else 0;
  counter = 1;
  entered = 0;
  cur_terminal = 1;
  term2_flag = 1;
  term3_flag = 0;
  term2_press = 0;
  term3_press = 0;
  terminals = λ i. not_kept;
  pcblock = no_pcb;
  saved = λ n. no_pcb;
  esp = 0x007f_f000;
  cr3 = task_directory 1;
  tss_ss0 = 0x18;
  tss_esp0 = 0x007f_fffc;
  pic = Pic.initial;
  io = [];
}

abbrev second_shown : Terminal
second_shown = away first_shown 2 (omega arith) (omega arith) (omega arith)

terminal_switch-ShownAgain_example :
    (v : Terminal) × (terminal_switch second_shown 1 ≡ returns v)
    × ShownAgain first_shown 2 (omega arith) (omega arith) (omega arith) second_shown v
terminal_switch-ShownAgain_example =
    terminal_switch-ShownAgain first_shown 2 (omega arith) (omega arith) (omega arith) second_shown
      (λ e. omega arith, λ e. omega arith)
      (away-current first_shown 2 (omega arith) (omega arith) (omega arith)) refl (λ k h. refl)
