-- ===== src/Processes/Tests.antt =====
-- Runs of execute and halt on a file system with one program, and the theorems applied to concrete
-- states.
use mp.Base.{
  ℕ, zero, suc, ◌+◌, ◌≡◌, ◌≢◌, refl, sym, Bool, true, false, ◌&&◌, ◌||◌, Option, none, some, List,
  [], ◌∷◌, ltb, ◌==◌, if◌then◌else◌, arith, get_or, minus_one, u8,
}
use mp.Memory.{Mem, memcpy, copy_words, copy_bytes, copy_aligned, copy_top}
use mp.Memory.Text.{EndsAt, IsBytes, strncmp, strncmp_from, strlen, strlen_from}
use mp.Kernel.{Pcb, FileSystem, kernel_directory, task_directory, zeros, zero_dentry, zero_file}
use mp.Pic
use mp.Commands.{parse_cmd, parse_line, cleared_names, separate, separate_from}
use mp.SystemCalls.{find_pid}
use mp.FileSystem.{
  bytes_at, entry, read_dentry_by_name, by_name_from, is_named, load_dentry, read_data, clear_buf,
  read_valid, copy_file, first_round, read_blocks, later_round, cut_length,
}
use mp.Processes.{
  System, Outcome, returns, refuses, enters, resumes, first_free, choose_pid, is_shell, execute,
  halt, take_slot, run_command, run_names, run_loaded, loader, is_executable, load_program,
  finish_load, enter_task, copy_image, start_program, fresh_files,
}
use mp.Processes.Slots.{LowestFree, choose_pid-LowestFree}
use mp.Processes.Switching.{CanStart, caller_of, marked, execute-CanStart}
use mp.Processes.Returning.{Resumed, halt-Resumed}
use mp.Processes.Nesting.{IsRunning, Run, ends, calls, Kept, Run-Kept}
use mp.Processes.Refusing.{IsUnknown, program_of, execute-IsUnknown}

-- A file `a` of 28 bytes, a program with its entry point at 0x08048000.
abbrev image : Mem
image a =
    if a == 0x1040
    then 97
    else if a == 0x1060
    then 2
    else if a == 0x2000
    then 28
    else if a == 0x4000
    then 0x7f
    else if a == 0x4001
    then 0x45
    else if a == 0x4002
    then 0x4c
    else if a == 0x4003
    then 0x46
    else if a == 0x4019
    then 0x80
    else if a == 0x401a
    then 4
    else if a == 0x401b
    then 8
    else 0

abbrev files : FileSystem
files = record {
  boot_block = 0x1000;
  num_dir_entries = 1;
  num_inodes = 2;
  num_data_blocks = 1;
  dentry_begin = 0x1040;
  data_start = 0x4000;
}

abbrev block : Pcb
block = record {
  prev_pcb = 0;
  esp = 0;
  ebp = 0;
  cr3 = kernel_directory;
  parent_pid = 0;
  file_struct =
      zero_file ∷ zero_file ∷ zero_file ∷ zero_file ∷ zero_file ∷ zero_file ∷ zero_file ∷ zero_file
      ∷ [];
  dentry =
      zero_dentry ∷ zero_dentry ∷ zero_dentry ∷ zero_dentry ∷ zero_dentry ∷ zero_dentry
      ∷ zero_dentry ∷ zero_dentry ∷ [];
  cmd_name = zeros 40;
  arg_name = zeros 40;
  data_arg_size = 0;
}

-- The shell of the first terminal runs.
abbrev system : System
system = record {
  kernel = record {
    mem = image;
    filesystem = files;
    pcblock = block;
    fd_val = 0;
    fd_index = 0;
    behind = λ i. 0;
    fd_rtc = 0;
    cr3 = task_directory 1;
    saved = λ i. block;
    pic = Pic.initial;
    io = [];
  };
  tasks = λ i. if i == 0 || i == 1 then 1 else 0;
  pc = 1;
  new_pid = 1;
  term1_rst = 0;
  term2_rst = 0;
  term3_rst = 0;
  switch2 = 0;
  switch3 = 0;
  dentry1 = zero_dentry;
  tss_ss0 = 0x18;
  tss_esp0 = 0x007f_fffc;
  programs = λ n a. 0;
}

abbrev text : List ℕ → ℕ → ℕ
text l i = get_or l i 0

abbrev command_a : ℕ → ℕ
command_a = text (97 ∷ [])

abbrev command_ls : ℕ → ℕ
command_ls = text (108 ∷ 115 ∷ [])

abbrev after : Option Outcome → System
after none = system
after (some (returns v t)) = t
after (some (refuses t)) = t
after (some (enters eip t)) = t

abbrev running : System
running = after (execute 3 5000 6000 system (some command_a))

choose_pid-LowestFree_example : LowestFree system.tasks (choose_pid system command_a).new_pid
unfolding is_shell strncmp strncmp_from
choose_pid-LowestFree_example = choose_pid-LowestFree system command_a (λ e. omega arith) refl

entered : execute 3 5000 6000 system (some command_a) ≡ some (enters 0x0804_8000 running)
unfolding execute choose_pid first_free is_shell strncmp strncmp_from take_slot run_command
    parse_cmd strlen strlen_from parse_line cleared_names separate_from separate run_names
    run_loaded loader read_dentry_by_name by_name_from is_named load_dentry is_executable
    load_program read_data clear_buf read_valid copy_file first_round read_blocks later_round
    cut_length memcpy copy_words copy_bytes finish_load enter_task copy_image start_program
    fresh_files copy_aligned copy_top find_pid
entered = refl

in_slot_4 : running.new_pid ≡ 4
unfolding execute choose_pid first_free is_shell strncmp strncmp_from take_slot run_command
    parse_cmd strlen strlen_from parse_line cleared_names separate_from separate run_names
    run_loaded loader read_dentry_by_name by_name_from is_named load_dentry is_executable
    load_program read_data clear_buf read_valid copy_file first_round read_blocks later_round
    cut_length memcpy copy_words copy_bytes finish_load enter_task copy_image start_program
    fresh_files copy_aligned copy_top find_pid
in_slot_4 = refl

caller_1 : caller_of system ≡ 1
unfolding find_pid
caller_1 = refl

execute-CanStart_example :
    CanStart system 5000 6000
      (choose_pid (marked system) command_a).new_pid
      (caller_of system)
      (execute 3 5000 6000 system (some command_a))
execute-CanStart_example = execute-CanStart 3 5000 6000 system command_a

halt-Resumed_example :
    (v : System) × (halt 0 0 0 running 7 ≡ resumes 0 5000 6000 v)
    × Resumed system running running.new_pid v
halt-Resumed_example =
    halt-Resumed 3 5000 6000 system command_a 0x0804_8000 running entered (omega (arith, in_slot_4))
      (omega (arith, in_slot_4)) (omega (arith, in_slot_4, caller_1)) (omega arith) running refl
      refl refl refl 0 0 0 7

ls_EndsAt : EndsAt command_ls 2
ls_EndsAt = record { nul = refl; before = λ i h. ground arith }

all_bytes : List ℕ → Bool
all_bytes [] = true
all_bytes (b ∷ bs) = ltb b 256 && all_bytes bs

all_bytes-IsBytes : (bs : List ℕ) → all_bytes bs ≡ true → IsBytes (λ i. get_or bs i 0)
unfolding all_bytes
all_bytes-IsBytes [] h i = omega arith
all_bytes-IsBytes (b ∷ bs) h zero = ground arith
all_bytes-IsBytes (b ∷ bs) h (suc i) = all_bytes-IsBytes bs (ground arith) i

ls_chars : (fields : ℕ → ℕ) → IsBytes (program_of 2 command_ls fields)
unfolding parse_line cleared_names separate_from separate all_bytes
ls_chars fields = all_bytes-IsBytes (bytes_at 40 (parse_line (u8 2) command_ls fields) 0) refl

image-IsBytes : IsBytes image
image-IsBytes a = ground arith

no_l : (a : ℕ) → image a ≢ 108
no_l a e = ground arith

ls-IsUnknown : (fields : ℕ → ℕ) → IsUnknown image files (program_of 2 command_ls fields)
unfolding parse_line cleared_names separate_from separate
ls-IsUnknown fields j lt named =
    no_l (entry files j + 0) (sym (named 0 (omega arith) (λ i h. absurd (omega arith))))

ls_free : (choose_pid (marked system) command_ls).new_pid ≢ 7
unfolding choose_pid first_free is_shell strncmp strncmp_from
ls_free e = omega (arith, e)

execute-IsUnknown_example :
    (t : System) × (execute 3 5000 6000 system (some command_ls) ≡ some (returns minus_one t))
    × ((i : ℕ)
        → t.tasks i ≡ (
            if i == (choose_pid (marked system) command_ls).new_pid
            then caller_of system
            else system.tasks i))
execute-IsUnknown_example =
    execute-IsUnknown 3 5000 6000 system command_ls 2 ls_EndsAt (omega arith) image-IsBytes ls_chars
      ls-IsUnknown ls_free

system-IsRunning : IsRunning system 1
system-IsRunning = record {
  directory = refl;
  low = omega arith;
  high = omega arith;
  present = omega arith;
  first = omega arith;
  count = omega arith;
}

-- The end of the program.
back :
    (v : System) × (halt 0 0 0 running 7 ≡ resumes 0 5000 6000 v)
    × Resumed system running running.new_pid v
back =
    halt-Resumed 3 5000 6000 system command_a 0x0804_8000 running entered (omega (arith, in_slot_4))
      (omega (arith, in_slot_4)) (omega (arith, in_slot_4, caller_1)) (omega arith) running refl
      refl refl refl 0 0 0 7

a_other : is_shell command_a ≡ false
unfolding is_shell strncmp strncmp_from
a_other = refl

-- The shell calls the program, and goes on when it has ended.
one_call : Run system back.0
one_call =
    calls system running running back.0 back.0 3 5000 6000 0x0804_8000 0 0 0 7 0 5000 6000 command_a
      a_other (omega arith) entered (ends running) back.1 (ends back.0)

Run-Kept_example : Kept system back.0 1
Run-Kept_example = Run-Kept system back.0 1 system-IsRunning one_call
