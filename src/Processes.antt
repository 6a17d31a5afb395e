-- ===== src/Processes.antt =====
-- student-distrib/systemcalls.c and filesystem.c: execute, the loader and halt. The model ends where
-- the inline assembly leaves the kernel: execute with an `iret` to the program, halt with the
-- return of the parent's execute.
pub mod Slots
pub mod Switching
pub mod Returning
pub mod Refusing
pub mod Nesting
mod Tests
use mathlib.Core.Option
use mp.Base.{
  ℕ, zero, suc, ◌+◌, ◌-◌, ◌*◌, ◌^◌, Bool, true, false, not, ◌&&◌, ◌||◌, Option, none, some, List,
  [], ◌∷◌, ltb, leb, ◌==◌, if◌then◌else◌, get_or, minus_one, add32, sub32, mul32,
}
use mp.Memory.{Mem, load32}
use mp.Memory.Text.{at, strncmp}
use mp.Kernel.{
  Kernel, Pcb, Dentry, PageDirectory, task_directory, terminal_fops, file_of, with_file,
}
use mp.FileSystem.{bytes_at, read_dentry_by_name, inode_ptr, block_ptr, read_data, DataRead}
use mp.SystemCalls.{find_pid, set_flags, close_file}
use mp.Commands.{parse_cmd}

-- The variables of the kernel, with those that manage processes. `programs n` is the memory of
-- task `n` by the addresses that it uses; `switch2` and `switch3` are `term2_press` and
-- `term3_press`.
pub record System : Type 0 where
  pub kernel : Kernel
  pub tasks : ℕ → ℕ
  pub pc : ℕ
  pub new_pid : ℕ
  pub term1_rst : ℕ
  pub term2_rst : ℕ
  pub term3_rst : ℕ
  pub switch2 : ℕ
  pub switch3 : ℕ
  pub dentry1 : Dentry
  pub tss_ss0 : ℕ
  pub tss_esp0 : ℕ
  pub programs : ℕ → Mem

abbrev pub max_tasks : ℕ
max_tasks = 7

abbrev pub program_img : ℕ
program_img = 0x0804_8000

-- `(uint8_t *)NEW_LOAD`: a cast of the first summand, to bytes.
abbrev pub new_load : ℕ
new_load = 0x0060_5000

abbrev pub with_pcb : System → Pcb → System
with_pcb s p = record s { kernel = record s.kernel { pcblock = p } }

-- `memcpy(pcbptr, &pcblock, PCB_SIZE)` to the place of process `pid`.
abbrev pub with_copy : System → ℕ → System
with_copy s pid = record s {
  kernel = record s.kernel { saved = λ i. if i == pid then s.kernel.pcblock else s.kernel.saved i };
}

-- `EIGHT_MB - KB_8*(pid) - START - T_6*KB_8`
abbrev pub pcb_place : ℕ → ℕ
pcb_place pid = sub32 (sub32 (sub32 0x0080_0000 (mul32 0x2000 pid)) 4) (mul32 6 0x2000)

-- The four magic bytes.
unfoldable pub is_executable : Mem → ℕ → Bool
is_executable m a = m a == 0x7f && m (a + 1) == 0x45 && m (a + 2) == 0x4c && m (a + 3) == 0x46

-- The new directory, and `pc`, which does not count the shells of terminals 2 and 3.
unfoldable pub enter_task : System → System
enter_task s =
    let n = s.new_pid in
    let known = leb 1 n && leb n 6 in
    let counted = known && not (n == 2) && not (n == 3) in
    record s {
      kernel = record s.kernel { cr3 = if known then task_directory n else s.kernel.cr3 };
      pc = if counted then add32 s.pc 1 else s.pc;
    }

-- The last copy of the loader, to the program's page of the directory in CR3.
unfoldable pub copy_image : System → ℕ → System
copy_image s data_length = record s {
  programs = λ n a.
      if n == find_pid s.kernel.cr3 && leb program_img a && ltb a (program_img + data_length)
      then s.kernel.mem (new_load + (a - program_img))
      else s.programs n a;
}

-- The loader behind its call of read_data, which also sets the position of `fd_val`.
unfoldable pub finish_load : System → ℕ → DataRead → ℕ × System
finish_load s data_length r =
    let k = s.kernel in
    let f = file_of k.pcblock k.fd_val in
    let p : Pcb = elim r.fpos [
      | none ↦ k.pcblock
      | some pos ↦ with_file k.pcblock k.fd_val (record f { fpos = pos })
    ] in
    let s1 = enter_task (record s { kernel = record k { mem = r.mem; pcblock = p } }) in
    (load32 r.mem (new_load + 24), copy_image s1 data_length)

unfoldable pub load_program : System → ℕ → Option (ℕ × System)
load_program s data_length =
    let k = s.kernel in
    Option.map (finish_load s data_length)
      (read_data k.filesystem k.mem s.dentry1.inode_number 0 new_load data_length)

-- loader; `none` means that read_data ran out of fuel.
unfoldable pub loader : System → (ℕ → ℕ) → Option (ℕ × System)
loader s filename =
    let k = s.kernel in
    let (status, d) = read_dentry_by_name k.mem k.filesystem filename s.dentry1 in
    let s1 = record s { dentry1 = d } in
    let iptr = inode_ptr k.filesystem d.inode_number in
    let data_length = load32 k.mem iptr in
    if status == minus_one
    then some (minus_one, s1)
    else if ltb data_length 4
    then some (minus_one, s1)
    else if is_executable k.mem (block_ptr k.mem k.filesystem iptr 0)
    then load_program s1 data_length
    else some (minus_one, s1)

-- The loop of execute: the first free slot from `i` on, without 2 and 3, or 7.
pub first_free : ℕ → ℕ → (ℕ → ℕ) → ℕ
first_free zero i tasks = max_tasks
first_free (suc left) i tasks =
    let j = if i == 2 then i + i else i in
    elim (ltb i max_tasks) [
      | false ↦ max_tasks
      | true ↦ elim (tasks j == 0) [ true ↦ j | false ↦ first_free left (j + 1) tasks ]
    ]

-- `!strncmp((int8_t*)command, "shell", 5)`
unfoldable pub is_shell : (ℕ → ℕ) → Bool
is_shell command = strncmp command (λ i. get_or (115 ∷ 104 ∷ 101 ∷ 108 ∷ 108 ∷ []) i 0) 5 == 0

-- The choice of `new_pid`.
unfoldable pub choose_pid : System → (ℕ → ℕ) → System
choose_pid s command =
    let shell = is_shell command in
    if s.pc == 0
    then record s { new_pid = 1 }
    else if shell && not (s.term1_rst == 0)
    then record s { term1_rst = 0; new_pid = 1 }
    else if shell && (not (s.switch2 == 0) || not (s.term2_rst == 0))
    then record s { term2_rst = 0; new_pid = 2 }
    else if shell && (not (s.switch3 == 0) || not (s.term3_rst == 0))
    then record s { term3_rst = 0; new_pid = 3 }
    else record s { new_pid = first_free 6 1 s.tasks }

-- The fields of the control block that parse_cmd fills, and what follows the block, as the bytes that
-- they are, and back.
abbrev pub names_of : Kernel → ℕ → ℕ
names_of k b =
    if ltb b 40
    then get_or k.pcblock.cmd_name b 0
    else if ltb b 80
    then get_or k.pcblock.arg_name (b - 40) 0
    else if b == 80
    then k.pcblock.data_arg_size
    else k.behind (b - 81)

abbrev pub with_names : System → (ℕ → ℕ) → System
with_names s f = record s {
  kernel = record s.kernel {
    pcblock = record s.kernel.pcblock {
      cmd_name = bytes_at 40 f 0;
      arg_name = bytes_at 40 f 40;
      data_arg_size = f 80;
    };
    behind = λ i. f (i + 81);
  };
}

-- How execute ends: it returns a value, it reports that no slot is free and returns -1, or the
-- processor goes on at the program's entry point.
pub data Outcome : Type 0 where
  returns : ℕ → System → Outcome
  refuses : System → Outcome
  enters : ℕ → System → Outcome

-- execute from the choice of a slot to its call of parse_cmd: `cur_pid` is the caller.
unfoldable pub take_slot : ℕ → ℕ → System → ℕ → System
take_slot esp ebp s cur_pid =
    let s1 = record s { tasks = λ i. if i == s.new_pid then cur_pid else s.tasks i } in
    let s2 = with_pcb s1 (record s.kernel.pcblock { esp = esp; ebp = ebp }) in
    let s3 = with_copy s2 cur_pid in
    if s.new_pid == 1
    then s2
    else with_pcb s3 (record s3.kernel.pcblock { prev_pcb = pcb_place cur_pid })

-- The descriptors of a new process: the two of the terminal, and six that are free.
unfoldable pub fresh_files : Pcb → Pcb
fresh_files p =
    let q0 = with_file p 0 (record (file_of p 0) { flags = 1; fops_ptr = terminal_fops }) in
    let q1 = with_file q0 1 (record (file_of q0 1) { flags = 1; fops_ptr = terminal_fops }) in
    set_flags (set_flags (set_flags (set_flags (set_flags (set_flags q1 2 0) 3 0) 4 0) 5 0) 6 0) 7 0

-- execute behind the loader; `new_pid` is from 1 to 6 here.
unfoldable pub start_program : System → ℕ → System
start_program s cur_pid =
    let p = record (fresh_files s.kernel.pcblock) { cr3 = s.kernel.cr3 } in
    let s1 = with_copy (with_pcb s p) s.new_pid in
    record (with_pcb s1 (record p {
      prev_pcb = pcb_place s.new_pid;
      parent_pid = cur_pid;
      cr3 = task_directory s.new_pid;
    })) {
      switch2 = 0;
      switch3 = 0;
      tss_ss0 = 0x18;
      tss_esp0 = sub32 (sub32 0x0080_0000 (mul32 0x2000 (sub32 s.new_pid 1))) 4;
    }

-- execute behind its call of loader, with the entry point or -1.
unfoldable pub run_loaded : ℕ → ℕ × System → Outcome
run_loaded cur_pid (eip, s) =
    if eip == minus_one then returns minus_one s else enters eip (start_program s cur_pid)

-- execute behind its call of parse_cmd, which leaves the bytes `names`.
unfoldable pub run_names : ℕ → System → (ℕ → ℕ) → Option Outcome
run_names cur_pid s names =
    let s1 = with_names s names in
    Option.map (run_loaded cur_pid) (loader s1 (λ i. get_or s1.kernel.pcblock.cmd_name i 0))

-- execute with a slot, from its call of parse_cmd on.
unfoldable pub run_command : ℕ → System → (ℕ → ℕ) → ℕ → Option Outcome
run_command fuel s command cur_pid = elim (parse_cmd fuel command (names_of s.kernel)) [
  | none ↦ none
  | some names ↦ run_names cur_pid s names
]

-- execute; `esp` and `ebp` are the registers where it saves them, and `none` for the command is the
-- null pointer.
unfoldable pub execute : ℕ → ℕ → ℕ → System → Option (ℕ → ℕ) → Option Outcome
execute fuel esp ebp s none = some (returns minus_one s)
execute fuel esp ebp s (some command) =
    let k = s.kernel in
    let s1 = choose_pid (with_pcb s (record k.pcblock { cr3 = k.cr3 })) command in
    let pid = find_pid k.cr3 in
    let cur_pid = if pid == 0 then 1 else pid in
    if s1.new_pid == max_tasks
    then some (refuses s1)
    else run_command fuel (take_slot esp ebp s1 cur_pid) command cur_pid

-- The loop of halt: close of the descriptors from `fd` on.
pub close_all : ℕ → ℕ → Kernel → Kernel
close_all zero fd k = k
close_all (suc left) fd k = close_all left (fd + 1) (close_file k fd).1

-- How halt ends: execute of a new shell, or the return of the parent's execute, with what it
-- returns and the registers `esp` and `ebp`.
pub data Halted : Type 0 where
  restarts : Option Outcome → Halted
  resumes : ℕ → ℕ → ℕ → System → Halted

unfoldable pub restart_shell : System → ℕ → System
restart_shell s pid = record s {
  term1_rst = if pid == 1 then 1 else s.term1_rst;
  term2_rst = if pid == 2 then 1 else s.term2_rst;
  term3_rst = if pid == 3 then 1 else s.term3_rst;
  tasks = λ i. if i == pid then 0 else s.tasks i;
  pc = sub32 s.pc 1;
}

-- halt of a process that is no shell.
unfoldable pub leave_process : System → ℕ → System
leave_process s pid =
    let parent = s.kernel.saved (s.tasks pid) in
    let k = record (close_all 6 2 s.kernel) { cr3 = parent.cr3 } in
    record s {
      kernel = k;
      pc = sub32 s.pc 1;
      tasks = λ i. if i == pid then 0 else s.tasks i;
      tss_esp0 = sub32 (sub32 0x0080_0000 (mul32 0x2000 (sub32 (find_pid k.cr3) 1))) 4;
    }

-- halt; the status is dropped, and the parent's execute returns 0.
unfoldable pub halt : ℕ → ℕ → ℕ → System → ℕ → Halted
halt fuel esp ebp s status =
    let pid = find_pid s.kernel.cr3 in
    let parent = s.kernel.saved (s.tasks pid) in
    if leb pid 3
    then restarts (
        execute fuel esp ebp (restart_shell s pid)
          (some (λ i. get_or (115 ∷ 104 ∷ 101 ∷ 108 ∷ 108 ∷ []) i 0)))
    else resumes 0 parent.esp parent.ebp (leave_process s pid)
