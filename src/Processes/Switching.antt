-- ===== src/Processes/Switching.antt =====
-- What execute leaves behind, and the way back by halt.
use mathlib.Core.Option
use mp.Base.{
  ℕ, ◌≤◌, ◌≡◌, ◌≢◌, ◌⊎◌, inl, inr, refl, ap, ◌∙◌, Bool, true, false, Option, none, some, ltb, ◌==◌,
  if◌then◌else◌, arith, minus_one, add32, sub32, mul32, get_or,
}
use mp.Kernel.{Pcb, Dentry, task_directory}
use mp.FileSystem.{read_data, DataRead, read_dentry_by_name, inode_ptr, block_ptr}
use mp.Memory.{load32}
use mp.SystemCalls.{find_pid}
use mp.Commands.{parse_cmd}
use mp.Processes.{
  System, Outcome, returns, refuses, enters, with_pcb, names_of, with_names, enter_task, copy_image,
  load_program, loader, choose_pid, take_slot, start_program, run_command, execute, finish_load,
  run_loaded, run_names, new_load, is_executable, max_tasks,
}

-- What the loader does not change.
record Carried (s t : System) : Type 0 where
  tasks : t.tasks ≡ s.tasks
  new_pid : t.new_pid ≡ s.new_pid
  saved : t.kernel.saved ≡ s.kernel.saved

-- The directory and the count of programs, which the loader sets when it loads a program.
record Entered (s t : System) : Type 0 where
  cr3 : t.kernel.cr3 ≡ (enter_task s).kernel.cr3
  pc : t.pc ≡ (enter_task s).pc

abbrev Loaded : System → Option (ℕ × System) → Type 0
Loaded s none = Unit
Loaded s (some (eip, t)) = Carried s t × ((eip ≡ minus_one) ⊎ Entered s t)

branch-Loaded :
    (s : System) (b : Bool) (o p : Option (ℕ × System))
    → Loaded s o
    → Loaded s p
    → Loaded s (if b then o else p)
branch-Loaded s true o p yes_way no_way = yes_way
branch-Loaded s false o p yes_way no_way = no_way

finish_load-Loaded :
    (s : System) (d : Dentry) (n : ℕ) (o : Option DataRead)
    → Loaded s (Option.map (finish_load (record s { dentry1 = d }) n) o)
unfolding finish_load enter_task copy_image
finish_load-Loaded s d n none = tt
finish_load-Loaded s d n (some r) =
    (record { tasks = refl; new_pid = refl; saved = refl }, inr (record { cr3 = refl; pc = refl }))

refused-Loaded : (s : System) (d : Dentry) → Loaded s (some (minus_one, record s { dentry1 = d }))
refused-Loaded s d = (record { tasks = refl; new_pid = refl; saved = refl }, inl refl)

loader-Loaded : (s : System) (f : ℕ → ℕ) → Loaded s (loader s f)
unfolding loader load_program
loader-Loaded s f =
    let k = s.kernel in
    let found = read_dentry_by_name k.mem k.filesystem f s.dentry1 in
    let d = found.1 in
    let iptr = inode_ptr k.filesystem d.inode_number in
    let n = load32 k.mem iptr in
    let magic = is_executable k.mem (block_ptr k.mem k.filesystem iptr 0) in
    let refused : Option (ℕ × System) = some (minus_one, record s { dentry1 = d }) in
    let loaded = load_program (record s { dentry1 = d }) n in
    let long = if magic then loaded else refused in
    branch-Loaded s (found.0 == minus_one) refused (if ltb n 4 then refused else long)
      (refused-Loaded s d)
      (branch-Loaded s (ltb n 4) refused long (refused-Loaded s d) (
        branch-Loaded s magic loaded refused
          (finish_load-Loaded s d n (read_data k.filesystem k.mem d.inode_number 0 new_load n))
          (refused-Loaded s d)))

-- The program `n` runs, and its caller `cur` is kept with its registers and its directory.
pub record Started (s : System) (esp ebp n cur eip : ℕ) (t : System) : Type 0 where
  pub slot : t.new_pid ≡ n
  pub tasks : (i : ℕ) → t.tasks i ≡ (if i == n then cur else s.tasks i)
  pub caller :
      n ≢ 1
      → cur ≢ n
      → t.kernel.saved cur ≡ record s.kernel.pcblock { cr3 = s.kernel.cr3; esp = esp; ebp = ebp }
  pub others : (p : ℕ) → p ≢ n → p ≢ cur → t.kernel.saved p ≡ s.kernel.saved p
  pub directory : 1 ≤ n → n ≤ 6 → t.kernel.cr3 ≡ task_directory n
  pub count : 4 ≤ n → n ≤ 6 → t.pc ≡ add32 s.pc 1
  pub parent : t.kernel.pcblock.parent_pid ≡ cur
  pub stack : t.tss_esp0 ≡ sub32 (sub32 0x0080_0000 (mul32 0x2000 (sub32 n 1))) 4

abbrev pub CanStart : System → ℕ → ℕ → ℕ → ℕ → Option Outcome → Type 0
CanStart s esp ebp n cur none = Unit
CanStart s esp ebp n cur (some (returns v t)) = v ≡ minus_one
CanStart s esp ebp n cur (some (refuses t)) = Unit
CanStart s esp ebp n cur (some (enters eip t)) = Started s esp ebp n cur eip t

pub record Taken (c : System) (esp ebp cur : ℕ) (u : System) : Type 0 where
  pub tasks : u.tasks ≡ (λ i. if i == c.new_pid then cur else c.tasks i)
  pub pc : u.pc ≡ c.pc
  pub new_pid : u.new_pid ≡ c.new_pid
  pub mem : u.kernel.mem ≡ c.kernel.mem
  pub files : u.kernel.filesystem ≡ c.kernel.filesystem
  pub others : (p : ℕ) → p ≢ cur → u.kernel.saved p ≡ c.kernel.saved p
  pub caller : c.new_pid ≢ 1 → u.kernel.saved cur ≡ record c.kernel.pcblock { esp = esp; ebp = ebp }

branch-Taken :
    (c : System) (esp ebp cur : ℕ) (b : Bool) (u v : System)
    → (b ≡ true → Taken c esp ebp cur u)
    → (b ≡ false → Taken c esp ebp cur v)
    → Taken c esp ebp cur (if b then u else v)
branch-Taken c esp ebp cur true u v yes_way no_way = yes_way refl
branch-Taken c esp ebp cur false u v yes_way no_way = no_way refl

pub take_slot-Taken : (c : System) (esp ebp cur : ℕ) → Taken c esp ebp cur (take_slot esp ebp c cur)
unfolding take_slot
take_slot-Taken c esp ebp cur =
    branch-Taken c esp ebp cur (c.new_pid == 1) _ _
      (λ e. record {
        tasks = refl;
        pc = refl;
        new_pid = refl;
        mem = refl;
        files = refl;
        others = λ p ne. refl;
        caller = λ ne. absurd (ne (ground arith));
      })
      (λ e. record {
        tasks = refl;
        pc = refl;
        new_pid = refl;
        mem = refl;
        files = refl;
        others = λ p ne. ground arith;
        caller = λ ne. ground arith;
      })

start_program-saved :
    (s : System) (cur p : ℕ)
    → p ≢ s.new_pid
    → (start_program s cur).kernel.saved p ≡ s.kernel.saved p
unfolding start_program
start_program-saved s cur p ne = ground arith

-- A program that was loaded starts.
start_program-Started :
    (s c u s1 : System) (esp ebp cur eip : ℕ)
    → c.tasks ≡ s.tasks
    → c.pc ≡ s.pc
    → c.kernel.saved ≡ s.kernel.saved
    → c.kernel.pcblock ≡ record s.kernel.pcblock { cr3 = s.kernel.cr3 }
    → Taken c esp ebp cur u
    → Carried u s1
    → Entered u s1
    → Started s esp ebp c.new_pid cur eip (start_program s1 cur)
unfolding start_program enter_task
start_program-Started s c u s1 esp ebp cur eip ts pcs sav dir taken carried entered =
    let pid : s1.new_pid ≡ c.new_pid = carried.new_pid ∙ taken.new_pid in
    record {
      slot = pid;
      tasks = λ i.
          ap (λ (f : ℕ → ℕ). f i) (carried.tasks ∙ taken.tasks)
          ∙ ap (λ (f : ℕ → ℕ). if i == c.new_pid then cur else f i) ts;
      caller = λ n1 nc.
          start_program-saved s1 cur cur (λ e. nc (e ∙ pid))
          ∙ ap (λ (f : ℕ → Pcb). f cur) carried.saved
          ∙ taken.caller n1
          ∙ ap (λ (p : Pcb). record p { esp = esp; ebp = ebp }) dir;
      others = λ p nn nc.
          start_program-saved s1 cur p (λ e. nn (e ∙ pid))
          ∙ ap (λ (f : ℕ → Pcb). f p) carried.saved
          ∙ taken.others p nc
          ∙ ap (λ (f : ℕ → Pcb). f p) sav;
      directory = λ lo hi. entered.cr3 ∙ ground (arith, taken.new_pid);
      count = λ lo hi. entered.pc ∙ ground (arith, taken.new_pid, taken.pc, pcs);
      parent = refl;
      stack = ap (λ (n : ℕ). sub32 (sub32 0x0080_0000 (mul32 0x2000 (sub32 n 1))) 4) pid;
    }

branch-CanStart :
    (s : System) (esp ebp n cur : ℕ) (b : Bool) (o p : Outcome)
    → (b ≡ true → CanStart s esp ebp n cur (some o))
    → (b ≡ false → CanStart s esp ebp n cur (some p))
    → CanStart s esp ebp n cur (some (if b then o else p))
branch-CanStart s esp ebp n cur true o p yes_way no_way = yes_way refl
branch-CanStart s esp ebp n cur false o p yes_way no_way = no_way refl

run_loaded-CanStart :
    (s c : System) (esp ebp cur : ℕ) (names : ℕ → ℕ) (o : Option (ℕ × System))
    → c.tasks ≡ s.tasks
    → c.pc ≡ s.pc
    → c.kernel.saved ≡ s.kernel.saved
    → c.kernel.pcblock ≡ record s.kernel.pcblock { cr3 = s.kernel.cr3 }
    → Loaded (with_names (take_slot esp ebp c cur) names) o
    → CanStart s esp ebp c.new_pid cur (Option.map (run_loaded cur) o)
unfolding run_loaded enter_task
run_loaded-CanStart s c esp ebp cur names none ts pcs sav dir loaded = tt
run_loaded-CanStart s c esp ebp cur names (some (eip, s1)) ts pcs sav dir loaded =
    branch-CanStart s esp ebp c.new_pid cur (eip == minus_one) _ _ (λ e. refl)
      (λ e. elim loaded.1 [
        | inl is ↦ absurd (ground (arith, e, is))
        | inr entered ↦
            start_program-Started s c (take_slot esp ebp c cur) s1 esp ebp cur eip ts pcs sav dir
              (take_slot-Taken c esp ebp cur)
              (record {
                tasks = loaded.0.tasks;
                new_pid = loaded.0.new_pid;
                saved = loaded.0.saved;
              })
              (record { cr3 = entered.cr3; pc = entered.pc })
      ])

-- The state in which execute has chosen a slot.
pub record Chosen (s c : System) : Type 0 where
  pub tasks : c.tasks ≡ s.tasks
  pub pc : c.pc ≡ s.pc
  pub mem : c.kernel.mem ≡ s.kernel.mem
  pub files : c.kernel.filesystem ≡ s.kernel.filesystem
  pub saved : c.kernel.saved ≡ s.kernel.saved
  pub block : c.kernel.pcblock ≡ record s.kernel.pcblock { cr3 = s.kernel.cr3 }

abbrev pub marked : System → System
marked s = with_pcb s (record s.kernel.pcblock { cr3 = s.kernel.cr3 })

pub choose_pid-Chosen : (s : System) (command : ℕ → ℕ) → Chosen s (choose_pid (marked s) command)
unfolding choose_pid
choose_pid-Chosen s command = record {
  tasks = ground arith;
  pc = ground arith;
  mem = ground arith;
  files = ground arith;
  saved = ground arith;
  block = ground arith;
}

-- The number under which execute keeps its caller.
abbrev pub caller_of : System → ℕ
caller_of s = if find_pid s.kernel.cr3 == 0 then 1 else find_pid s.kernel.cr3

run_command-CanStart :
    (fuel esp ebp : ℕ) (s c : System) (command : ℕ → ℕ) (cur : ℕ) (o : Option (ℕ → ℕ))
    → Chosen s c
    → CanStart s esp ebp c.new_pid cur
        (elim o [ none ↦ none | some names ↦ run_names cur (take_slot esp ebp c cur) names ])
unfolding run_names
run_command-CanStart fuel esp ebp s c command cur none chosen = tt
run_command-CanStart fuel esp ebp s c command cur (some names) chosen =
    let u = take_slot esp ebp c cur in
    let v = with_names u names in
    let name : ℕ → ℕ = λ i. get_or v.kernel.pcblock.cmd_name i 0 in
    run_loaded-CanStart s c esp ebp cur names (loader v name) chosen.tasks chosen.pc chosen.saved
      chosen.block (loader-Loaded v name)

full-CanStart :
    (s : System) (esp ebp n cur : ℕ) (b : Bool) (t : System) (o : Option Outcome)
    → CanStart s esp ebp n cur o
    → CanStart s esp ebp n cur (if b then some (refuses t) else o)
full-CanStart s esp ebp n cur true t o h = tt
full-CanStart s esp ebp n cur false t o h = h

-- If execute returns, it returns -1; if it enters a program, that has the slot chosen for it, no
-- other slot changes, the slot holds the caller, CR3 holds the program's directory if the slot is
-- from 1 to 6, and, for a slot other than 1 and the caller's, the copy of the caller's control block
-- holds its registers and its directory; the copies of all other control blocks stay.
pub execute-CanStart :
    (fuel esp ebp : ℕ) (s : System) (command : ℕ → ℕ)
    → CanStart s esp ebp
        (choose_pid (marked s) command).new_pid
        (caller_of s)
        (execute fuel esp ebp s (some command))
unfolding execute run_command
execute-CanStart fuel esp ebp s command =
    let c = choose_pid (marked s) command in
    full-CanStart s esp ebp c.new_pid (caller_of s) (c.new_pid == max_tasks) c _ (
      run_command-CanStart fuel esp ebp s c command (caller_of s)
        (parse_cmd fuel command (names_of (take_slot esp ebp c (caller_of s)).kernel))
        (choose_pid-Chosen s command))
