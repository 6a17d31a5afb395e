-- ===== src/Processes/Nesting.antt =====
-- Programs that call programs: execute and halt of student-distrib/systemcalls.c in runs in which
-- each program that execute enters ends by halt, whatever programs it calls before.
use mp.Base.{
  ℕ, zero, suc, ◌+◌, ◌^◌, ◌≤◌, ◌<◌, ◌≡◌, ◌≢◌, inl, inr, refl, sym, subst, ap, ◌∙◌, false, some,
  arith, ℕ_discrete,
}
use mp.Kernel.{Kernel, Pcb, task_directory}
use mp.SystemCalls.{find_pid, close_file, filesystem_close, clear_entry}
use mp.Processes.{
  System, Halted, restarts, enters, resumes, execute, close_all, leave_process, halt, choose_pid,
  is_shell, max_tasks,
}
use mp.Processes.Slots.{LowestFree, choose_pid-LowestFree}
use mp.Processes.Switching.{Started, CanStart, caller_of, marked, execute-CanStart}
use mp.Processes.Returning.{Resumed, halt-Resumed, halt-program}

-- What a running program may do to the kernel between execute and halt: it leaves the directory, the
-- table of processes and the copies of the other processes' control blocks alone.
pub record Steady (s t : System) : Type 0 where
  pub directory : t.kernel.cr3 ≡ s.kernel.cr3
  pub count : t.pc ≡ s.pc
  pub tasks : (i : ℕ) → t.tasks i ≡ s.tasks i
  pub saved : (p : ℕ) → p ≢ find_pid s.kernel.cr3 → t.kernel.saved p ≡ s.kernel.saved p

-- The runs of the process that is current in `s`: it ends, it works on, or it executes a program,
-- which runs to its halt.
pub data Run : System → System → Type 0 where
  ends : (s : System) → Run s s
  works : (s t u : System) → Steady s t → Run t u → Run s u
  calls :
      (s t u v w : System) (fuel esp ebp eip f sp bp status r a b : ℕ) (command : ℕ → ℕ)
      → is_shell command ≡ false
      → s.pc + 1 < 2 ^ 32
      → execute fuel esp ebp s (some command) ≡ some (enters eip t)
      → Run t u
      → halt f sp bp u status ≡ resumes r a b v
      → Run v w
      → Run s w

-- A process of the table runs, and the first shell is there.
pub record IsRunning (s : System) (n : ℕ) : Type 0 where
  pub directory : s.kernel.cr3 ≡ task_directory n
  pub low : 1 ≤ n
  pub high : n ≤ 6
  pub present : s.tasks n ≢ 0
  pub first : s.tasks 1 ≢ 0
  pub count : s.pc ≢ 0

-- `execute` that enters a program did not find the table full.
full-enters :
    (s : System) (command : ℕ → ℕ) (fuel esp ebp eip : ℕ) (t : System)
    → execute fuel esp ebp s (some command) ≡ some (enters eip t)
    → (choose_pid (marked s) command).new_pid ≢ max_tasks
unfolding execute
full-enters s command fuel esp ebp eip t h e = ground (arith, h, e)

close_file-saved :
    (k : Kernel) (fd : ℕ)
    → ((close_file k fd).1.saved ≡ k.saved) × ((close_file k fd).1.cr3 ≡ k.cr3)
unfolding close_file clear_entry filesystem_close
close_file-saved k fd = (ground arith, ground arith)

close_all-saved : (n fd : ℕ) (k : Kernel) → (close_all n fd k).saved ≡ k.saved
unfolding close_all
close_all-saved zero fd k = refl
close_all-saved (suc n) fd k =
    close_all-saved n (fd + 1) (close_file k fd).1 ∙ (close_file-saved k fd).0

leave_process-saved : (s : System) (pid : ℕ) → (leave_process s pid).kernel.saved ≡ s.kernel.saved
unfolding leave_process
leave_process-saved s pid = close_all-saved 6 2 s.kernel

-- What the calls of a process leave as it was: the directory in CR3, the count of programs, the table
-- of processes, and the copies of the control blocks of the processes in the table but for its own.
pub record Kept (s w : System) (n : ℕ) : Type 0 where
  pub directory : w.kernel.cr3 ≡ s.kernel.cr3
  pub count : w.pc ≡ s.pc
  pub tasks : (i : ℕ) → w.tasks i ≡ s.tasks i
  pub saved : (p : ℕ) → p ≢ n → s.tasks p ≢ 0 → w.kernel.saved p ≡ s.kernel.saved p

Kept-trans : (s t w : System) (n : ℕ) → Kept s t n → Kept t w n → Kept s w n
Kept-trans s t w n h k = record {
  directory = k.directory ∙ h.directory;
  count = k.count ∙ h.count;
  tasks = λ i. k.tasks i ∙ h.tasks i;
  saved = λ p ne used. k.saved p ne (λ z. used (sym (h.tasks p) ∙ z)) ∙ h.saved p ne used;
}

IsRunning-Kept : (s t : System) (n : ℕ) → IsRunning s n → Kept s t n → IsRunning t n
IsRunning-Kept s t n r k = record {
  directory = k.directory ∙ r.directory;
  low = r.low;
  high = r.high;
  present = λ z. r.present (sym (k.tasks n) ∙ z);
  first = λ z. r.first (sym (k.tasks 1) ∙ z);
  count = λ z. r.count (sym k.count ∙ z);
}

-- The state after a halt that resumes the caller.
abbrev resumed_state : System → Halted → System
resumed_state d (restarts o) = d
resumed_state d (resumes r a b v) = v

-- A program that a running process calls: its slot, and that it runs.
module _ (s t : System) (n : ℕ) (r : IsRunning s n) (fuel esp ebp eip : ℕ) (command : ℕ → ℕ)
    (other : is_shell command ≡ false) (few : s.pc + 1 < 2 ^ 32)
    (entered : execute fuel esp ebp s (some command) ≡ some (enters eip t)) where
  abbrev slot : ℕ
  slot = (choose_pid (marked s) command).new_pid

  lowest : LowestFree s.tasks slot
  lowest = choose_pid-LowestFree (marked s) command r.count other

  caller-current : caller_of s ≡ n
  caller-current = unfold find_pid in ground (arith, ap find_pid r.directory, r.low)

  slot-free : s.tasks slot ≡ 0
  slot-free = elim lowest.free [
    | inl seven ↦ absurd (full-enters s command fuel esp ebp eip t entered seven)
    | inr found ↦ found.1
  ]

  slot-range : (4 ≤ slot) × (slot ≤ 6)
  slot-range = elim lowest.free [
    | inl seven ↦ absurd (full-enters s command fuel esp ebp eip t entered seven)
    | inr found ↦ elim found.0 [
      | inl one ↦ absurd (r.first (ap s.tasks (sym one) ∙ found.1))
      | inr range ↦ range
    ]
  ]

  started : Started s esp ebp slot n eip t
  started =
      subst (λ c. Started s esp ebp slot c eip t) caller-current
        (subst (CanStart s esp ebp slot (caller_of s)) entered
          (execute-CanStart fuel esp ebp s command))

  apart : n ≢ slot
  apart e = r.present (ap s.tasks e ∙ slot-free)

  called-IsRunning : IsRunning t slot
  called-IsRunning = record {
    directory = started.directory (omega (arith, slot-range)) slot-range.1;
    low = omega (arith, slot-range);
    high = slot-range.1;
    present = ground (arith, started.tasks slot, r.low);
    first = ground (arith, started.tasks 1, r.first, slot-range);
    count = λ z. omega (arith, z, started.count slot-range.0 slot-range.1, few, r.count);
  }

  slot_back :
      (u v : System) (i : ℕ)
      → t.new_pid ≡ slot
      → Resumed s u t.new_pid v
      → Kept t u slot
      → v.tasks i ≡ s.tasks i
  slot_back u v i pid resumed k = elim (ℕ_discrete i slot) [
    | yes e ↦ ap v.tasks (e ∙ sym pid) ∙ resumed.free ∙ sym slot-free ∙ ap s.tasks (sym e)
    | no ne ↦ resumed.others i (λ e. ne (e ∙ pid)) ∙ k.tasks i ∙ ground (arith, started.tasks i, ne)
  ]

  -- The program has run to its halt, from `t` to `u`.
  returned-Kept :
      (u v : System) (f sp bp status a b c : ℕ)
      → Kept t u slot
      → halt f sp bp u status ≡ resumes a b c v
      → Kept s v n
  returned-Kept u v f sp bp status a b c k halts =
      let pid : t.new_pid ≡ slot = started.slot in
      let used : t.tasks n ≢ 0 = ground (arith, started.tasks n, apart, r.present) in
      let kept : u.kernel.saved (caller_of s) ≡ t.kernel.saved (caller_of s) =
        rw caller-current (k.saved n apart used) in
      let (v', back, resumed) =
        halt-Resumed fuel esp ebp s command eip t entered (omega (arith, pid, slot-range))
          (omega (arith, pid, slot-range)) (λ e. apart (sym caller-current ∙ e ∙ pid)) few u
          k.directory k.count (k.tasks t.new_pid) kept f sp bp status in
      let same : v' ≡ v = ap (resumed_state s) (sym back ∙ halts) in
      let left : leave_process u slot ≡ v = ap (resumed_state s) (
        sym (
          halt-program f sp bp u status slot
            (ap find_pid (k.directory ∙ called-IsRunning.directory) ∙ (unfold find_pid in refl))
            slot-range.0)
        ∙ halts) in
      let resumed_v : Resumed s u t.new_pid v = subst (λ x. Resumed s u t.new_pid x) same resumed in
      record {
        directory = resumed_v.directory;
        count = resumed_v.count;
        tasks = λ i. slot_back u v i pid resumed_v k;
        saved = λ p ne present.
            let elsewhere : p ≢ slot = (λ e. present (ap s.tasks e ∙ slot-free)) in
            ap (λ x. x.kernel.saved p) (sym left)
            ∙ ap (λ (g : ℕ → Pcb). g p) (leave_process-saved u slot)
            ∙ k.saved p elsewhere (ground (arith, started.tasks p, elsewhere, present))
            ∙ started.others p elsewhere ne;
      }

Steady-Kept : (s t : System) (n : ℕ) → IsRunning s n → Steady s t → Kept s t n
Steady-Kept s t n r h = record {
  directory = h.directory;
  count = h.count;
  tasks = h.tasks;
  saved =
      λ p ne used. h.saved p (λ e. ne (e ∙ ap find_pid r.directory ∙ (unfold find_pid in refl)));
}

-- A process of the table runs, with a count of programs that is not 0, the first shell being there.
-- Whatever programs it calls, and these call, if each of them runs to its halt and none is the
-- shell, if none changes the directory, the count, the table of processes or the kept control blocks
-- of others but by these calls, and with less than 2 ^ 32 - 1 programs at a time, then the process
-- is current again, the count and the table are as they were, and so are the kept control blocks of
-- all other processes in the table.
pub Run-Kept : (s w : System) (n : ℕ) → IsRunning s n → Run s w → Kept s w n
Run-Kept _ _ n r (ends s) = record {
  directory = refl;
  count = refl;
  tasks = λ i. refl;
  saved = λ p ne used. refl;
}
Run-Kept _ _ n r (works s t w steady rest) =
    let h = Steady-Kept s t n r steady in
    Kept-trans s t w n h (Run-Kept t w n (IsRunning-Kept s t n r h) rest)
Run-Kept _ _ n r
      (calls s t u v w fuel esp ebp eip f sp bp status a b c command other few entered program halts
        rest) =
    let inner =
      Run-Kept t u (slot s t n r fuel esp ebp eip command other few entered)
        (called-IsRunning s t n r fuel esp ebp eip command other few entered) program in
    let h =
      returned-Kept s t n r fuel esp ebp eip command other few entered u v f sp bp status a b c
        inner halts in
    Kept-trans s v w n h (Run-Kept v w n (IsRunning-Kept s v n r h) rest)
