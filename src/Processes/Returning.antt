-- ===== src/Processes/Returning.antt =====
-- From execute to halt, and back to the caller.
use mp.Base.{
  ℕ, ◌+◌, ◌^◌, ◌≤◌, ◌<◌, ◌≡◌, ◌≢◌, refl, sym, subst, ap, ◌∙◌, some, arith, add32, sub32, mul32,
}
use mp.Kernel.{Pcb}
use mp.SystemCalls.{find_pid}
use mp.Processes.{System, enters, resumes, execute, close_all, leave_process, halt, choose_pid}
use mp.Processes.Switching.{Started, CanStart, caller_of, marked, execute-CanStart}

abbrev pub kernel_stack : ℕ → ℕ
kernel_stack pid = sub32 (sub32 0x0080_0000 (mul32 0x2000 (sub32 pid 1))) 4

-- The caller `s` of a program goes on, after the program was in state `u`.
pub record Resumed (s u : System) (n : ℕ) (v : System) : Type 0 where
  pub directory : v.kernel.cr3 ≡ s.kernel.cr3
  pub stack : v.tss_esp0 ≡ kernel_stack (find_pid s.kernel.cr3)
  pub count : v.pc ≡ s.pc
  pub free : v.tasks n ≡ 0
  pub others : (i : ℕ) → i ≢ n → v.tasks i ≡ u.tasks i
  pub block : v.kernel.pcblock ≡ (close_all 6 2 u.kernel).pcblock

pub halt-program :
    (f sp bp : ℕ) (u : System) (status n : ℕ)
    → find_pid u.kernel.cr3 ≡ n
    → 4 ≤ n
    → halt f sp bp u status
      ≡ resumes 0
          (u.kernel.saved (u.tasks n)).esp
          (u.kernel.saved (u.tasks n)).ebp
          (leave_process u n)
unfolding halt
halt-program f sp bp u status n here program =
    subst
      (λ (k : ℕ).
        halt f sp bp u status
        ≡ resumes 0 (u.kernel.saved (u.tasks k)).esp (u.kernel.saved (u.tasks k)).ebp
            (leave_process u k))
      here (ground (arith, here))

slot_freed : (u : System) (n i : ℕ) → i ≡ n → (leave_process u n).tasks i ≡ 0
unfolding leave_process
slot_freed u n i e = ground arith

slot_kept : (u : System) (n i : ℕ) → i ≢ n → (leave_process u n).tasks i ≡ u.tasks i
unfolding leave_process
slot_kept u n i ne = ground arith

one_less : (k : ℕ) → k + 1 < 2 ^ 32 → sub32 (add32 k 1) 1 ≡ k
one_less k h = omega arith

module _ (fuel esp ebp : ℕ) (s : System) (command : ℕ → ℕ) (eip : ℕ) (t : System)
    (entered : execute fuel esp ebp s (some command) ≡ some (enters eip t))
    (program : 4 ≤ t.new_pid) (in_table : t.new_pid ≤ 6) (apart : caller_of s ≢ t.new_pid)
    (few : s.pc + 1 < 2 ^ 32) where
  abbrev chosen : ℕ
  chosen = (choose_pid (marked s) command).new_pid

  started : Started s esp ebp chosen (caller_of s) eip t
  started =
      subst (CanStart s esp ebp chosen (caller_of s)) entered
        (execute-CanStart fuel esp ebp s command)

  -- halt of a program that execute entered in one of the slots 4 to 6, in any later state in which
  -- CR3, the count of programs, the program's slot and its caller's copy are as execute left them,
  -- and with less than 2 ^ 32 - 1 programs and the caller in another slot: the caller's execute
  -- returns 0 with the registers that it saved, in the caller's directory and with its kernel stack;
  -- the slot is free, the count as it was, the other slots as they are. The control block is still
  -- the program's, with its files closed.
  pub halt-Resumed :
      (u : System)
      → u.kernel.cr3 ≡ t.kernel.cr3
      → u.pc ≡ t.pc
      → u.tasks t.new_pid ≡ t.tasks t.new_pid
      → u.kernel.saved (caller_of s) ≡ t.kernel.saved (caller_of s)
      → (f sp bp status : ℕ)
      → (v : System) × (halt f sp bp u status ≡ resumes 0 esp ebp v) × Resumed s u t.new_pid v
  unfolding leave_process find_pid
  halt-Resumed u dir count slot kept f sp bp status =
      let n = t.new_pid in
      let here : find_pid u.kernel.cr3 ≡ n =
        ap find_pid
          (dir ∙ started.directory (omega (arith, started.slot)) (omega (arith, started.slot)))
        ∙ sym started.slot in
      let caller : u.tasks n ≡ caller_of s =
        slot ∙ started.tasks n ∙ ground (arith, started.slot) in
      let copy : u.kernel.saved (u.tasks n)
          ≡ record s.kernel.pcblock { cr3 = s.kernel.cr3; esp = esp; ebp = ebp } =
        ap u.kernel.saved caller
        ∙ kept
        ∙ started.caller (λ e. omega (arith, e, started.slot))
            (λ e. apart (e ∙ sym started.slot)) in
      (
        leave_process u n,
        halt-program f sp bp u status n here program
            ∙ ap (λ (p : Pcb). resumes 0 p.esp p.ebp (leave_process u n)) copy,
        record {
          directory = ap (λ (p : Pcb). p.cr3) copy;
          stack = ap (λ (p : Pcb). kernel_stack (find_pid p.cr3)) copy;
          count =
              ap (λ (k : ℕ). sub32 k 1)
                (count ∙ started.count (omega (arith, started.slot)) (omega (arith, started.slot)))
              ∙ one_less s.pc few;
          free = slot_freed u n n refl;
          others = λ i ne. slot_kept u n i ne;
          block = refl;
        },
      )
