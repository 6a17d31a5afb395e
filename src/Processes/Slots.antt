-- ===== src/Processes/Slots.antt =====
-- The slot of the task table that a command gets.
use mp.Base.{
  ℕ, ◌≤◌, ◌<◌, ◌≡◌, ◌≢◌, ◌⊎◌, inl, inr, sym, subst, ap, ◌∙◌, false, ◌==◌, if◌then◌else◌, arith,
  ℕ_discrete,
}
use mp.Processes.{System, first_free, choose_pid, is_shell}

-- The slots of the programs that are not a terminal's second or third shell.
abbrev pub IsSlot : ℕ → Type 0
IsSlot i = (i ≡ 1) ⊎ ((4 ≤ i) × (i ≤ 6))

-- The lowest slot that is free, or 7 if all are taken.
pub record LowestFree (tasks : ℕ → ℕ) (n : ℕ) : Type 0 where
  pub free : (n ≡ 7) ⊎ (IsSlot n × (tasks n ≡ 0))
  pub lower : (i : ℕ) → IsSlot i → i < n → tasks i ≢ 0

first_free_lem :
    (tasks : ℕ → ℕ)
    → first_free 6 1 tasks ≡ (
        if tasks 1 == 0
        then 1
        else if tasks 4 == 0
        then 4
        else if tasks 5 == 0
        then 5
        else if tasks 6 == 0
        then 6
        else 7)
unfolding first_free
first_free_lem tasks = ground arith

slots_taken :
    (tasks : ℕ → ℕ) (n : ℕ)
    → (1 < n → tasks 1 ≢ 0)
    → (4 < n → tasks 4 ≢ 0)
    → (5 < n → tasks 5 ≢ 0)
    → (6 < n → tasks 6 ≢ 0)
    → (i : ℕ) → IsSlot i
    → i < n
    → tasks i ≢ 0
slots_taken tasks n h1 h4 h5 h6 i slot lt = elim slot [
  | inl e ↦ λ z. h1 (omega arith) (ap tasks (sym e) ∙ z)
  | inr between ↦ elim (ℕ_discrete i 4) [
    | yes e ↦ λ z. h4 (omega arith) (ap tasks (sym e) ∙ z)
    | no n4 ↦ elim (ℕ_discrete i 5) [
      | yes e ↦ λ z. h5 (omega arith) (ap tasks (sym e) ∙ z)
      | no n5 ↦ λ z. h6 (omega arith) (ap tasks (omega arith) ∙ z)
    ]
  ]
]

pub first_free-LowestFree : (tasks : ℕ → ℕ) → LowestFree tasks (first_free 6 1 tasks)
first_free-LowestFree tasks = record {
  free = ground (arith, first_free_lem tasks);
  lower =
      slots_taken tasks (first_free 6 1 tasks) (λ h. ground (arith, first_free_lem tasks))
        (λ h. ground (arith, first_free_lem tasks)) (λ h. ground (arith, first_free_lem tasks))
        (λ h. ground (arith, first_free_lem tasks));
}

-- A command that is not the shell gets, while a program runs, the lowest of the slots 1, 4, 5 and 6
-- that is free, and 7, which is no slot, if all four are taken.
pub choose_pid-LowestFree :
    (s : System) (command : ℕ → ℕ)
    → s.pc ≢ 0
    → is_shell command ≡ false
    → LowestFree s.tasks (choose_pid s command).new_pid
unfolding choose_pid
choose_pid-LowestFree s command running other =
    subst (LowestFree s.tasks) (ground (arith, other)) (first_free-LowestFree s.tasks)
