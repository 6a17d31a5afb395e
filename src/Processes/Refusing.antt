-- ===== src/Processes/Refusing.antt =====
-- execute of a command that the file system does not hold.
use mp.Base.{
  ℕ, ◌<◌, ◌≡◌, ◌≢◌, refl, sym, subst, ap, ◌∙◌, some, ◌==◌, if◌then◌else◌, arith, minus_one, get_or,
  u8,
}
use mp.Memory.{Mem}
use mp.Memory.Text.{EndsAt, IsBytes}
use mp.Memory.Text.Laws.{strlen-EndsAt}
use mp.Kernel.{FileSystem}
use mp.FileSystem.{bytes_at, max_file}
use mp.FileSystem.Lookup.{HasName, read_dentry_by_name-missing}
use mp.Commands.{parse_line, parse_cmd}
use mp.Processes.{
  System, returns, with_names, loader, choose_pid, take_slot, run_loaded, run_names, run_command,
  execute, names_of,
}
use mp.Processes.Switching.{caller_of, marked, Taken, take_slot-Taken, Chosen, choose_pid-Chosen}

-- The name of the program on the line `command` of `len` characters, where the control block held
-- `fields` before.
abbrev pub program_of : ℕ → (ℕ → ℕ) → (ℕ → ℕ) → ℕ → ℕ
program_of len command fields i = get_or (bytes_at 40 (parse_line (u8 len) command fields) 0) i 0

abbrev pub IsUnknown : Mem → FileSystem → (ℕ → ℕ) → Type 0
IsUnknown m fs name = (j : ℕ) → j < max_file → ¬ HasName m fs name j

loader-IsUnknown :
    (s : System) (name : ℕ → ℕ)
    → IsBytes s.kernel.mem
    → IsBytes name
    → IsUnknown s.kernel.mem s.kernel.filesystem name
    → loader s name ≡ some (minus_one, s)
unfolding loader
loader-IsUnknown s name bytes chars unknown =
    rw
      (read_dentry_by_name-missing s.kernel.mem s.kernel.filesystem name bytes chars s.dentry1
        unknown)
      refl

module _ (fuel esp ebp : ℕ) (s : System) (command : ℕ → ℕ) (len : ℕ) (ends : EndsAt command len)
    (enough : len < fuel) (bytes : IsBytes s.kernel.mem)
    (chars : (fields : ℕ → ℕ) → IsBytes (program_of len command fields))
    (unknown : (fields : ℕ → ℕ)
      → IsUnknown s.kernel.mem s.kernel.filesystem (program_of len command fields))
    (free : (choose_pid (marked s) command).new_pid ≢ 7) where
  abbrev c : System
  c = choose_pid (marked s) command

  abbrev u : System
  u = take_slot esp ebp c (caller_of s)

  here : Chosen s c
  here = choose_pid-Chosen s command

  taken : Taken c esp ebp (caller_of s) u
  taken = take_slot-Taken c esp ebp (caller_of s)

  abbrev names : ℕ → ℕ
  names = parse_line (u8 len) command (names_of u.kernel)

  abbrev v : System
  v = with_names u names

  mem : v.kernel.mem ≡ s.kernel.mem
  mem = taken.mem ∙ here.mem

  files : v.kernel.filesystem ≡ s.kernel.filesystem
  files = taken.files ∙ here.files

  refused : run_names (caller_of s) u names ≡ some (returns minus_one v)
  unfolding run_names run_loaded
  refused =
      let name = program_of len command (names_of u.kernel) in
      rw
        (loader-IsUnknown v name (subst IsBytes (sym mem) bytes) (chars (names_of u.kernel)) (
          subst (λ (m : Mem). IsUnknown m v.kernel.filesystem name) (sym mem)
            (subst (λ (f : FileSystem). IsUnknown s.kernel.mem f name) (sym files)
              (unknown (names_of u.kernel)))))
        refl

  parsed : parse_cmd fuel command (names_of u.kernel) ≡ some names
  unfolding parse_cmd parse_line
  parsed = rw (parse_cmd, strlen-EndsAt fuel command len ends enough) refl

  runs : run_command fuel u command (caller_of s) ≡ some (returns minus_one v)
  unfolding run_command take_slot parse_line
  runs = rw (run_command, parsed, refused) refl

  -- With a slot free, on a line whose program no entry of the directory has, whatever the control
  -- block held before, on memory and names of bytes and with fuel above the line's length: execute
  -- returns -1 but keeps the slot, which stays marked as a program of the caller.
  pub execute-IsUnknown :
      (t : System) × (execute fuel esp ebp s (some command) ≡ some (returns minus_one t))
      × ((i : ℕ) → t.tasks i ≡ (if i == c.new_pid then caller_of s else s.tasks i))
  unfolding execute
  execute-IsUnknown = (
    v,
    ground (arith, free, runs),
    λ i.
        ap (λ (f : ℕ → ℕ). f i) taken.tasks
        ∙ ap (λ (f : ℕ → ℕ). if i == c.new_pid then caller_of s else f i) here.tasks,
  )
