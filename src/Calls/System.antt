-- ===== src/Calls/System.antt =====
-- The kernel as the system that the programs of src/syscalls call. A program's memory is the
-- kernel's, at the addresses that the kernel uses.
use mp.Base.{ℕ, Option, none, some}
use mp.Kernel.{Kernel}
use mp.Programs.{Os}
use mp.Machine.{Machine, put_kernel}
use mp.SystemCalls.{open_file, close_file}
use mp.Files.{getargs}
use mp.Calls.{Answer, returns, waits, faults, read, write}

-- A call that returns; `stale` is what the program finds where the source never sets the value.
unfoldable pub returned : ℕ → Answer → Option (ℕ × Machine)
returned stale (returns (some v) m) = some (v, m)
returned stale (returns none m) = some (stale, m)
returned stale waits = none
returned stale faults = none

abbrev with_answer : Machine → ℕ × Kernel → ℕ × Machine
with_answer m (v, k) = (v, put_kernel m k)

unfoldable pub open_of : Machine → Option (ℕ × Kernel) → Option (ℕ × Machine)
open_of m none = none
open_of m (some a) = some (with_answer m a)

-- `fuel` is that of dirread, `rounds` how often the clock ticks at most in a read, `prev_b`,
-- `prev_a` what the clock's registers deliver, `stale` what a value is that is never set, and `runs` is what another program does until its
-- execute returns.
abbrev pub kernel_os : ℕ → ℕ → ℕ → ℕ → ℕ → (Machine → ℕ → Option (ℕ × Machine)) → Os Machine
kernel_os stale fuel rounds prev_b prev_a runs = record {
  mem = λ m. m.system.kernel.mem;
  set_mem = λ m mem. put_kernel m (record m.system.kernel { mem = mem });
  getargs = λ m buf nbytes.
      let k = m.system.kernel in
      let (v, mem) = getargs k.mem k.pcblock k.behind buf nbytes in
      some (v, put_kernel m (record k { mem = mem }));
  open_file = λ m name. open_of m (open_file prev_b prev_a m.system.kernel name);
  close_file = λ m fd. some (with_answer m (close_file m.system.kernel fd));
  read = λ m fd buf nbytes. returned stale (read fuel rounds m fd buf nbytes);
  write = λ m fd buf nbytes. returned stale (write prev_a m fd buf nbytes);
  execute = runs;
}
