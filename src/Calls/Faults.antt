-- ===== src/Calls/Faults.antt =====
-- What close of one file does to a later read or write of another: student-distrib/systemcalls.c.
use mp.Base.{ℕ, ◌≤◌, ◌<◌, ◌^◌, ◌≡◌, ◌≢◌, refl, arith}
use mp.Kernel.{no_fops, file_of}
use mp.SystemCalls.{close_file}
use mp.SystemCalls.Opening.{IsTable}
use mp.SystemCalls.Closing.{close_file-table}
use mp.Machine.{Machine, put_kernel}
use mp.Calls.{faults, read, write, fops_read, fops_write}
use mp.Calls.Dispatch.{is_bad-open}

module _ (m : Machine) (fd : ℕ) (t : IsTable m.system.kernel.pcblock) (file : 2 ≤ fd)
    (range : fd < 8) (flag : (file_of m.system.kernel.pcblock fd).flags ≡ 1)
    (index : m.system.kernel.fd_index < 8) (other : m.system.kernel.fd_index ≢ fd)
    (opened : (file_of m.system.kernel.pcblock m.system.kernel.fd_index).flags ≢ 0) where
  abbrev last : ℕ
  last = m.system.kernel.fd_index

  abbrev closed : Machine
  closed = put_kernel m (close_file m.system.kernel fd).1

  closed-opened : (file_of closed.system.kernel.pcblock last).flags ≢ 0
  closed-opened =
      ground (arith, (close_file-table m.system.kernel fd t file range flag index).1 last)

  closed-table : (file_of closed.system.kernel.pcblock last).fops_ptr ≡ no_fops
  closed-table =
      ground (arith, (close_file-table m.system.kernel fd t file range flag index).1 last)

  -- With eight files and eight entries in the table, after close of an open descriptor from 2 to 7
  -- that is not the one last opened, which is in the table and open: read and write of the one last
  -- opened, with a buffer and a count that is not negative, call through a null pointer.
  pub close-faults :
      (fuel rounds prev_val buf nbytes : ℕ)
      → buf ≢ 0
      → nbytes < 2 ^ 31
      → (read fuel rounds closed last buf nbytes ≡ faults)
        × (write prev_val closed last buf nbytes ≡ faults)
  unfolding read write fops_read fops_write
  close-faults fuel rounds prev_val buf nbytes pointer count =
      let good = is_bad-open closed last buf nbytes pointer index closed-opened count in
      (rw (good, closed-table) refl, rw (good, closed-table) refl)
