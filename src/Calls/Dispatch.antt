-- ===== src/Calls/Dispatch.antt =====
-- The jump tables of student-distrib/systemcalls.c seen from the outside: what write does on each
-- kind of descriptor.
use mp.Base.{ℕ, false, ◌≡◌, ◌≢◌, refl, ◌⊎◌, inl, inr, arith, ◌<◌, ◌^◌}
use mp.Kernel.{terminal_fops, filesystem_fops, file_of}
use mp.Console.{terminal_write}
use mp.Machine.{Machine, terminal_of, with_terminal}
use mp.Calls.{returns, is_bad, write, fops_write, answer_terminal}

-- An open descriptor below 8, a buffer and a count that is not negative pass the test.
pub is_bad-open :
    (m : Machine) (fd buf nbytes : ℕ)
    → buf ≢ 0
    → fd < 8
    → (file_of m.system.kernel.pcblock fd).flags ≢ 0
    → nbytes < 2 ^ 31
    → is_bad m fd buf nbytes ≡ false
unfolding is_bad
is_bad-open m fd buf nbytes pointer range opened count = ground arith

-- write to an open file of the file system does exactly what write to a terminal descriptor does: it
-- runs terminal_write, whose answer it returns, with what that changed on the screen.
pub write-filesystem :
    (prev_val : ℕ) (m : Machine) (fd buf nbytes : ℕ)
    → buf ≢ 0
    → fd < 8
    → (file_of m.system.kernel.pcblock fd).flags ≢ 0
    → ((file_of m.system.kernel.pcblock fd).fops_ptr ≡ filesystem_fops)
      ⊎ ((file_of m.system.kernel.pcblock fd).fops_ptr ≡ terminal_fops)
    → nbytes < 2 ^ 31
    → let done = terminal_write (terminal_of m) fd buf nbytes in
      write prev_val m fd buf nbytes ≡ returns done.1 (with_terminal m done.0)
unfolding write
write-filesystem prev_val m fd buf nbytes pointer range opened (inl table) count =
    rw (is_bad-open m fd buf nbytes pointer range opened count, table)
      (unfold fops_write answer_terminal in refl)
write-filesystem prev_val m fd buf nbytes pointer range opened (inr table) count =
    rw (is_bad-open m fd buf nbytes pointer range opened count, table)
      (unfold fops_write answer_terminal in refl)
