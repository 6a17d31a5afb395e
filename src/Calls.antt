-- ===== src/Calls.antt =====
-- student-distrib/systemcalls.c: read and write, which call the driver of a descriptor through its
-- jump table; rtc_fops, terminal_fops and filesystem_fops.
pub mod Dispatch
pub mod Reading
pub mod OpenRead
pub mod System
pub mod Serving
pub mod Printing
pub mod Copying
pub mod Directory
pub mod Faults
mod Tests
use mp.Base.{ℕ, ◌++◌, Bool, ◌||◌, Option, none, some, ◌==◌, if◌then◌else◌, is_neg, slt, minus_one}
use mp.Memory.{load32}
use mp.Kernel.{Kernel, Fops, no_fops, rtc_fops, terminal_fops, filesystem_fops, file_of}
use mp.Terminal.{Terminal}
use mp.Console.{terminal_read, terminal_write}
use mp.Rtc.{rtc_interrupt, rtc_read, rtc_write}
use mp.Files.{filesystem_read}
use mp.Machine.{Machine, terminal_of, with_terminal, put_kernel}

-- How a call ends. It returns, with `none` for a value that the source never sets; it still waits,
-- or its fuel ran out; or it calls through a null pointer.
pub data Answer : Type 0 where
  returns : Option ℕ → Machine → Answer
  waits : Answer
  faults : Answer

-- The test with which read and write begin.
unfoldable pub is_bad : Machine → ℕ → ℕ → ℕ → Bool
is_bad m fd buf nbytes =
    buf == 0
    || is_neg fd
    || slt 7 fd
    || (file_of m.system.kernel.pcblock fd).flags == 0
    || is_neg nbytes

unfoldable pub answer_kernel : Machine → Option (ℕ × Kernel) → Answer
answer_kernel m none = waits
answer_kernel m (some (v, k)) = returns (some v) (put_kernel m k)

unfoldable pub answer_terminal : Machine → Option (Terminal × Option ℕ) → Answer
answer_terminal m none = waits
answer_terminal m (some (t, v)) = returns v (with_terminal m t)

-- `fops_read`; `rounds` is how often the clock's handler can run while rtc_read waits, which goes
-- on after the first.
unfoldable pub fops_read : ℕ → ℕ → Fops → Machine → ℕ → ℕ → ℕ → Answer
fops_read fuel rounds no_fops m fd buf nbytes = faults
fops_read fuel rounds rtc_fops m fd buf nbytes = elim (rtc_read rounds m.intr_flag) [
  | none ↦ waits
  | some v ↦
      let k = m.system.kernel in
      returns (some v)
        (record (put_kernel m (record k { io = k.io ++ (rtc_interrupt 0).1 })) { intr_flag = 1 })
]
fops_read fuel rounds terminal_fops m fd buf nbytes =
    answer_terminal m (terminal_read (terminal_of m) fd buf nbytes)
fops_read fuel rounds filesystem_fops m fd buf nbytes =
    answer_kernel m (filesystem_read fuel m.system.kernel fd buf nbytes)

unfoldable pub read : ℕ → ℕ → Machine → ℕ → ℕ → ℕ → Answer
read fuel rounds m fd buf nbytes =
    if is_bad m fd buf nbytes
    then returns (some minus_one) m
    else fops_read fuel rounds (file_of m.system.kernel.pcblock fd).fops_ptr m fd buf nbytes

-- `fops_write`; the file system's table holds terminal_write. `prev_val` is what the clock's
-- register A delivers.
unfoldable pub fops_write : ℕ → Fops → Machine → ℕ → ℕ → ℕ → Answer
fops_write prev_val no_fops m fd buf nbytes = faults
fops_write prev_val rtc_fops m fd buf nbytes =
    let k = m.system.kernel in
    elim (rtc_write (some (load32 k.mem buf)) nbytes prev_val) [
      | none ↦ waits
      | some (v, ios) ↦ returns (some v) (put_kernel m (record k { io = k.io ++ ios }))
    ]
fops_write prev_val terminal_fops m fd buf nbytes =
    answer_terminal m (some (terminal_write (terminal_of m) fd buf nbytes))
fops_write prev_val filesystem_fops m fd buf nbytes =
    answer_terminal m (some (terminal_write (terminal_of m) fd buf nbytes))

unfoldable pub write : ℕ → Machine → ℕ → ℕ → ℕ → Answer
write prev_val m fd buf nbytes =
    if is_bad m fd buf nbytes
    then returns (some minus_one) m
    else fops_write prev_val (file_of m.system.kernel.pcblock fd).fops_ptr m fd buf nbytes
