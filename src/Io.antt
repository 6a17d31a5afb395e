-- ===== src/Io.antt =====
-- What a driver does to the machine besides its variables: port reads and writes in order, and the
-- interrupt flag. A value that `inb` delivers is an argument of the operation that reads it.
use mp.Base.{ℕ}

pub data Io : Type 0 where
  -- `outb(data, port)`
  outb : ℕ → ℕ → Io
  -- `inb(port)`
  inb : ℕ → Io
  cli sti : Io
