-- ===== src/Files.antt =====
-- The reads and writes of student-distrib/filesystem.c, and the system calls getargs, vidmap,
-- set_handler and sigreturn of systemcalls.c.
pub mod Listing
pub mod Arguments
mod Tests
use mp.Base.{
  ℕ, zero, suc, ◌+◌, ◌-◌, ◌*◌, Bool, true, false, ◌||◌, Option, none, some, ltb, leb, ◌==◌,
  if◌then◌else◌, get_or, minus_one, is_neg, add32,
}
use mp.Memory.{Mem, store, memcpy}
use mp.Memory.Text.{at, strlen}
use mp.Kernel.{Kernel, Pcb, file_of, dentry_of, with_file}
use mp.FileSystem.{entry, read_data, DataRead}

-- The place of `fd` in its file or directory.
abbrev pub with_fpos : Kernel → ℕ → ℕ → Kernel
with_fpos k fd pos = record k {
  pcblock = with_file k.pcblock fd (record (file_of k.pcblock fd) { fpos = pos });
}

-- The while loop of dirread: the next entry from `fpos` on that is not of type 0, and the new
-- `fpos`. The loop does not look at the number of entries.
unfoldable pub next_entry : ℕ → Mem → Kernel → ℕ → Option (ℕ × ℕ)
next_entry zero m k fpos = none
next_entry (suc fuel) m k fpos = elim (m (entry k.filesystem fpos + 32) == 0) [
  | true ↦ next_entry fuel m k (add32 fpos 1)
  | false ↦ some (entry k.filesystem fpos, add32 fpos 1)
]

-- dirread behind its loop; the second strlen sees what memcpy stored.
unfoldable pub copy_name : ℕ → Kernel → ℕ → ℕ → ℕ × ℕ → Option (ℕ × Kernel)
copy_name fuel k fd buf (currptr, fpos) = elim (strlen fuel (at k.mem currptr)) [
  | none ↦ none
  | some n ↦
      let m = memcpy k.mem buf currptr n in
      elim (strlen fuel (at m currptr)) [
        | none ↦ none
        | some len ↦ some (len, record (with_fpos k fd fpos) { mem = m })
      ]
]

-- dirread; `none` means that a loop ran out of fuel.
unfoldable pub dirread : ℕ → Kernel → ℕ → ℕ → Option (ℕ × Kernel)
dirread fuel k fd buf =
    let fpos = (file_of k.pcblock fd).fpos in
    if leb k.filesystem.num_dir_entries fpos
    then some (0, k)
    else elim (next_entry fuel k.mem k fpos) [
      | none ↦ none
      | some found ↦ copy_name fuel k fd buf found
    ]

-- What read_data returns, with its memory and the position of `fd_val`.
unfoldable pub finish_read : Kernel → DataRead → ℕ × Kernel
finish_read k r =
    let k1 = record k { mem = r.mem } in
    (r.rval, elim r.fpos [ none ↦ k1 | some pos ↦ with_fpos k1 k.fd_val pos ])

unfoldable pub filesystem_read : ℕ → Kernel → ℕ → ℕ → ℕ → Option (ℕ × Kernel)
filesystem_read fuel k fd buf nbytes =
    let k1 = record k { fd_val = fd } in
    let inode = (dentry_of k.pcblock fd).inode_number in
    if (dentry_of k.pcblock fd).file_type == 1
    then dirread fuel k1 fd buf
    else elim (read_data k.filesystem k.mem inode (file_of k.pcblock fd).fpos buf nbytes) [
      | none ↦ none
      | some r ↦ some (finish_read k1 r)
    ]

unfoldable pub filesystem_write : ℕ → ℕ → ℕ → ℕ
filesystem_write fd buf nbytes = minus_one

unfoldable pub diropen : ℕ → ℕ
diropen filename = 0

unfoldable pub dirwrite : ℕ
dirwrite = minus_one

-- The loop of getargs: 1024 zeros, whatever `nbytes` is.
pub clear_args : ℕ → Mem → ℕ → Mem
clear_args zero m buf = m
clear_args (suc left) m buf = clear_args left (store m buf 0) (buf + 1)

-- `memcpy(buf, pcblock.arg_name, n)`, from the control block.
pub copy_arg : ℕ → Mem → (ℕ → ℕ) → ℕ → Mem
copy_arg zero m arg buf = m
copy_arg (suc left) m arg buf = copy_arg left (store m buf (arg 0)) (λ i. arg (i + 1)) (buf + 1)

-- Byte `i` from `arg_name` on: behind its 40 bytes stands `data_arg_size`, and then what follows the
-- control block, `behind`.
abbrev pub arg_byte : Pcb → (ℕ → ℕ) → ℕ → ℕ
arg_byte p behind i =
    if ltb i 40 then get_or p.arg_name i 0 else if i == 40 then p.data_arg_size else behind (i - 41)

unfoldable pub getargs : Mem → Pcb → (ℕ → ℕ) → ℕ → ℕ → ℕ × Mem
getargs m p behind buf nbytes =
    let size = if ltb p.data_arg_size nbytes then p.data_arg_size else nbytes in
    if buf == 0 || is_neg nbytes
    then (minus_one, m)
    else (0, copy_arg size (clear_args 1024 m buf) (arg_byte p behind) buf)

-- vidmap, with the value that it stores at `*screen_start`.
unfoldable pub vidmap : ℕ → ℕ × Option ℕ
vidmap screen_start =
    if screen_start == 0 || screen_start == 0x0040_0000
    then (minus_one, none)
    else (0, some 0x000b_8000)

unfoldable pub set_handler : ℕ → ℕ → ℕ
set_handler signum handler = 0

unfoldable pub sigreturn : ℕ
sigreturn = 0
