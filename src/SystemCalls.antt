-- ===== src/SystemCalls.antt =====
-- student-distrib/systemcalls.c and the open and close operations of filesystem.c: the table of
-- file descriptors in the process control block.
pub mod Opening
pub mod Closing
mod Tests
use mp.Base.{
  ℕ, zero, suc, ◌+◌, ◌*◌, ◌^◌, Bool, true, false, not, ◌&&◌, ◌||◌, Option, none, some, List, [],
  ◌∷◌, ◌++◌, ltb, leb, ◌==◌, if◌then◌else◌, get_or, set, minus_one, slt, add32,
}
use mp.Memory.{Mem}
use mp.Memory.Text.{at, strncmp}
use mp.Io.{Io}
use mp.Pic.{Pic}
use mp.Rtc.{rtc_open, rtc_close}
use mp.Kernel.{
  Kernel, Pcb, Dentry, FileStruct, PageDirectory, kernel_directory, task_directory, Fops, no_fops,
  rtc_fops, filesystem_fops, file_of, dentry_of, with_file, with_dentry, zeros, zero_dentry,
}
use mp.FileSystem.{read_dentry_by_name}

-- find_pid
unfoldable pub find_pid : PageDirectory → ℕ
find_pid kernel_directory = 0
find_pid (task_directory n) = n

-- `strncmp(filename, "", 1) != 0`
unfoldable pub has_name : (ℕ → ℕ) → Bool
has_name filename = not (strncmp filename (λ i. 0) 1 == 0)

-- `read_dentry_by_name(filename, &pcblock.dentry[fd])`
unfoldable pub load_entry : Kernel → (ℕ → ℕ) → ℕ → ℕ × Kernel
load_entry k filename fd =
    let (status, d) = read_dentry_by_name k.mem k.filesystem filename (dentry_of k.pcblock fd) in
    (status, record k { pcblock = with_dentry k.pcblock fd d })

-- filesystem_open: the entry goes to `fd_val`.
unfoldable pub filesystem_open : Kernel → (ℕ → ℕ) → ℕ × Kernel
filesystem_open k filename =
    if has_name filename then load_entry k filename k.fd_val else (minus_one, k)

unfoldable pub dirclose : ℕ → ℕ
dirclose fd = 0

abbrev pub set_flags : Pcb → ℕ → ℕ → Pcb
set_flags p fd v = with_file p fd (record (file_of p fd) { flags = v })

-- filesystem_close
unfoldable pub filesystem_close : Kernel → ℕ → ℕ × Kernel
filesystem_close k fd =
    let k' = record k { fd_val = fd } in
    if (dentry_of k.pcblock fd).file_type == 1
    then (dirclose fd, k')
    else if fd == 0 || fd == 1
    then (minus_one, k')
    else (0, record k' { pcblock = set_flags k.pcblock fd 0 })

-- `file_struct[i].flags`; the array has 8 elements, and behind it stands `dentry[0]`, so that
-- index 8 reads bytes 12 to 15 of its name.
unfoldable pub flags_at : Pcb → ℕ → ℕ
flags_at p i =
    let name = (dentry_of p 0).file_name in
    if ltb i 8
    then (file_of p i).flags
    else get_or name 12 0
      + get_or name 13 0 * 2 ^ 8
      + get_or name 14 0 * 2 ^ 16
      + get_or name 15 0 * 2 ^ 24

-- The loop of open: the first index from `i` on with `flags` 0, or the one behind the last tried.
unfoldable pub find_free : ℕ → ℕ → Pcb → ℕ
find_free zero i p = i
find_free (suc left) i p = elim (flags_at p i == 0) [ true ↦ i | false ↦ find_free left (i + 1) p ]

-- `memcpy(pcb_ptr, &pcblock, PCB_SIZE)`
abbrev pub save_pcb : Kernel → Kernel
save_pcb k = record k { saved = λ pid. if pid == find_pid k.cr3 then k.pcblock else k.saved pid }

-- The last part of open, for a file that was found; `prev_b` and `prev_a` are what the clock's
-- registers deliver.
unfoldable pub open_found : ℕ → ℕ → Kernel → ℕ → ℕ × Kernel
open_found prev_b prev_a k fd =
    if (dentry_of k.pcblock fd).file_type == 0
    then (let (status, pic, io) = rtc_open k.pic prev_b prev_a in
        let f = file_of k.pcblock fd in
        (
          fd,
          save_pcb (record k {
            fd_rtc = fd;
            pic = pic;
            io = k.io ++ io;
            pcblock = with_file k.pcblock fd (record f { flags = 1; fops_ptr = rtc_fops });
          }),
        ))
    else (let f = file_of k.pcblock fd in
        (
          fd,
          save_pcb (record k {
            pcblock = with_file k.pcblock fd (record f { fpos = 0; fops_ptr = filesystem_fops });
          }),
        ))

-- open from the point where it has a free index.
unfoldable pub open_at : ℕ → ℕ → Kernel → (ℕ → ℕ) → ℕ → ℕ × Kernel
open_at prev_b prev_a k filename fd =
    let k1 = record k { fd_index = fd; pcblock = set_flags k.pcblock fd 1 } in
    let k2 = if has_name filename then (load_entry k1 filename fd).1 else k1 in
    let (status, k3) = filesystem_open k2 filename in
    if status == minus_one
    then (minus_one, save_pcb (record k3 { pcblock = set_flags k3.pcblock fd 0 }))
    else open_found prev_b prev_a k3 fd

-- open; `filename` is an address, 0 for the null pointer. `none` means that the loop ran past index
-- 8, after which the source goes on with an index that it never set.
unfoldable pub open_file : ℕ → ℕ → Kernel → ℕ → Option (ℕ × Kernel)
open_file prev_b prev_a k filename =
    let k0 = record k { fd_index = 2 } in
    let fd = find_free 7 2 k.pcblock in
    if filename == 0
    then some (minus_one, k0)
    else if fd == 8
    then some (minus_one, record k { fd_index = 8 })
    else if fd == 9
    then none
    else some (open_at prev_b prev_a k0 (at k.mem filename) fd)

-- `pcblock.file_struct[i].fops_ptr = NULL`; index 8 is the start of `dentry[0]`.
unfoldable pub clear_fops : Pcb → ℕ → Pcb
clear_fops p i =
    let d = dentry_of p 0 in
    if ltb i 8
    then with_file p i (record (file_of p i) { fops_ptr = no_fops })
    else with_dentry p 0
        (record d { file_name = set (set (set (set d.file_name 0 0) 1 0) 2 0) 3 0 })

-- The stores of close before it calls the driver: the entry of `fd` is zeroed, and the jump table
-- of `fd_index` is forgotten.
unfoldable pub clear_entry : Kernel → ℕ → Kernel
clear_entry k fd =
    let p1 = with_file k.pcblock fd (record (file_of k.pcblock fd) { fpos = 0 }) in
    let p2 = clear_fops p1 k.fd_index in record k { pcblock = with_dentry p2 fd zero_dentry }

-- close
unfoldable pub close_file : Kernel → ℕ → ℕ × Kernel
close_file k fd =
    if slt 7 fd || slt fd 2
    then (minus_one, k)
    else if (file_of k.pcblock fd).flags == 1
    then (let k1 = clear_entry k fd in
        let k2 = if slt 1 k.fd_rtc && fd == k.fd_rtc then k1 else (filesystem_close k1 fd).1 in
        (0, record k2 { pcblock = set_flags k2.pcblock fd 0 }))
    else (minus_one, k)
