-- ===== src/SystemCalls/Tests.antt =====
-- Opens and closes on a small image with one entry, "a".
use mp.Base.{
  ℕ, zero, suc, ◌+◌, ◌*◌, ◌≤◌, ◌<◌, ◌≡◌, ◌≢◌, refl, arith, some, ◌==◌, ◌||◌, if◌then◌else◌,
  minus_one, List, [], ◌∷◌,
}
use mp.Memory.{Mem}
use mp.Memory.Text.{IsBytes, at}
use mp.Pic
use mp.Kernel.{
  Kernel, kernel_directory, Pcb, FileStruct, filesystem_fops, no_fops, task_directory, zero_dentry,
  zero_file, file_of, dentry_of, zeros,
}
use mp.FileSystem.{max_file}
use mp.FileSystem.Lookup.{HasName}
use mp.SystemCalls.{open_file, close_file, flags_at}
use mp.SystemCalls.Opening.{IsTable, Opened, open_file-Opened, open_file-missing}
use mp.SystemCalls.Closing.{close_file-table}

-- Entry 0 at 64 is "a" with type 2; the path "a" stands at 5000 and the path "b" at 6000.
abbrev disk : Mem
disk a = if a == 64 || a == 5000 then 97 else if a == 6000 then 98 else if a == 96 then 2 else 0

abbrev free_table : List FileStruct
free_table =
    zero_file ∷ zero_file ∷ zero_file ∷ zero_file ∷ zero_file ∷ zero_file ∷ zero_file ∷ zero_file
    ∷ []

abbrev busy_file : FileStruct
busy_file = record { fops_ptr = filesystem_fops; fpos = 5; flags = 1 }

abbrev full_table : List FileStruct
full_table =
    busy_file ∷ busy_file ∷ busy_file ∷ busy_file ∷ busy_file ∷ busy_file ∷ busy_file ∷ busy_file
    ∷ []

abbrev pcb_of : List FileStruct → Pcb
pcb_of files = record {
  file_struct = files;
  dentry =
      zero_dentry ∷ zero_dentry ∷ zero_dentry ∷ zero_dentry ∷ zero_dentry ∷ zero_dentry
      ∷ zero_dentry ∷ zero_dentry ∷ [];
  cmd_name = zeros 40;
  arg_name = zeros 40;
  data_arg_size = 0;
  prev_pcb = 0;
  esp = 0;
  ebp = 0;
  cr3 = kernel_directory;
  parent_pid = 0;
}

-- Task 1, with descriptor 3 read last and descriptor 4 opened last.
abbrev kernel_of : List FileStruct → Kernel
kernel_of files = record {
  mem = disk;
  filesystem = record {
    boot_block = 0;
    num_dir_entries = 1;
    num_inodes = 2;
    num_data_blocks = 3;
    dentry_begin = 64;
    data_start = 12288;
  };
  pcblock = pcb_of files;
  fd_val = 3;
  fd_index = 4;
  behind = λ i. 0;
  fd_rtc = 0;
  cr3 = task_directory 1;
  saved = λ pid. pcb_of files;
  pic = Pic.initial;
  io = [];
}

free_IsTable : IsTable (pcb_of free_table)
free_IsTable = record { files = refl; entries = refl }

full_IsTable : IsTable (pcb_of full_table)
full_IsTable = record { files = refl; entries = refl }

disk-IsBytes : IsBytes disk
disk-IsBytes a = ground arith

free_two : flags_at (pcb_of free_table) 2 ≡ 0
unfolding flags_at
free_two = refl

none_lower : (j : ℕ) → 2 ≤ j → j < 2 → flags_at (pcb_of free_table) j ≢ 0
none_lower j lo hi = absurd (omega arith)

entry_a : HasName disk (kernel_of free_table).filesystem (at disk 5000) 0
entry_a zero lt live = refl
entry_a (suc zero) lt live = refl
entry_a (suc (suc i)) lt live = absurd (live 1 (omega arith) refl)

no_entry_b :
    (j : ℕ) → j < max_file → ¬ HasName disk (kernel_of free_table).filesystem (at disk 6000) j
no_entry_b j lt h =
    let start : 98 ≡ disk (64 + j * 64 + 0) = h 0 (omega arith) (λ i p. absurd (omega arith)) in
    ground arith

open_file-Opened_example :
    Opened (kernel_of free_table) 2 64 (open_file 0 0 (kernel_of free_table) 5000)
open_file-Opened_example =
    open_file-Opened 0 0 (kernel_of free_table) 5000 2 free_IsTable (omega arith) disk-IsBytes
      (omega arith) (omega arith) (omega arith) (omega arith) free_two none_lower 0 (omega arith)
      entry_a (λ j p. absurd (omega arith))

open_file-missing_example :
    (k' : Kernel) × (open_file 0 0 (kernel_of free_table) 6000 ≡ some (minus_one, k'))
    × ((j : ℕ) → file_of k'.pcblock j ≡ file_of (pcb_of free_table) j)
    × ((j : ℕ) → dentry_of k'.pcblock j ≡ dentry_of (pcb_of free_table) j)
open_file-missing_example =
    open_file-missing 0 0 (kernel_of free_table) 6000 2 free_IsTable (omega arith) disk-IsBytes
      (omega arith) (omega arith) (omega arith) (omega arith) free_two none_lower no_entry_b

all_busy : (j : ℕ) → 2 ≤ j → j < 8 → (file_of (pcb_of full_table) j).flags ≢ 0
all_busy zero lo hi = absurd (omega arith)
all_busy (suc zero) lo hi = absurd (omega arith)
all_busy (suc (suc zero)) lo hi = omega arith
all_busy (suc (suc (suc zero))) lo hi = omega arith
all_busy (suc (suc (suc (suc zero)))) lo hi = omega arith
all_busy (suc (suc (suc (suc (suc zero))))) lo hi = omega arith
all_busy (suc (suc (suc (suc (suc (suc zero)))))) lo hi = omega arith
all_busy (suc (suc (suc (suc (suc (suc (suc zero))))))) lo hi = omega arith
all_busy (suc (suc (suc (suc (suc (suc (suc (suc j)))))))) lo hi = absurd (omega arith)

behind_zero : flags_at (pcb_of full_table) 8 ≡ 0
unfolding flags_at
behind_zero = refl

close_file-table_example :
    let k = kernel_of full_table in
    let closed = (close_file k 2).1.pcblock in
    ((close_file k 2).0 ≡ 0)
    × ((j : ℕ)
        → file_of closed j ≡ (
            let f = file_of k.pcblock j in
            let g = if j == 2 then record f { fpos = 0; flags = 0 } else f in
            if j == 4 then record g { fops_ptr = no_fops } else g))
    × ((j : ℕ) → dentry_of closed j ≡ (if j == 2 then zero_dentry else dentry_of k.pcblock j))
close_file-table_example =
    close_file-table (kernel_of full_table) 2 full_IsTable (omega arith) (omega arith) refl
      (omega arith)
