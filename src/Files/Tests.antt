-- ===== src/Files/Tests.antt =====
-- The theorems on reads of the directory and on getargs, applied to concrete states.
use mp.Base.{◌≡◌, refl, inr, some, [], ◌∷◌, ◌==◌, if◌then◌else◌, arith}
use mp.Memory.{Mem}
use mp.Memory.Text.{EndsAt, at}
use mp.Kernel.{
  Kernel, Pcb, FileSystem, kernel_directory, task_directory, zeros, zero_dentry, zero_file,
}
use mp.Pic
use mp.FileSystem.{entry}
use mp.Files.{dirread, getargs}
use mp.Files.Listing.{IsNext, Listed, dirread-Listed}
use mp.Files.Arguments.{Given, getargs-Given}

-- Two entries: one of type 0, and a file `a`.
abbrev image : Mem
image a = if a == 0x1080 then 97 else if a == 0x10a0 then 2 else 0

abbrev files : FileSystem
files = record {
  boot_block = 0x1000;
  num_dir_entries = 2;
  num_inodes = 2;
  num_data_blocks = 1;
  dentry_begin = 0x1040;
  data_start = 0x4000;
}

-- The argument is `b`.
abbrev block : Pcb
block = record {
  prev_pcb = 0;
  esp = 0;
  ebp = 0;
  cr3 = kernel_directory;
  parent_pid = 0;
  file_struct = zero_file ∷ zero_file ∷ zero_file ∷ [];
  dentry = zero_dentry ∷ zero_dentry ∷ zero_dentry ∷ [];
  cmd_name = zeros 40;
  arg_name = 98 ∷ zeros 39;
  data_arg_size = 1;
}

abbrev kernel : Kernel
kernel = record {
  mem = image;
  filesystem = files;
  pcblock = block;
  fd_val = 2;
  fd_index = 2;
  behind = λ i. 0;
  fd_rtc = 0;
  cr3 = task_directory 1;
  saved = λ i. block;
  pic = Pic.initial;
  io = [];
}

second_IsNext : IsNext kernel 0 1
second_IsNext = record {
  above = omega arith;
  listed = λ e. omega (arith, e);
  skipped = λ l lo hi. ground arith;
}

name_EndsAt : EndsAt (at image (entry files 1)) 1
name_EndsAt = record { nul = refl; before = λ i h. ground arith }

dirread-Listed_example :
    (r : Kernel) × (dirread 3 kernel 2 0x5000 ≡ some (1, r)) × Listed kernel 2 0x5000 1 1 r
dirread-Listed_example =
    dirread-Listed kernel 2 0x5000 1 1 3 (omega arith) second_IsNext (omega arith) name_EndsAt
      (omega arith) (inr (omega arith)) (omega arith) (omega arith)

getargs-Given_example :
    (r : Mem) × (getargs image block (λ i. 0) 0x5000 8 ≡ (0, r))
    × Given image block (λ i. 0) 0x5000 8 r
getargs-Given_example =
    getargs-Given image block (λ i. 0) 0x5000 8 (λ e. omega (arith, e)) refl (omega arith)
