-- ===== src/FileSystem/Tests.antt =====
-- A small image, and the file system's operations on it.
use mp.Base.{
  ℕ, zero, suc, ◌+◌, ◌*◌, ◌/◌, ◌%◌, ◌≤◌, ◌<◌, ◌≡◌, ◌≢◌, refl, inr, arith, some, leb, ◌==◌,
  if◌then◌else◌,
}
use mp.Memory.{Mem, load32}
use mp.Memory.Text.{IsBytes}
use mp.Kernel.{FileSystem, zero_dentry}
use mp.FileSystem.{
  inode_ptr, block_size, read_data, DataRead, read_dentry_by_name, load_dentry, entry, max_file,
}
use mp.FileSystem.Lookup.{HasName, read_dentry_by_name-found}
use mp.FileSystem.Data.{read_data-total, read_data-stale}
use mp.FileSystem.Data.Image.{IsImage, file_byte}

-- The boot block at 0 names one entry, "a" with type 2 and inode 0; the inode at 4096 has 9000
-- bytes in blocks 0, 1 and 2; two inodes are registered, and data starts at 12288.
abbrev image : Mem
image a =
    if leb 12288 a
    then a / 4096 % 256
    else if a == 64
    then 97
    else if a == 96
    then 2
    else if a == 4096
    then 40
    else if a == 4097
    then 35
    else if a == 4104
    then 1
    else if a == 4108
    then 2
    else 0

abbrev fs : FileSystem
fs = record {
  boot_block = 0;
  num_dir_entries = 1;
  num_inodes = 2;
  num_data_blocks = 3;
  dentry_begin = 64;
  data_start = 12288;
}

pointers_small : (a : ℕ) → 4098 ≤ a → a < 12288 → image a ≤ 2
pointers_small a lo hi = ground arith

no_pointer : (a : ℕ) → 4098 ≤ a → a < 12288 → a % 4 ≢ 0 → image a ≡ 0
no_pointer a lo hi odd = ground arith

block_number : (i : ℕ) → i < 1023 → load32 image (4096 + (i + 1) * 4) ≤ 2
block_number i h = omega (
  arith,
  pointers_small (4096 + (i + 1) * 4) (omega arith) (omega arith),
  no_pointer (4096 + (i + 1) * 4 + 1) (omega arith) (omega arith) (omega arith),
  no_pointer (4096 + (i + 1) * 4 + 2) (omega arith) (omega arith) (omega arith),
  no_pointer (4096 + (i + 1) * 4 + 3) (omega arith) (omega arith) (omega arith),
)

image-IsImage : IsImage fs image (inode_ptr fs 0) 4096 24576
image-IsImage = record {
  inode_lo = omega arith;
  inode_hi = omega arith;
  block_lo = λ i h. omega (arith, block_number i h);
  block_hi = λ i h. omega (arith, block_number i h);
}

-- All 9000 bytes: those from 8192 on come out as the second block's.
read_data-stale_example :
    (r : DataRead) × (read_data fs image 0 0 30000 9000 ≡ some r)
    × (r.rval ≡ 9000)
    × (r.mem (30000 + (2 * block_size + 7)) ≡ file_byte fs image 4096 (0 + (block_size + 7)))
read_data-stale_example =
    read_data-stale fs image 0 4096 24576 image-IsImage 30000 9000 (inr (omega arith)) 0
      (omega arith) (omega arith) (omega arith) (omega arith) (omega arith) 7 refl (omega arith)
      (omega arith) (omega arith)

read_data-total_example : (r : DataRead) × (read_data fs image 0 0 30000 9000 ≡ some r)
read_data-total_example = read_data-total fs image 0 0 30000 9000

image-IsBytes : IsBytes image
image-IsBytes a = ground arith

-- The names "a" and "b".
abbrev name_a : ℕ → ℕ
name_a i = if i == 0 then 97 else 0

abbrev name_b : ℕ → ℕ
name_b i = if i == 0 then 98 else 0

name_a-IsBytes : IsBytes name_a
name_a-IsBytes i = ground arith

name_b-IsBytes : IsBytes name_b
name_b-IsBytes i = ground arith

entry_a : HasName image fs name_a 0
entry_a zero lt live = refl
entry_a (suc zero) lt live = refl
entry_a (suc (suc i)) lt live = absurd (live 1 (omega arith) refl)

no_entry_b : (j : ℕ) → j < max_file → ¬ HasName image fs name_b j
no_entry_b j lt h =
    let start : 98 ≡ image (64 + j * 64 + 0) = h 0 (omega arith) (λ i p. absurd (omega arith)) in
    ground arith

read_dentry_by_name-found_example :
    read_dentry_by_name image fs name_a zero_dentry
    ≡ (0, load_dentry image (entry fs 0) zero_dentry)
read_dentry_by_name-found_example =
    read_dentry_by_name-found image fs name_a image-IsBytes name_a-IsBytes 0 zero_dentry
      (omega arith) entry_a (λ j p. absurd (omega arith))
