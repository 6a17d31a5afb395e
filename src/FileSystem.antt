-- ===== src/FileSystem.antt =====
-- student-distrib/filesystem.c: directory entries, file data and directory reads. Addresses that
-- come from the image or from a caller are computed modulo 2 ^ 32.
pub mod Lookup
pub mod Data
mod Tests
use mp.Base.{
  ℕ, zero, suc, ◌+◌, ◌-◌, ◌*◌, ◌/◌, ◌%◌, ◌^◌, Bool, true, false, Option, none, some, List, [], ◌∷◌,
  ltb, leb, ◌==◌, if◌then◌else◌, add32, sub32, u32, minus_one, get_or,
}
use mp.Memory.{Mem, store, load32, memcpy}
use mp.Memory.Text.{at, strlen, strncmp}
use mp.Kernel.{
  Dentry, FileStruct, Pcb, FileSystem, Kernel, file_of, dentry_of, with_file, with_dentry,
}

-- init_fs: the header is read from the boot block.
unfoldable pub init_fs : Mem → ℕ → FileSystem
init_fs m boot = record {
  boot_block = boot;
  num_dir_entries = load32 m boot;
  num_inodes = load32 m (boot + 4);
  num_data_blocks = load32 m (boot + 8);
  dentry_begin = boot + 64;
  data_start = u32 (boot + (load32 m (boot + 4) + 1) * 4096);
}

abbrev pub max_file : ℕ
max_file = 62

-- `n` bytes copied into a local array.
abbrev pub bytes_at : ℕ → Mem → ℕ → List ℕ
bytes_at zero m p = []
bytes_at (suc n) m p = m p ∷ bytes_at n m (p + 1)

-- `memcpy(dentry, p, B_40)`: the name and the two words; the reserved bytes stay.
unfoldable pub load_dentry : Mem → ℕ → Dentry → Dentry
load_dentry m p d = record d {
  file_name = bytes_at 32 m p;
  file_type = load32 m (p + 32);
  inode_number = load32 m (p + 36);
}

abbrev pub entry : FileSystem → ℕ → ℕ
entry fs i = fs.dentry_begin + i * 64

-- Whether the loop of read_dentry_by_name stops at entry `i`.
unfoldable pub is_named : Mem → FileSystem → (ℕ → ℕ) → ℕ → Bool
is_named m fs fname i = strncmp fname (λ j. get_or (bytes_at 32 m (entry fs i)) j 0) 32 == 0

-- The loop of read_dentry_by_name with `left` rounds to go: the status and `*dentry`.
unfoldable pub by_name_from : ℕ → ℕ → Mem → FileSystem → (ℕ → ℕ) → Dentry → ℕ × Dentry
by_name_from zero i m fs fname d = (minus_one, d)
by_name_from (suc left) i m fs fname d = elim (is_named m fs fname i) [
  | true ↦ (0, load_dentry m (entry fs i) d)
  | false ↦ by_name_from left (i + 1) m fs fname d
]

unfoldable pub read_dentry_by_name : Mem → FileSystem → (ℕ → ℕ) → Dentry → ℕ × Dentry
read_dentry_by_name m fs fname d = by_name_from max_file 0 m fs fname d

-- `*filesystem.dentry_begin + i*B_64 + B_36`: the first byte of the directory, plus an offset.
unfoldable pub inode_num_at : Mem → FileSystem → ℕ → ℕ
inode_num_at m fs i = m fs.dentry_begin + i * 64 + 36

pub by_index_from : ℕ → ℕ → Mem → FileSystem → ℕ → Dentry → ℕ × Dentry
by_index_from zero i m fs index d = (minus_one, d)
by_index_from (suc left) i m fs index d = elim (inode_num_at m fs i == index) [
  | true ↦ (0, load_dentry m (entry fs i) d)
  | false ↦ by_index_from left (i + 1) m fs index d
]

unfoldable pub read_dentry_by_index : Mem → FileSystem → ℕ → Dentry → ℕ × Dentry
read_dentry_by_index m fs index d = by_index_from max_file 0 m fs index d

-- The first loop of read_data: `n` zeros.
unfoldable pub clear_buf : ℕ → Mem → ℕ → Mem
clear_buf zero m buf = m
clear_buf (suc n) m buf = clear_buf n (store m buf 0) (buf + 1)

abbrev pub inode_ptr : FileSystem → ℕ → ℕ
inode_ptr fs inode = u32 (fs.boot_block + (inode + 1) * 4096)

-- The address of the data block with number `i` of the file.
abbrev pub block_ptr : Mem → FileSystem → ℕ → ℕ → ℕ
block_ptr m fs iptr i = u32 (fs.data_start + load32 m (iptr + (i + 1) * 4) * 4096)

abbrev pub block_size : ℕ
block_size = 4096

-- A round of the while loop of read_data after the first: `i`, `left` and `bufholder` with the
-- memory. The block pointer is not computed again between the two tests.
pub record Cursor : Type 0 where
  pub mem : Mem
  pub left : ℕ
  pub i : ℕ
  pub bufholder : ℕ

unfoldable pub later_round : FileSystem → ℕ → ℕ → Cursor → Cursor
later_round fs iptr index c =
    let block = block_ptr c.mem fs iptr c.i in
    let full =
      if leb block_size c.left
      then record {
        mem = memcpy c.mem c.bufholder block block_size;
        left = c.left - (block_size - index);
        i = c.i + 1;
        bufholder = c.bufholder + (block_size - index);
      }
      else c in
    if ltb full.left block_size
    then record full { mem = memcpy full.mem full.bufholder block full.left; left = 0 }
    else full

-- The round that finds `index_flag` set.
unfoldable pub first_round : FileSystem → ℕ → ℕ → ℕ → Cursor → Cursor
first_round fs iptr index buf c =
    let block = block_ptr c.mem fs iptr c.i + index in
    if leb (add32 index c.left) block_size
    then record c { mem = memcpy c.mem buf block c.left; left = 0 }
    else record {
      mem = memcpy c.mem c.bufholder block (block_size - index);
      left = c.left - (block_size - index);
      i = c.i + 1;
      bufholder = c.bufholder + (block_size - index);
    }

unfoldable pub read_blocks : ℕ → FileSystem → ℕ → ℕ → Cursor → Option Cursor
read_blocks zero fs iptr index c = none
read_blocks (suc fuel) fs iptr index c = elim (c.left == 0) [
  | true ↦ some c
  | false ↦ read_blocks fuel fs iptr index (later_round fs iptr index c)
]

-- The while loop of read_data; a round lowers `left`, so that `left + 1` rounds are enough.
unfoldable pub copy_file : FileSystem → ℕ → ℕ → ℕ → Mem → ℕ → Option Cursor
copy_file fs iptr offset buf m left =
    let index = offset % block_size in
    let c : Cursor = record { mem = m; left = left; i = offset / block_size; bufholder = buf } in
    if left == 0
    then some c
    else read_blocks (left + 1) fs iptr index (first_round fs iptr index buf c)

-- What read_data returns, with the new memory and the new `fpos` if it sets one.
pub record DataRead : Type 0 where
  pub rval : ℕ
  pub mem : Mem
  pub fpos : Option ℕ

-- `length` cut down to the end of the file.
unfoldable pub cut_length : ℕ → ℕ → ℕ → ℕ
cut_length data_length offset length =
    if ltb data_length (add32 offset length) then data_length - offset else length

-- The part of read_data behind its checks.
unfoldable pub read_valid : FileSystem → Mem → ℕ → ℕ → ℕ → ℕ → Option DataRead
read_valid fs m iptr offset buf rval = elim (copy_file fs iptr offset buf m rval) [
  | none ↦ none
  | some c ↦ some (record { rval = rval; mem = c.mem; fpos = some (add32 offset rval) })
]

-- read_data. `none` means that the loop ran out of fuel.
unfoldable pub read_data : FileSystem → Mem → ℕ → ℕ → ℕ → ℕ → Option DataRead
read_data fs m inode offset buf length =
    let m' = clear_buf length m buf in
    let iptr = inode_ptr fs inode in
    let data_length = load32 m' iptr in
    if leb data_length offset
    then some (record { rval = 0; mem = m'; fpos = none })
    else if leb (sub32 fs.num_inodes 1) inode
    then some (record { rval = minus_one; mem = m'; fpos = none })
    else read_valid fs m' iptr offset buf (cut_length data_length offset length)
