-- ===== src/Calls/Tests.antt =====
-- A machine with one file of 20 bytes, "a": open, read and write on it.
use mp.Base.{
  ℕ, zero, suc, ◌+◌, ◌*◌, ◌≤◌, ◌<◌, ◌≡◌, ◌≢◌, refl, inr, arith, none, some, leb, ◌==◌, ◌||◌,
  if◌then◌else◌, [], ◌∷◌, ◌&&◌, ◌%◌,
}
use mp.Memory.{Mem, load32}
use mp.Memory.Text.{at, IsBytes}
use mp.Kernel.{
  Kernel, FileStruct, filesystem_fops, terminal_fops, zero_file, with_file, with_dentry,
  zero_dentry,
}
use mp.FileSystem.{inode_ptr}
use mp.FileSystem.Lookup.{HasName}
use mp.FileSystem.Data.Image.{IsImage}
use mp.SystemCalls.{close_file, open_file, flags_at}
use mp.SystemCalls.Opening.{IsTable, IsTable-with_file}
use mp.Machine.{Machine, initial, zero_pcb, put_kernel}
use mp.Calls.{faults, read, write}
use mp.Calls.Faults.{close-faults}
use mp.Calls.Reading.{Delivers, read-Delivers}
use mp.Calls.OpenRead.{FirstNamed, IsFile, open-read}
use mp.Calls.System.{kernel_os}
use mp.Console.Display.{Display}
use mp.Calls.Serving.{ReadsAt, kernel_os-Serves}
use mp.Programs.Cat.Copying.{Serves}

-- The boot block at 0 names "a" with type 2 and inode 0; the inode at 4096 has 20 bytes, and all its
-- blocks are block 0, at 8192, whose byte `a` is `a % 200`; the path "a" stands at 20000.
abbrev image : Mem
image a =
    if leb 8192 a && leb (a + 1) 12288
    then a % 200
    else if a == 64 || a == 20000
    then 97
    else if a == 96
    then 2
    else if a == 4096
    then 20
    else 0

abbrev file_two : FileStruct
file_two = record { fops_ptr = filesystem_fops; fpos = 5; flags = 1 }

-- Descriptor 2 is `f`, and the rest is free.
abbrev machine : FileStruct → Machine
machine f =
    let m = initial image in
    put_kernel m (record m.system.kernel {
      filesystem = record {
        boot_block = 0;
        num_dir_entries = 1;
        num_inodes = 2;
        num_data_blocks = 1;
        dentry_begin = 64;
        data_start = 8192;
      };
      pcblock = record zero_pcb {
        file_struct =
            zero_file ∷ zero_file ∷ f ∷ zero_file ∷ zero_file ∷ zero_file ∷ zero_file ∷ zero_file
            ∷ [];
      };
    })

image-IsBytes : IsBytes image
image-IsBytes a = ground arith

machine-IsTable : (f : FileStruct) → IsTable (machine f).system.kernel.pcblock
machine-IsTable f = record { files = refl; entries = refl }

-- All that is not the first word of the inode is zero there.
no_pointer : (a : ℕ) → 4097 ≤ a → a < 8192 → image a ≡ 0
no_pointer a lo hi = ground arith

block_number : (i : ℕ) → i < 1023 → load32 image (4096 + (i + 1) * 4) ≡ 0
block_number i h = omega (
  arith,
  no_pointer (4096 + (i + 1) * 4) (omega arith) (omega arith),
  no_pointer (4096 + (i + 1) * 4 + 1) (omega arith) (omega arith),
  no_pointer (4096 + (i + 1) * 4 + 2) (omega arith) (omega arith),
  no_pointer (4096 + (i + 1) * 4 + 3) (omega arith) (omega arith),
)

abbrev kernel : Kernel
kernel = (machine zero_file).system.kernel

image-IsImage : IsImage kernel.filesystem image (inode_ptr kernel.filesystem 0) 4096 12288
image-IsImage = record {
  inode_lo = omega arith;
  inode_hi = omega arith;
  block_lo = λ i h. omega (arith, block_number i h);
  block_hi = λ i h. omega (arith, block_number i h);
}

IsFile-a : IsFile kernel 64 20 4096 12288
IsFile-a = record {
  kind = refl;
  image = image-IsImage;
  registered = omega arith;
  inodes = omega arith;
  length = refl;
  fits = omega arith;
}

entry_a : HasName image kernel.filesystem (at image 20000) 0
entry_a zero lt live = refl
entry_a (suc zero) lt live = refl
entry_a (suc (suc i)) lt live = absurd (live 1 (omega arith) refl)

named_a : FirstNamed kernel (at image 20000) 0
named_a = record { here = omega arith; has = entry_a; first = λ j p. absurd (omega arith) }

free_two : flags_at kernel.pcblock 2 ≡ 0
unfolding flags_at
free_two = refl

none_lower : (j : ℕ) → 2 ≤ j → j < 2 → flags_at kernel.pcblock j ≢ 0
none_lower j lo hi = absurd (omega arith)

-- 50 bytes asked for of the 20 that the file has.
open-read_example :
    let m = machine zero_file in
    (k' : Kernel) × (open_file 0 0 kernel 20000 ≡ some (2, k'))
    × (k'.mem ≡ image)
    × (k'.filesystem ≡ kernel.filesystem)
    × Delivers (put_kernel m k') 2 4096 0 30000 50 20 (read 0 0 (put_kernel m k') 2 30000 50)
open-read_example =
    open-read 0 0 0 0 (machine zero_file) 20000 2 (machine-IsTable zero_file) (omega arith)
      image-IsBytes (omega arith) (omega arith) (omega arith) (omega arith) free_two none_lower 0
      named_a 20 4096 12288 IsFile-a (omega arith) 30000 50 (omega arith) (omega arith)
      (inr (omega arith)) (omega arith)

-- From position 5 on there are 15 bytes.
read-Delivers_example :
    Delivers (machine file_two) 2 4096 5 30000 50 15 (read 0 0 (machine file_two) 2 30000 50)
read-Delivers_example =
    read-Delivers 0 0 (machine file_two) 2 (machine-IsTable file_two) (omega arith) (omega arith)
      refl (omega arith) 30000 50 (omega arith) (omega arith) 4096 12288 image-IsImage
      (inr (omega arith)) (omega arith) (omega arith) (omega arith) (omega arith) (omega arith)

-- Descriptor 2 is at position 5 of the 20 bytes.
abbrev content : Mem
content j = (8192 + j) % 200

kernel_os-Serves_example :
    Serves
      (kernel_os 0 0 0 0 0 (λ m a. none))
      30000
      2
      20
      content
      (λ m pos out. ReadsAt kernel.filesystem 2 0 20 4096 12288 content m pos)
kernel_os-Serves_example =
    kernel_os-Serves kernel.filesystem 2 0 20 4096 12288 content (omega arith) (omega arith)
      (omega arith) (omega arith) 30000 (omega arith) (inr (omega arith)) 0 0 0 0 0 (λ m a. none)

-- Descriptors 2 and 3 are open, 3 since the last open.
abbrev two_open : Machine
two_open =
    let m = machine file_two in
    put_kernel m (record m.system.kernel {
      pcblock = with_file m.system.kernel.pcblock 3 file_two;
      fd_index = 3;
    })

close-faults_example :
    let closed = put_kernel two_open (close_file two_open.system.kernel 2).1 in
    (read 0 0 closed 3 30000 50 ≡ faults) × (write 0 closed 3 30000 50 ≡ faults)
close-faults_example =
    close-faults two_open 2 (IsTable-with_file _ 3 file_two (machine-IsTable file_two))
      (omega arith) (omega arith) refl (omega arith) (omega arith) (omega arith) 0 0 0 30000 50
      (omega arith) (omega arith)

-- Descriptor 1 is the terminal's, and 2 the file, at its start; the display is empty.
abbrev printing : Machine
printing =
    let m = machine (record file_two { fpos = 0 }) in
    put_kernel m (record m.system.kernel {
      pcblock =
          with_file m.system.kernel.pcblock 1
            (record { fops_ptr = terminal_fops; fpos = 0; flags = 1 });
    })

abbrev empty : Display
empty = record { char = λ x y. 0; column = 0; row = 0 }

-- Descriptor 2 is the directory, at its only entry, "a".
abbrev listing_machine : Machine
listing_machine = put_kernel printing (record printing.system.kernel {
  pcblock = with_dentry printing.system.kernel.pcblock 2 (record zero_dentry { file_type = 1 });
})
