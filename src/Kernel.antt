-- ===== src/Kernel.antt =====
-- The global state that the system calls and the file system share: the structs of
-- student-distrib/filesystem.h and systemcalls.h. C arrays are lists; a read past the end of one is
-- written out where the source makes it.
use mp.Base.{ℕ, zero, suc, List, [], ◌∷◌, get_or, set}
use mp.Memory.{Mem}
use mp.Io.{Io}
use mp.Pic.{Pic}

-- dentry_t, 64 bytes: a name of 32 bytes, two words, 24 reserved bytes.
pub record Dentry : Type 0 where
  pub file_name : List ℕ
  pub file_type : ℕ
  pub inode_number : ℕ
  pub reserved : List ℕ

-- The jump tables of systemcalls.c that a `fops_t *` can point to.
pub data Fops : Type 0 where
  no_fops rtc_fops terminal_fops filesystem_fops : Fops

-- file_struct_t; `inode_ptr` is never written or read by the kernel.
pub record FileStruct : Type 0 where
  pub fops_ptr : Fops
  pub fpos : ℕ
  pub flags : ℕ

-- What CR3 can hold: `page_directory`, or that of task 1 to 6.
pub data PageDirectory : Type 0 where
  kernel_directory : PageDirectory
  task_directory : ℕ → PageDirectory

-- pcb_t; its field `eip` is never written or read by the kernel.
pub record Pcb : Type 0 where
  pub prev_pcb : ℕ
  pub esp : ℕ
  pub ebp : ℕ
  pub cr3 : PageDirectory
  pub parent_pid : ℕ
  pub file_struct : List FileStruct
  pub dentry : List Dentry
  pub cmd_name : List ℕ
  pub arg_name : List ℕ
  pub data_arg_size : ℕ

-- fs_t, and the address of the boot block.
pub record FileSystem : Type 0 where
  pub boot_block : ℕ
  pub num_dir_entries : ℕ
  pub num_inodes : ℕ
  pub num_data_blocks : ℕ
  pub dentry_begin : ℕ
  pub data_start : ℕ

pub record Kernel : Type 0 where
  pub mem : Mem
  pub filesystem : FileSystem
  pub pcblock : Pcb
  -- The bytes behind `pcblock`, which the source overruns.
  pub behind : ℕ → ℕ
  pub fd_val : ℕ
  pub fd_index : ℕ
  pub fd_rtc : ℕ
  pub cr3 : PageDirectory
  -- The copies of `pcblock` below the kernel stacks, by process.
  pub saved : ℕ → Pcb
  pub pic : Pic
  -- What the drivers did to the machine so far.
  pub io : List Io

abbrev pub zeros : ℕ → List ℕ
zeros zero = []
zeros (suc n) = 0 ∷ zeros n

-- The value of static storage.
abbrev pub zero_dentry : Dentry
zero_dentry = record { file_name = zeros 32; file_type = 0; inode_number = 0; reserved = zeros 24 }

abbrev pub zero_file : FileStruct
zero_file = record { fops_ptr = no_fops; fpos = 0; flags = 0 }

abbrev pub file_of : Pcb → ℕ → FileStruct
file_of p fd = get_or p.file_struct fd zero_file

abbrev pub dentry_of : Pcb → ℕ → Dentry
dentry_of p fd = get_or p.dentry fd zero_dentry

abbrev pub with_file : Pcb → ℕ → FileStruct → Pcb
with_file p fd f = record p { file_struct = set p.file_struct fd f }

abbrev pub with_dentry : Pcb → ℕ → Dentry → Pcb
with_dentry p fd d = record p { dentry = set p.dentry fd d }
