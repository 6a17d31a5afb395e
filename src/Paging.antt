-- ===== src/Paging.antt =====
-- student-distrib/pagefile.c: the page directories and tables, for the kernel, the six tasks and the
-- terminals, and the translation of addresses that the processor does with them.
pub mod Walks
mod Tests
use mp.Base.{
  ℕ, zero, suc, ◌+◌, ◌*◌, ◌/◌, ◌%◌, ◌^◌, Bool, true, false, not, ◌&&◌, ◌||◌, Option, none, some,
  bit_or, List, [], ◌∷◌, get_or, leb, ◌==◌, if◌then◌else◌,
}

-- 1024 entries of 32 bits.
abbrev pub Entries : Type 0
Entries = ℕ → ℕ

-- The arrays of x86_desc.S; those of task 1 to 6 by number.
pub record Tables : Type 0 where
  pub page_directory : Entries
  pub page_table : Entries
  pub task_directory : ℕ → Entries
  pub task_table : ℕ → Entries
  pub terminal_directory : Entries
  pub terminal_table : Entries

-- Where the linker puts the page tables.
pub record Addresses : Type 0 where
  pub page_table_at : ℕ
  pub task_table_at : ℕ → ℕ
  pub terminal_table_at : ℕ

-- The control registers.
pub record Registers : Type 0 where
  pub cr0 : ℕ
  pub cr3 : Entries
  pub cr4 : ℕ

abbrev pub put : Entries → ℕ → ℕ → Entries
put t i v j = if j == i then v else t j

-- `n` rounds of the loops that store EMPTY, from entry `i` on.
pub clear_entries : ℕ → ℕ → Entries → Entries
clear_entries zero i t = t
clear_entries (suc n) i t = clear_entries n (i + 1) (put t i 0)

abbrev pub kernel_ptr : ℕ
kernel_ptr = 0x0040_0183

abbrev pub video_mem_page_su : ℕ
video_mem_page_su = 0x000b_8005

abbrev pub video_mem_page_u : ℕ
video_mem_page_u = 0x000b_8007

-- MB_8_MAP to MB_28_MAP, by task.
abbrev pub program_map : ℕ → ℕ
program_map n =
    get_or
      (0 ∷ 0x0080_0087 ∷ 0x00c0_0087 ∷ 0x0100_0087 ∷ 0x0140_0087 ∷ 0x0180_0087 ∷ 0x01c0_0087 ∷ []) n
      0

-- `(uint32_t) page_table | USER_SUPERVISOR | PRESENT | MASK_RW`
unfoldable pub table_entry : ℕ → ℕ
table_entry a = bit_or (bit_or (bit_or a 4) 1) 2

-- Entries 0 and 1 of a directory, and entry 32 of one with a program.
abbrev pub with_kernel : ℕ → Entries → Entries
with_kernel table_at d = put (put d 0 (table_entry table_at)) 1 kernel_ptr

abbrev pub with_program : ℕ → ℕ → Entries → Entries
with_program table_at map d = put (with_kernel table_at d) 32 map

abbrev pub is_task : ℕ → Bool
is_task n = leb 1 n && leb n 6

-- The tables that paging_init leaves.
unfoldable pub init_tables : Addresses → Tables → Tables
init_tables at t = record {
  page_directory = with_kernel at.page_table_at (clear_entries 1024 0 t.page_directory);
  page_table = put (clear_entries 1023 1 t.page_table) 184 video_mem_page_su;
  task_directory = λ n.
      if is_task n
      then with_program (at.task_table_at n) (program_map n)
          (clear_entries 1024 0 (t.task_directory n))
      else t.task_directory n;
  task_table = λ n. if is_task n then put (t.task_table n) 184 video_mem_page_u else t.task_table n;
  terminal_directory = with_program at.terminal_table_at 0x0200_0087 t.terminal_directory;
  terminal_table = put t.terminal_table 184 video_mem_page_u;
}

-- paging_init
unfoldable pub paging_init : Addresses → Tables → Registers → Tables × Registers
paging_init at t r =
    let t' = init_tables at t in
    (
      t',
      record { cr0 = bit_or r.cr0 0x8000_0000; cr3 = t'.page_directory; cr4 = bit_or r.cr4 0x10 },
    )

-- The bits of an entry: present, writable, user, and a page of 4 MB.
abbrev pub is_present : ℕ → Bool
is_present e = e % 2 == 1

abbrev pub is_user : ℕ → Bool
is_user e = e / 4 % 2 == 1

abbrev pub is_large : ℕ → Bool
is_large e = e / 128 % 2 == 1

-- Whether the processor lets an access through: one at user level needs the user bit.
abbrev pub lets : Bool → ℕ → Bool
lets user e = is_present e && (is_user e || not user)

-- The processor's walk, with pages of 4 MB enabled: the directory's entry, then that of the page
-- table at the address that it names. `none` is a page fault.
unfoldable pub translate : (ℕ → Entries) → Entries → Bool → ℕ → Option ℕ
translate table_at directory user v =
    let pde = directory (v / 2 ^ 22) in
    let pte = table_at (pde / 2 ^ 12 * 2 ^ 12) (v / 2 ^ 12 % 2 ^ 10) in
    if not (lets user pde)
    then none
    else if is_large pde
    then some (pde / 2 ^ 22 * 2 ^ 22 + v % 2 ^ 22)
    else if lets user pte
    then some (pte / 2 ^ 12 * 2 ^ 12 + v % 2 ^ 12)
    else none
