-- ===== src/Boot/Multiboot.antt =====
-- The part of entry in student-distrib/kernel.c that prints what the boot loader passed on, and takes the
-- address of the file system's image from it; the structs of multiboot.h are read from memory.
use Prim.Native.String.{String}
use mp.Base.{
  ℕ, zero, suc, ◌+◌, ◌^◌, ◌/◌, ◌%◌, Bool, true, false, ◌&&◌, Option, none, some, ◌>>=◌, List, [],
  ◌∷◌, bytes_of, get_or, ltb, ◌==◌, if◌then◌else◌, add32, u32,
}
use mp.Memory.{load32}
use mp.Screen.{Screen, printf}

-- The screen, with the memory, and BOOT_BLOCK_PTR.
pub record Report : Type 0 where
  pub screen : Screen
  pub boot_block_ptr : ℕ

-- `printf(format, args...)`; `none` means that a loop of printf ran out of fuel.
unfoldable pub say : ℕ → String → List ℕ → Report → Option Report
say fuel format args r = do
  (screen, n) ← printf fuel r.screen (bytes_of format) (λ i. get_or args i 0)
  some (record r { screen = screen })

abbrev pub word : Report → ℕ → ℕ
word r a = load32 r.screen.mem (u32 a)

-- CHECK_FLAG, of the flags at `mbi`.
unfoldable pub check_flag : Report → ℕ → ℕ → Bool
check_flag r mbi bit = word r mbi / 2 ^ bit % 2 == 1

-- `*((char*)p)` as a word.
unfoldable pub char_at : Report → ℕ → ℕ
char_at r p = let c = r.screen.mem (u32 p) in if ltb c 128 then c else c + 0xffff_ff00

-- The for loop over the first bytes of a module; `module_at` is the address of its module_t.
pub print_bytes : ℕ → ℕ → ℕ → ℕ → Report → Option Report
print_bytes fuel zero i module_at r = some r
print_bytes fuel (suc left) i module_at r = do
  r1 ← say fuel "0x%x " (char_at r (word r module_at + i) ∷ []) r
  print_bytes fuel left (i + 1) module_at r1

-- One round of the while loop over the modules.
unfoldable pub print_module : ℕ → ℕ → ℕ → Report → Option Report
print_module fuel mod_count module_at r = do
  r1 ← say fuel "Module %d loaded at address: 0x%#x\n" (mod_count ∷ word r module_at ∷ []) r
  r2 ← say fuel "Module %d ends at address: 0x%#x\n" (mod_count ∷ word r1 (module_at + 4) ∷ []) r1
  r3 ← say fuel "First few bytes of module:\n" [] r2
  r4 ← print_bytes fuel 16 0 module_at (record r3 { boot_block_ptr = word r3 module_at })
  say fuel "\n" [] r4

pub print_modules : ℕ → ℕ → ℕ → ℕ → ℕ → Report → Option Report
print_modules fuel zero mbi mod_count module_at r = none
print_modules fuel (suc rounds) mbi mod_count module_at r =
    elim (ltb mod_count (word r (mbi + 20))) [
      | false ↦ some r
      | true ↦ do
        r1 ← print_module fuel mod_count module_at r
        print_modules fuel rounds mbi (add32 mod_count 1) (add32 module_at 16) r1
    ]

-- The for loop over the memory map.
pub print_map : ℕ → ℕ → ℕ → ℕ → Report → Option Report
print_map fuel zero mbi mmap r = none
print_map fuel (suc rounds) mbi mmap r =
    elim (ltb mmap (add32 (word r (mbi + 48)) (word r (mbi + 44)))) [
      | false ↦ some r
      | true ↦ do
        r1 ←
            say fuel
              " size = 0x%x,     base_addr = 0x%#x%#x\n     type = 0x%x,  length    = 0x%#x%#x\n"
              (word r mmap
                ∷ word r (mmap + 8)
                ∷ word r (mmap + 4)
                ∷ word r (mmap + 20)
                ∷ word r (mmap + 16)
                ∷ word r (mmap + 12)
                ∷ [])
              r
        print_map fuel rounds mbi (add32 mmap (add32 (word r1 mmap) 4)) r1
    ]

-- `if (CHECK_FLAG(mbi->flags, bit))` without an else.
unfoldable pub when_flag : ℕ → ℕ → (Report → Option Report) → Report → Option Report
when_flag mbi bit step r = if check_flag r mbi bit then step r else some r

unfoldable pub print_basics : ℕ → ℕ → Report → Option Report
print_basics fuel mbi r = do
  r1 ← say fuel "flags = 0x%#x\n" (word r mbi ∷ []) r
  r2 ←
      when_flag mbi 0
        (λ s.
          say fuel "mem_lower = %uKB, mem_upper = %uKB\n" (word s (mbi + 4) ∷ word s (mbi + 8) ∷ [])
            s)
        r1
  r3 ← when_flag mbi 1 (λ s. say fuel "boot_device = 0x%#x\n" (word s (mbi + 12) ∷ []) s) r2
  when_flag mbi 2 (λ s. say fuel "cmdline = %s\n" (word s (mbi + 16) ∷ []) s) r3

unfoldable pub print_tables : ℕ → ℕ → ℕ → Report → Option Report
print_tables fuel rounds mbi r = do
  r1 ←
      when_flag mbi 5
        (λ s.
          say fuel "elf_sec: num = %u, size = 0x%#x, addr = 0x%#x, shndx = 0x%#x\n"
            (word s (mbi + 28) ∷ word s (mbi + 32) ∷ word s (mbi + 36) ∷ word s (mbi + 40) ∷ []) s)
        r
  when_flag mbi 6
      (λ s. do
        s1 ←
            say fuel "mmap_addr = 0x%#x, mmap_length = 0x%x\n"
              (word s (mbi + 48) ∷ word s (mbi + 44) ∷ []) s
        print_map fuel rounds mbi (word s1 (mbi + 48)) s1)
      r1

-- entry from its clear on to the descriptors: whether it goes on behind, or has returned.
unfoldable pub read_multiboot : ℕ → ℕ → ℕ → ℕ → Report → Option (Bool × Report)
read_multiboot fuel rounds magic mbi r =
    if magic == 0x2bad_b002
    then (do
      r1 ← print_basics fuel mbi r
      r2 ← when_flag mbi 3 (λ s. print_modules fuel rounds mbi 0 (word s (mbi + 24)) s) r1
      if check_flag r2 mbi 4 && check_flag r2 mbi 5
          then (do r3 ← say fuel "Both bits 4 and 5 are set.\n" [] r2; some (false, r3))
          else (do r3 ← print_tables fuel rounds mbi r2; some (true, r3)))
    else (do r1 ← say fuel "Invalid magic number: 0x%#x\n" (magic ∷ []) r; some (false, r1))
