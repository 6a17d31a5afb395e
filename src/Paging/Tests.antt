-- ===== src/Paging/Tests.antt =====
-- Addresses of tasks and of the kernel on concrete tables.
use mp.Base.{ℕ, ◌+◌, ◌*◌, ◌-◌, ◌/◌, ◌≤◌, ◌≡◌, refl, true, some, leb, leb-true, if◌then◌else◌, arith}
use mp.Paging.{Entries, Tables, Addresses, Registers, paging_init, translate}
use mp.Paging.Walks.{paging_init-task, paging_init-apart}

abbrev empty_tables : Tables
empty_tables = record {
  page_directory = λ i. 0;
  page_table = λ i. 0;
  task_directory = λ n i. 0;
  task_table = λ n i. 0;
  terminal_directory = λ i. 0;
  terminal_table = λ i. 0;
}

-- The page table of the kernel at page 0, that of task `n` at page `n + 1`.
abbrev placed : Addresses
placed = record {
  page_table_at = 0;
  task_table_at = λ n. (n + 1) * 4096;
  terminal_table_at = 0x9000;
}

abbrev registers : Registers
registers = record { cr0 = 0x11; cr3 = λ i. 0; cr4 = 0 }

abbrev start : Tables × Registers
start = paging_init placed empty_tables registers

abbrev table_at : ℕ → Entries
table_at a = let t = start.0 in if leb 4096 a then t.task_table (a / 4096 - 1) else t.page_table

task_placed : (k : ℕ) → table_at ((k + 1) * 4096) ≡ start.0.task_table k
task_placed k = rw (leb-true 4096 ((k + 1) * 4096) (omega arith), index) refl
  where
    index : (k + 1) * 4096 / 4096 - 1 ≡ k
    index = omega arith

paging_init-task_example :
    translate table_at (start.0.task_directory 2) true 0x0804_8000 ≡ some 0x00c4_8000
paging_init-task_example =
    paging_init-task placed empty_tables registers table_at 2 (omega arith) (omega arith)
      (λ j. refl) refl (task_placed 2) true 0x0804_8000 (omega arith)

video_of :
    (n : ℕ)
    → 1 ≤ n
    → n ≤ 6
    → translate table_at (start.0.task_directory n) true 0x000b_8010 ≡ some 0x000b_8010
video_of n lo hi =
    paging_init-task placed empty_tables registers table_at n lo hi (λ j. refl) (omega arith)
      (task_placed n) true 0x000b_8010 (omega arith)

paging_init-apart_example : 0x000b_8010 / 4096 ≡ 184
paging_init-apart_example =
    paging_init-apart placed empty_tables registers table_at (λ k j. refl) (λ k. omega arith)
      task_placed 1 2 0x000b_8010 0x000b_8010 0x000b_8010 (omega arith) (omega arith) (omega arith)
      (omega arith) (omega arith) (omega arith) (λ e. omega arith)
      (video_of 1 (omega arith) (omega arith)) (video_of 2 (omega arith) (omega arith))
