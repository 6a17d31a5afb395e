-- ===== src/Paging/Walks.antt =====
-- What the addresses of each task mean under the tables that paging_init leaves.
use Prim.Native.Nat.{max}
use mp.Base.{
  ℕ, zero, suc, ◌+◌, ◌*◌, ◌/◌, ◌%◌, ◌^◌, ◌≤◌, ◌<◌, ◌≡◌, ◌≢◌, refl, sym, ◌∙◌, Bool, true, false,
  Option, none, some, ◌&&◌, leb, ltb, ◌==◌, if◌then◌else◌, arith, ◌⊎◌, inl, inr, ℕ_discrete, bit_or,
  bit_or-halves, holds_below, holds_below_lem,
}
use mp.Paging.{
  kernel_ptr, lets, Entries, Tables, Addresses, Registers, put, clear_entries, table_entry,
  init_tables, paging_init, translate, program_map,
}

-- The loops store EMPTY in `n` entries from `i` on, and nothing else.
clear_entries_lem :
    (n i : ℕ) (t : Entries) (j : ℕ)
    → clear_entries n i t j ≡ (if leb i j && ltb j (i + n) then 0 else t j)
unfolding clear_entries
clear_entries_lem zero i t j = ground arith
clear_entries_lem (suc n) i t j = ground (arith, clear_entries_lem n (i + 1) (put t i 0) j)

bit_or-zero_upto : (n a : ℕ) → a ≤ n → bit_or a 0 ≡ a
bit_or-zero_upto n zero h = refl
bit_or-zero_upto zero (suc a) h = absurd (omega arith)
bit_or-zero_upto (suc n) (suc a) h =
    omega (arith, bit_or-halves (suc a) 0, bit_or-zero_upto n (suc a / 2) (omega arith))

bit_or-zero : (a : ℕ) → bit_or a 0 ≡ a
bit_or-zero a = bit_or-zero_upto a a (omega arith)

low_bits :
    (a b : ℕ)
    → bit_or a b
      ≡ ((bit_or (a / 2 / 2 / 2) (b / 2 / 2 / 2) * 2 + max (a / 2 / 2 % 2) (b / 2 / 2 % 2)) * 2
            + max (a / 2 % 2) (b / 2 % 2))
          * 2
        + max (a % 2) (b % 2)
low_bits a b =
    omega (
      arith,
      bit_or-halves a b,
      bit_or-halves (a / 2) (b / 2),
      bit_or-halves (a / 2 / 2) (b / 2 / 2),
    )

-- The three low bits of an aligned address are free for the flags.
table_entry-aligned : (a : ℕ) → a % 8 ≡ 0 → table_entry a ≡ a + 7
unfolding table_entry
table_entry-aligned a h = omega (
  arith,
  low_bits a 4,
  low_bits (bit_or a 4) 1,
  low_bits (bit_or (bit_or a 4) 1) 2,
  bit_or-zero (a / 2 / 2 / 2),
  bit_or-zero (bit_or a 4 / 2 / 2 / 2),
  bit_or-zero (bit_or (bit_or a 4) 1 / 2 / 2 / 2),
)

-- The walk, by what the directory holds.
walk_faults :
    (table_at : ℕ → Entries) (d : Entries) (user : Bool) (v : ℕ)
    → d (v / 2 ^ 22) ≡ 0
    → translate table_at d user v ≡ none
walk_faults table_at d user v e = unfold translate in rw e refl

walk_kernel :
    (table_at : ℕ → Entries) (d : Entries) (user : Bool) (v : ℕ)
    → d (v / 2 ^ 22) ≡ kernel_ptr
    → translate table_at d user v ≡ (if user then none else some (2 ^ 22 + v % 2 ^ 22))
walk_kernel table_at d true v e = unfold translate in rw e refl
walk_kernel table_at d false v e = unfold translate in rw e refl

walk_program :
    (table_at : ℕ → Entries) (d : Entries) (user : Bool) (v n : ℕ)
    → d (v / 2 ^ 22) ≡ n * 2 ^ 22 + 135
    → translate table_at d user v ≡ some (n * 2 ^ 22 + v % 2 ^ 22)
walk_program table_at d user v n e = unfold translate in rw e (ground arith)

walk_table :
    (table_at : ℕ → Entries) (d tb : Entries) (user : Bool) (v a : ℕ)
    → a % 2 ^ 12 ≡ 0
    → table_at a ≡ tb
    → d (v / 2 ^ 22) ≡ a + 7
    → translate table_at d user v ≡ (
        let e = tb (v / 2 ^ 12 % 2 ^ 10) in
        if lets user e then some (e / 2 ^ 12 * 2 ^ 12 + v % 2 ^ 12) else none)
walk_table table_at d tb user v a aligned here e =
    unfold translate in rw (e, frame, here) (ground arith)
  where
    frame : (a + 7) / 2 ^ 12 * 2 ^ 12 ≡ a
    frame = omega arith

frames_agree : ℕ → Bool
frames_agree k = program_map (k + 1) == (k + 2) * 2 ^ 22 + 135

frames_table : holds_below 6 frames_agree ≡ true
unfolding holds_below frames_agree
frames_table = refl

program_map-frame : (n : ℕ) → 1 ≤ n → n ≤ 6 → program_map n ≡ (n + 1) * 2 ^ 22 + 135
unfolding frames_agree
program_map-frame zero lo hi = absurd (omega arith)
program_map-frame (suc k) lo hi =
    ground (arith, holds_below_lem 6 frames_agree k frames_table (omega arith))

abbrev video : ℕ → Option ℕ
video v = if v / 2 ^ 12 == 184 then some v else none

-- Through a page table that names the video memory and nothing else.
walk_video :
    (table_at : ℕ → Entries) (d tb : Entries) (user : Bool) (v a e : ℕ)
    → a % 2 ^ 12 ≡ 0
    → table_at a ≡ tb
    → d (v / 2 ^ 22) ≡ a + 7
    → v / 2 ^ 22 ≡ 0
    → (e ≡ 0x000b_8005) ⊎ (e ≡ 0x000b_8007)
    → ((j : ℕ) → j < 1024 → tb j ≡ (if j == 184 then e else 0))
    → translate table_at d user v ≡ video v
walk_video table_at d tb user v a e aligned here entry low page only =
    walk_table table_at d tb user v a aligned here entry
    ∙ rw (only (v / 2 ^ 12 % 2 ^ 10) (omega arith)) (ground arith)

-- On tables that are zero from the start, with the page tables on page boundaries and read where
-- they stand.
module _ (at : Addresses) (t : Tables) (r : Registers) (table_at : ℕ → Entries) where
  abbrev after : Tables
  after = (paging_init at t r).0

  module _ (n : ℕ) (lo : 1 ≤ n) (hi : n ≤ 6) (empty : (j : ℕ) → t.task_table n j ≡ 0)
      (aligned : at.task_table_at n % 2 ^ 12 ≡ 0)
      (here : table_at (at.task_table_at n) ≡ after.task_table n) where
    task-entry :
        (i : ℕ)
        → i < 1024
        → after.task_directory n i ≡ (
            if i == 32
            then program_map n
            else if i == 1
            then kernel_ptr
            else if i == 0
            then table_entry (at.task_table_at n)
            else 0)
    unfolding paging_init init_tables
    task-entry i h = ground (arith, clear_entries_lem 1024 0 (t.task_directory n) i)

    task_table-entry :
        (j : ℕ) → j < 1024 → after.task_table n j ≡ (if j == 184 then 0x000b_8007 else 0)
    unfolding paging_init init_tables
    task_table-entry j h = ground (arith, empty j)

    -- With the page table of task `n` zero from the start, on a page boundary, and read where it
    -- stands: under the directory of task `n`, with `user` for an access at user level: the 4 MB
    -- from 128 MB on are the task's own frame, the one that begins at 4 MB * (n + 1); the 4 MB from
    -- 4 MB on are the kernel's, at the same addresses, and fault at user level; the page of the
    -- video memory is itself; any other address faults.
    pub paging_init-task :
        (user : Bool) (v : ℕ)
        → v < 2 ^ 32
        → translate table_at (after.task_directory n) user v ≡ (
            if v / 2 ^ 22 == 32
            then some ((n + 1) * 2 ^ 22 + v % 2 ^ 22)
            else if v / 2 ^ 22 == 1
            then (if user then none else some v)
            else if v / 2 ^ 12 == 184
            then some v
            else none)
    paging_init-task user v small = elim (ℕ_discrete (v / 2 ^ 22) 32) [
      | yes e ↦
          walk_program table_at _ user v (n + 1)
            (task-entry (v / 2 ^ 22) (omega arith) ∙ ground (arith, program_map-frame n lo hi))
          ∙ ground arith
      | no n32 ↦ elim (ℕ_discrete (v / 2 ^ 22) 1) [
        | yes e ↦
            walk_kernel table_at _ user v (task-entry (v / 2 ^ 22) (omega arith) ∙ ground arith)
            ∙ ground arith
        | no n1 ↦ elim (ℕ_discrete (v / 2 ^ 22) 0) [
          | yes e ↦
              walk_video table_at _ _ user v (at.task_table_at n) _ aligned here
                (task-entry (v / 2 ^ 22) (omega arith)
                  ∙ ground (arith, table_entry-aligned (at.task_table_at n) (omega arith)))
                e (inr refl) task_table-entry
              ∙ ground arith
          | no n0 ↦
              walk_faults table_at _ user v (task-entry (v / 2 ^ 22) (omega arith) ∙ ground arith)
              ∙ ground arith
        ]
      ]
    ]

  kernel-entry :
      (i : ℕ)
      → i < 1024
      → (paging_init at t r).1.cr3 i
        ≡ (if i == 1 then kernel_ptr else if i == 0 then table_entry at.page_table_at else 0)
  unfolding paging_init init_tables
  kernel-entry i h = ground (arith, clear_entries_lem 1024 0 t.page_directory i)

  kernel_table-entry :
      t.page_table 0 ≡ 0
      → (j : ℕ) → j < 1024
      → after.page_table j ≡ (if j == 184 then 0x000b_8005 else 0)
  unfolding paging_init init_tables
  kernel_table-entry first j h = ground (arith, first, clear_entries_lem 1023 1 t.page_table j)

  -- With entry 0 of the kernel's page table zero from the start, the table on a page boundary, and
  -- read where it stands: under the kernel's directory, which paging_init leaves in CR3: its 4 MB
  -- and the video memory are themselves for the kernel, and any other address faults; at user level
  -- only the video memory is there.
  pub paging_init-kernel :
      at.page_table_at % 2 ^ 12 ≡ 0
      → t.page_table 0 ≡ 0
      → table_at at.page_table_at ≡ after.page_table
      → (user : Bool) (v : ℕ) → v < 2 ^ 32
      → translate table_at (paging_init at t r).1.cr3 user v ≡ (
          if v / 2 ^ 22 == 1
          then (if user then none else some v)
          else if v / 2 ^ 12 == 184
          then some v
          else none)
  paging_init-kernel aligned first here user v small = elim (ℕ_discrete (v / 2 ^ 22) 1) [
    | yes e ↦
        walk_kernel table_at _ user v (kernel-entry (v / 2 ^ 22) (omega arith) ∙ ground arith)
        ∙ ground arith
    | no n1 ↦ elim (ℕ_discrete (v / 2 ^ 22) 0) [
      | yes e ↦
          walk_video table_at _ _ user v at.page_table_at _ aligned here
            (kernel-entry (v / 2 ^ 22) (omega arith)
              ∙ ground (arith, table_entry-aligned at.page_table_at (omega arith)))
            e (inl refl) (kernel_table-entry first)
          ∙ ground arith
      | no n0 ↦
          walk_faults table_at _ user v (kernel-entry (v / 2 ^ 22) (omega arith) ∙ ground arith)
          ∙ ground arith
    ]
  ]

  -- With the tasks' page tables zero from the start, on page boundaries, and read where they stand:
  -- where two different tasks reach one byte, at user level, it lies in the page of the video
  -- memory.
  pub paging_init-apart :
      ((k : ℕ) (j : ℕ) → t.task_table k j ≡ 0)
      → ((k : ℕ) → at.task_table_at k % 2 ^ 12 ≡ 0)
      → ((k : ℕ) → table_at (at.task_table_at k) ≡ after.task_table k)
      → (n m v w p : ℕ) → 1 ≤ n
      → n ≤ 6
      → 1 ≤ m
      → m ≤ 6
      → v < 2 ^ 32
      → w < 2 ^ 32
      → n ≢ m
      → translate table_at (after.task_directory n) true v ≡ some p
      → translate table_at (after.task_directory m) true w ≡ some p
      → p / 2 ^ 12 ≡ 184
  paging_init-apart empty aligned here n m v w p n1 n6 m1 m6 hv hw ne en em = ground (
    arith,
    sym en ∙ paging_init-task n n1 n6 (empty n) (aligned n) (here n) true v hv,
    sym em ∙ paging_init-task m m1 m6 (empty m) (aligned m) (here m) true w hw,
  )
