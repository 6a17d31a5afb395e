-- ===== src/SystemCalls/Closing.antt =====
-- What close does to the table of file descriptors.
use mp.Base.{ℕ, ◌^◌, ◌≤◌, ◌<◌, ◌≡◌, ◌≢◌, ◌⊎◌, ◌∙◌, ◌==◌, if◌then◌else◌, set, minus_one, arith}
use mp.Kernel.{Kernel, Pcb, no_fops, file_of, dentry_of, with_file, zero_dentry}
use mp.SystemCalls.{filesystem_close, set_flags, clear_fops, clear_entry, close_file}
use mp.SystemCalls.Opening.{
  IsTable, file_of-with_file, dentry_of-with_dentry, IsTable-with_file, IsTable-with_dentry,
}

-- close of a descriptor that is no open file's returns -1 and changes nothing: one outside 2 to 7,
-- as an `int32_t`, or one whose flags are not 1.
close_file-rejects :
    (k : Kernel) (fd : ℕ)
    → fd < 2 ^ 32
    → (fd < 2) ⊎ ((7 < fd) ⊎ ((file_of k.pcblock fd).flags ≢ 1))
    → close_file k fd ≡ (minus_one, k)
unfolding close_file
close_file-rejects k fd small h = ground arith

module _ (k : Kernel) (fd : ℕ) (t : IsTable k.pcblock) (file : 2 ≤ fd) (range : fd < 8)
    (flag : (file_of k.pcblock fd).flags ≡ 1) (index : k.fd_index < 8) where
  abbrev cleared : Kernel
  cleared = clear_entry k fd

  abbrev rewound : Pcb
  rewound = with_file k.pcblock fd (record (file_of k.pcblock fd) { fpos = 0 })

  rewound-IsTable : IsTable rewound
  rewound-IsTable = IsTable-with_file k.pcblock fd _ t

  cleared-files :
      cleared.pcblock.file_struct
      ≡ (with_file rewound k.fd_index
          (record (file_of rewound k.fd_index) { fops_ptr = no_fops })).file_struct
  unfolding clear_entry clear_fops
  cleared-files = ground arith

  cleared-dentry : cleared.pcblock.dentry ≡ set k.pcblock.dentry fd zero_dentry
  unfolding clear_entry clear_fops
  cleared-dentry = ground arith

  cleared_file :
      (j : ℕ)
      → file_of cleared.pcblock j ≡ (
          let f = file_of rewound j in
          if j == k.fd_index then record f { fops_ptr = no_fops } else f)
  cleared_file j =
      rw cleared-files
        (file_of-with_file rewound k.fd_index j _ rewound-IsTable index ∙ ground arith)

  cleared-IsTable : IsTable cleared.pcblock
  cleared-IsTable = record {
    files = rw cleared-files (IsTable-with_file rewound k.fd_index _ rewound-IsTable).files;
    entries = rw cleared-dentry (IsTable-with_dentry k.pcblock fd zero_dentry t).entries;
  }

  -- The final table, whichever driver was called.
  abbrev shut : Pcb
  shut = (close_file k fd).1.pcblock

  cleared_type : (dentry_of cleared.pcblock fd).file_type ≡ 0
  cleared_type =
      rw cleared-dentry (ground (arith, dentry_of-with_dentry k.pcblock fd fd zero_dentry t range))

  shut-file :
      (j : ℕ)
      → file_of shut j
        ≡ (let f = file_of cleared.pcblock j in if j == fd then record f { flags = 0 } else f)
  unfolding close_file filesystem_close
  shut-file j = ground (
    arith,
    cleared_type,
    file_of-with_file cleared.pcblock fd j (record (file_of cleared.pcblock fd) { flags = 0 })
        cleared-IsTable range,
    file_of-with_file cleared.pcblock fd fd (record (file_of cleared.pcblock fd) { flags = 0 })
        cleared-IsTable range,
    file_of-with_file (set_flags cleared.pcblock fd 0) fd j
        (record (file_of (set_flags cleared.pcblock fd 0) fd) { flags = 0 })
        (IsTable-with_file cleared.pcblock fd _ cleared-IsTable) range,
  )

  shut-dentry : shut.dentry ≡ cleared.pcblock.dentry
  unfolding close_file filesystem_close
  shut-dentry = ground arith

  -- With a table of eight files and eight entries, a descriptor from 2 to 7 whose flag is 1, and
  -- `fd_index`, for which the last open was, below 8, so that the last open did not find the table
  -- full: close returns 0. It gives the descriptor free, at position 0 and with a zeroed entry, and
  -- leaves all other entries. But it takes the jump table away from `fd_index`, which may be
  -- another file that stays open; of that one the flags and the position stay, and of every further
  -- file all of it.
  pub close_file-table :
      ((close_file k fd).0 ≡ 0)
      × ((j : ℕ)
          → file_of shut j ≡ (
              let f = file_of k.pcblock j in
              let g = if j == fd then record f { fpos = 0; flags = 0 } else f in
              if j == k.fd_index then record g { fops_ptr = no_fops } else g))
      × ((j : ℕ) → dentry_of shut j ≡ (if j == fd then zero_dentry else dentry_of k.pcblock j))
  close_file-table = (
    unfold close_file in ground arith,
    λ j. ground (
      arith,
      shut-file j,
      cleared_file j,
      file_of-with_file k.pcblock fd j (record (file_of k.pcblock fd) { fpos = 0 }) t range,
    ),
    λ j.
        rw (shut-dentry, cleared-dentry) (dentry_of-with_dentry k.pcblock fd j zero_dentry t range),
  )
