-- ===== src/SystemCalls/Opening.antt =====
-- What open does to the table of file descriptors.
use mp.Base.{
  ℕ, zero, suc, ◌+◌, ◌≤◌, ◌<◌, ◌≡◌, ◌≢◌, refl, ap, ◌∙◌, true, ◌||◌, Option, some, ◌==◌,
  if◌then◌else◌, minus_one, arith, length, length-set, get_or-set, dec_lt,
}
use mp.Memory.{Mem, load32}
use mp.Memory.Text.{at, strncmp, IsBytes}
use mp.Kernel.{
  Kernel, Pcb, Dentry, FileStruct, rtc_fops, filesystem_fops, file_of, dentry_of, with_file,
  with_dentry, zero_dentry, zero_file,
}
use mp.FileSystem.{load_dentry, entry, max_file}
use mp.FileSystem.Lookup.{HasName, read_dentry_by_name-found, read_dentry_by_name-missing}
use mp.SystemCalls.{
  has_name, load_entry, filesystem_open, set_flags, flags_at, find_free, open_found, open_at,
  open_file, save_pcb,
}

pub find_free-found :
    (left i fd : ℕ) (p : Pcb)
    → i ≤ fd
    → fd < i + left
    → flags_at p fd ≡ 0
    → ((j : ℕ) → i ≤ j → j < fd → flags_at p j ≢ 0)
    → find_free left i p ≡ fd
unfolding find_free
find_free-found zero i fd p lo hi free used = absurd (omega arith)
find_free-found (suc left) i fd p lo hi free used = elim (dec_lt i fd) [
  | yes lt ↦ ground (
    arith,
    used i (omega arith) lt,
    find_free-found left (i + 1) fd p (omega arith) (omega arith) free
        (λ j a b. used j (omega arith) b),
  )
  | no ge ↦ let e : fd ≡ i = omega arith in rw e (ground (arith, rw e at free))
]

pub has_name-true : (s : ℕ → ℕ) → IsBytes s → s 0 ≢ 0 → has_name s ≡ true
unfolding has_name strncmp
has_name-true s bytes h = ground (arith, bytes 0)

-- The table of a process has eight files and eight entries.
pub record IsTable (p : Pcb) : Type 0 where
  pub files : length p.file_struct ≡ 8
  pub entries : length p.dentry ≡ 8

pub file_of-with_file :
    (p : Pcb) (i j : ℕ) (f : FileStruct)
    → IsTable p
    → i < 8
    → file_of (with_file p i f) j ≡ (if j == i then f else file_of p j)
file_of-with_file p i j f t h = get_or-set p.file_struct i j f zero_file (omega arith)

pub dentry_of-with_dentry :
    (p : Pcb) (i j : ℕ) (d : Dentry)
    → IsTable p
    → i < 8
    → dentry_of (with_dentry p i d) j ≡ (if j == i then d else dentry_of p j)
dentry_of-with_dentry p i j d t h = get_or-set p.dentry i j d zero_dentry (omega arith)

pub IsTable-with_dentry : (p : Pcb) (i : ℕ) (d : Dentry) → IsTable p → IsTable (with_dentry p i d)
IsTable-with_dentry p i d t = record {
  files = t.files;
  entries = length-set p.dentry i d ∙ t.entries;
}

pub IsTable-with_file : (p : Pcb) (i : ℕ) (f : FileStruct) → IsTable p → IsTable (with_file p i f)
IsTable-with_file p i f t = record {
  files = length-set p.file_struct i f ∙ t.files;
  entries = t.entries;
}

load_dentry-type :
    (m : Mem) (a : ℕ) (d : Dentry) → (load_dentry m a d).file_type ≡ load32 m (a + 32)
unfolding load_dentry
load_dentry-type m a d = refl

load_dentry_twice :
    (m : Mem) (a : ℕ) (d : Dentry) → load_dentry m a (load_dentry m a d) ≡ load_dentry m a d
unfolding load_dentry
load_dentry_twice m a d = refl

-- The file structure of a descriptor that was opened on an entry with type `kind`.
abbrev pub opened_file : ℕ → FileStruct → FileStruct
opened_file kind f =
    if kind == 0
    then record f { flags = 1; fops_ptr = rtc_fops }
    else record f { flags = 1; fpos = 0; fops_ptr = filesystem_fops }

-- What an open of the entry at address `a` leaves, with `fd` as the new descriptor.
pub record Opened (k : Kernel) (fd a : ℕ) (out : Option (ℕ × Kernel)) : Type 0 where
  pub result : Kernel
  pub returns : out ≡ some (fd, result)
  pub mem : result.mem ≡ k.mem
  pub filesystem : result.filesystem ≡ k.filesystem
  pub table : IsTable result.pcblock
  pub files :
      (j : ℕ)
      → file_of result.pcblock j ≡ (
          if j == fd
          then opened_file (load32 k.mem (a + 32)) (file_of k.pcblock j)
          else file_of k.pcblock j)
  pub entries :
      (j : ℕ)
      → dentry_of result.pcblock j ≡ (
          if (j == fd) || (j == k.fd_val)
          then load_dentry k.mem a (dentry_of k.pcblock j)
          else dentry_of k.pcblock j)

module _ (prev_b prev_a : ℕ) (k : Kernel) (filename fd : ℕ) (t : IsTable k.pcblock)
    (last : k.fd_val < 8) (bytes : IsBytes k.mem) (pointer : filename ≢ 0)
    (nonempty : k.mem filename ≢ 0) (range : fd < 8) (file : 2 ≤ fd)
    (free : flags_at k.pcblock fd ≡ 0)
    (used : (j : ℕ) → 2 ≤ j → j < fd → flags_at k.pcblock j ≢ 0) where
  abbrev pub name : ℕ → ℕ
  name = at k.mem filename

  name-IsBytes : IsBytes name
  name-IsBytes i = bytes (filename + i)

  named : has_name name ≡ true
  named = has_name-true name name-IsBytes (λ h. nonempty (ap k.mem (omega arith) ∙ h))

  found_index : find_free 7 2 k.pcblock ≡ fd
  found_index = find_free-found 7 2 fd k.pcblock file (omega arith) free used

  open_file-enters :
      open_file prev_b prev_a k filename
      ≡ some (open_at prev_b prev_a (record k { fd_index = 2 }) name fd)
  unfolding open_file
  open_file-enters = ground (arith, found_index)

  module _ (e : ℕ) (here : e < max_file) (has : HasName k.mem k.filesystem name e)
      (first : (j : ℕ) → j < e → ¬ HasName k.mem k.filesystem name j) where
    abbrev pub place : ℕ
    place = entry k.filesystem e

    abbrev marked : Pcb
    marked = set_flags k.pcblock fd 1

    abbrev loaded : Pcb
    loaded = with_dentry marked fd (load_dentry k.mem place (dentry_of marked fd))

    abbrev loaded_twice : Pcb
    loaded_twice = with_dentry loaded k.fd_val (load_dentry k.mem place (dentry_of loaded k.fd_val))

    abbrev before_driver : Kernel
    before_driver = record k { fd_index = fd; pcblock = loaded_twice }

    open_at-found :
        open_at prev_b prev_a (record k { fd_index = 2 }) name fd
        ≡ open_found prev_b prev_a before_driver fd
    unfolding open_at filesystem_open load_entry
    open_at-found =
        rw
          (
            named,
            read_dentry_by_name-found k.mem k.filesystem name bytes name-IsBytes e
                (dentry_of marked fd) here has first,
            read_dentry_by_name-found k.mem k.filesystem name bytes name-IsBytes e
                (dentry_of loaded k.fd_val) here has first,
          )
          refl

    loaded-IsTable : IsTable loaded
    loaded-IsTable =
        IsTable-with_dentry marked fd _
          (IsTable-with_file k.pcblock fd (record (file_of k.pcblock fd) { flags = 1 }) t)

    loaded_twice-IsTable : IsTable loaded_twice
    loaded_twice-IsTable = IsTable-with_dentry loaded k.fd_val _ loaded-IsTable

    files_before :
        (j : ℕ)
        → file_of loaded_twice j
          ≡ (if j == fd then record (file_of k.pcblock fd) { flags = 1 } else file_of k.pcblock j)
    files_before j = file_of-with_file k.pcblock fd j _ t range

    entries_before :
        (j : ℕ)
        → dentry_of loaded_twice j ≡ (
            if j == k.fd_val
            then load_dentry k.mem place (dentry_of loaded k.fd_val)
            else if j == fd
            then load_dentry k.mem place (dentry_of marked fd)
            else dentry_of k.pcblock j)
    entries_before j =
        dentry_of-with_dentry loaded k.fd_val j _ loaded-IsTable last
        ∙ ap (λ d. if j == k.fd_val then load_dentry k.mem place (dentry_of loaded k.fd_val) else d)
            (dentry_of-with_dentry marked fd j _
              (IsTable-with_file k.pcblock fd (record (file_of k.pcblock fd) { flags = 1 }) t)
              range)

    type_before : (dentry_of loaded_twice fd).file_type ≡ load32 k.mem (place + 32)
    type_before = ground (
      arith,
      entries_before fd,
      load_dentry-type k.mem place (dentry_of loaded k.fd_val),
      load_dentry-type k.mem place (dentry_of marked fd),
    )

    abbrev opened : Kernel
    opened = (open_found prev_b prev_a before_driver fd).1

    open_found-index : open_found prev_b prev_a before_driver fd ≡ (fd, opened)
    unfolding open_found
    open_found-index = ground arith

    opened-mem : opened.mem ≡ k.mem
    unfolding open_found
    opened-mem = ground arith

    opened-filesystem : opened.filesystem ≡ k.filesystem
    unfolding open_found
    opened-filesystem = ground arith

    opened-files : length opened.pcblock.file_struct ≡ 8
    unfolding open_found
    opened-files = ground (
      arith,
      loaded_twice-IsTable.files,
      length-set loaded_twice.file_struct fd
          (record (file_of loaded_twice fd) { flags = 1; fops_ptr = rtc_fops }),
      length-set loaded_twice.file_struct fd
          (record (file_of loaded_twice fd) { fpos = 0; fops_ptr = filesystem_fops }),
    )

    opened-dentry : opened.pcblock.dentry ≡ loaded_twice.dentry
    unfolding open_found
    opened-dentry = ground arith

    opened-file :
        (j : ℕ)
        → file_of opened.pcblock j ≡ (
            if j == fd
            then (if load32 k.mem (place + 32) == 0
                then record (file_of loaded_twice fd) { flags = 1; fops_ptr = rtc_fops }
                else record (file_of loaded_twice fd) { fpos = 0; fops_ptr = filesystem_fops })
            else file_of loaded_twice j)
    unfolding open_found
    opened-file j = ground (
      arith,
      type_before,
      file_of-with_file loaded_twice fd j
          (record (file_of loaded_twice fd) { flags = 1; fops_ptr = rtc_fops }) loaded_twice-IsTable
          range,
      file_of-with_file loaded_twice fd j
          (record (file_of loaded_twice fd) { fpos = 0; fops_ptr = filesystem_fops })
          loaded_twice-IsTable range,
    )

    opened-entry :
        (j : ℕ)
        → dentry_of loaded_twice j ≡ (
            if (j == fd) || (j == k.fd_val)
            then load_dentry k.mem place (dentry_of k.pcblock j)
            else dentry_of k.pcblock j)
    opened-entry j = ground (
      arith,
      entries_before j,
      dentry_of-with_dentry marked fd k.fd_val (load_dentry k.mem place (dentry_of marked fd))
          (IsTable-with_file k.pcblock fd (record (file_of k.pcblock fd) { flags = 1 }) t) range,
      load_dentry_twice k.mem place (dentry_of k.pcblock j),
    )

    -- open of a name that a directory entry has, with a free descriptor: it takes the lowest free
    -- one, `fd`; fills its entry from the directory; sets the clock's or the file system's jump
    -- table by the entry's type, and position 0 for a file; it leaves every other file structure as
    -- it was. It also loads the new file's entry into that of `fd_val`, the descriptor last read or
    -- closed, whichever file that one holds; it leaves the remaining entries, the memory and the
    -- image as they were.
    pub open_file-Opened : Opened k fd place (open_file prev_b prev_a k filename)
    open_file-Opened = record {
      result = opened;
      returns = open_file-enters ∙ ap some (open_at-found ∙ open_found-index);
      mem = opened-mem;
      filesystem = opened-filesystem;
      table = record {
        files = opened-files;
        entries = rw opened-dentry loaded_twice-IsTable.entries;
      };
      files = λ j. ground (arith, opened-file j, files_before j, files_before fd);
      entries = λ j. rw opened-dentry (opened-entry j);
    }

  -- open of a name that no directory entry has, with a free descriptor, returns -1 and leaves every
  -- file structure and every entry of the table as it was.
  pub open_file-missing :
      ((j : ℕ) → j < max_file → ¬ HasName k.mem k.filesystem name j)
      → (k' : Kernel) × (open_file prev_b prev_a k filename ≡ some (minus_one, k'))
        × ((j : ℕ) → file_of k'.pcblock j ≡ file_of k.pcblock j)
        × ((j : ℕ) → dentry_of k'.pcblock j ≡ dentry_of k.pcblock j)
  open_file-missing unnamed = (
    failed,
    open_file-enters ∙ ap some fails,
    λ j. ground (
      arith,
      file_of-with_file kept fd j (record (file_of kept fd) { flags = 0 }) kept-IsTable range,
      file_of-with_file k.pcblock fd j (record (file_of k.pcblock fd) { flags = 1 }) t range,
      file_of-with_file k.pcblock fd fd (record (file_of k.pcblock fd) { flags = 1 }) t range,
      was_free,
    ),
    λ j. ground (
      arith,
      dentry_of-with_dentry once k.fd_val j (dentry_of once k.fd_val) once-IsTable last,
      dentry_of-with_dentry once k.fd_val k.fd_val (dentry_of once k.fd_val) once-IsTable last,
      dentry_of-with_dentry marked_only fd j (dentry_of marked_only fd) marked-IsTable range,
      dentry_of-with_dentry marked_only fd k.fd_val (dentry_of marked_only fd) marked-IsTable range,
    ),
  )
    where
      marked_only : Pcb
      marked_only = set_flags k.pcblock fd 1

      once : Pcb
      once = with_dentry marked_only fd (dentry_of marked_only fd)

      kept : Pcb
      kept = with_dentry once k.fd_val (dentry_of once k.fd_val)

      failed : Kernel
      failed = save_pcb (record k { fd_index = fd; pcblock = set_flags kept fd 0 })

      marked-IsTable : IsTable marked_only
      marked-IsTable = IsTable-with_file k.pcblock fd _ t

      once-IsTable : IsTable once
      once-IsTable = IsTable-with_dentry marked_only fd (dentry_of marked_only fd) marked-IsTable

      kept-IsTable : IsTable kept
      kept-IsTable = IsTable-with_dentry once k.fd_val (dentry_of once k.fd_val) once-IsTable

      was_free : (file_of k.pcblock fd).flags ≡ 0
      was_free = unfold flags_at in ground arith

      fails : open_at prev_b prev_a (record k { fd_index = 2 }) name fd ≡ (minus_one, failed)
      fails =
          unfold open_at filesystem_open load_entry in
          rw
            (
              named,
              read_dentry_by_name-missing k.mem k.filesystem name bytes name-IsBytes
                  (dentry_of marked_only fd) unnamed,
              read_dentry_by_name-missing k.mem k.filesystem name bytes name-IsBytes
                  (dentry_of once k.fd_val) unnamed,
            )
            refl

-- With descriptors 2 to 7 in use and bytes 12 to 15 of entry 0 zero, as they are from the start,
-- open returns -1 and changes only `fd_index`, which it leaves at 8.
pub open_file-full :
    (prev_b prev_a : ℕ) (k : Kernel) (filename : ℕ)
    → filename ≢ 0
    → ((j : ℕ) → 2 ≤ j → j < 8 → (file_of k.pcblock j).flags ≢ 0)
    → flags_at k.pcblock 8 ≡ 0
    → open_file prev_b prev_a k filename ≡ some (minus_one, record k { fd_index = 8 })
unfolding open_file
open_file-full prev_b prev_a k filename pointer busy behind = ground (
  arith,
  find_free-found 7 2 8 k.pcblock (omega arith) (omega arith) behind
      (λ j lo hi. unfold flags_at in ground (arith, busy j lo hi)),
)
