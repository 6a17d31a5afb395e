-- ===== src/Calls/Serving.antt =====
-- The reads of a file of the image one after the other, as a program sees them.
use mp.Base.{
  ℕ, ◌+◌, ◌-◌, ◌≡◌, ◌≢◌, ◌≤◌, ◌<◌, ◌^◌, refl, ap, ◌∙◌, arith, min, some, Option, none, ltb, get_or,
  if◌then◌else◌, dec_lt,
}
use mp.Memory.{Mem, load32}
use mp.Kernel.{Kernel, FileSystem, filesystem_fops, file_of, dentry_of, zero_dentry}
use mp.FileSystem.{inode_ptr, read_data, clear_buf}
use mp.FileSystem.Data.Image.{
  IsImage, IsImage-Keeps, load32-Keeps, file_byte-Keeps, file_byte, max_length, Keeps,
}
use mp.FileSystem.Data.Rounds.{Holds-outside, Avoids, clear_buf-Holds}
use mp.SystemCalls.Opening.{IsTable}
use mp.Files.{finish_read}
use mp.Machine.{Machine, put_kernel}
use mp.Programs.Cat.Copying.{Serves}
use mp.Calls.{read, answer_kernel}
use mp.Calls.Reading.{Delivers, read-Delivers, read-driver, filesystem_read-data}
use mp.Calls.OpenRead.{Delivers-at}
use mp.Calls.System.{kernel_os, returned}

-- The file with the inode `inode` of the image `fs`: where it stands, its size and its bytes.
pub record HasFile (fs : FileSystem) (mem : Mem) (inode size lo hi : ℕ) (content : Mem)
    : Type 0 where
  pub image : IsImage fs mem (inode_ptr fs inode) lo hi
  pub length : load32 mem (inode_ptr fs inode) ≡ size
  pub bytes : (j : ℕ) → j < size → file_byte fs mem (inode_ptr fs inode) j ≡ content j

-- Descriptor `fd` is open on that file, at position `pos`.
pub record IsOpen (fs : FileSystem) (fd inode pos : ℕ) (k : Kernel) : Type 0 where
  pub filesystem : k.filesystem ≡ fs
  pub table : IsTable k.pcblock
  pub opened : (file_of k.pcblock fd).flags ≢ 0
  pub driver : (file_of k.pcblock fd).fops_ptr ≡ filesystem_fops
  pub regular : (dentry_of k.pcblock fd).file_type ≢ 1
  pub inode_number : (dentry_of k.pcblock fd).inode_number ≡ inode
  pub position : (file_of k.pcblock fd).fpos ≡ pos

module _ (fuel rounds : ℕ) (m : Machine) (fd : ℕ) (t : IsTable m.system.kernel.pcblock)
    (range : fd < 8) (opened : (file_of m.system.kernel.pcblock fd).flags ≢ 0)
    (files : (file_of m.system.kernel.pcblock fd).fops_ptr ≡ filesystem_fops)
    (regular : (dentry_of m.system.kernel.pcblock fd).file_type ≢ 1) (buf length : ℕ)
    (pointer : buf ≢ 0) (count : length < 2 ^ 31) where
  abbrev kernel : Kernel
  kernel = m.system.kernel

  abbrev iptr : ℕ
  iptr = inode_ptr kernel.filesystem (dentry_of kernel.pcblock fd).inode_number

  abbrev offset : ℕ
  offset = (file_of kernel.pcblock fd).fpos

  abbrev cleared : Mem
  cleared = clear_buf length kernel.mem buf

  read_data-end :
      load32 cleared iptr ≤ offset
      → read_data kernel.filesystem kernel.mem
          (dentry_of kernel.pcblock fd).inode_number
          offset
          buf
          length
        ≡ some (record { rval = 0; mem = cleared; fpos = none })
  unfolding read_data
  read_data-end h = ground arith

  -- read from the end of the file on returns 0.
  pub read-end :
      load32 cleared iptr ≤ offset
      → Delivers m fd iptr offset buf length 0 (read fuel rounds m fd buf length)
  read-end h = record {
    result = record kernel { fd_val = fd; mem = cleared };
    answer =
        read-driver fuel rounds m fd t range opened files regular buf length pointer count
        ∙ ap (answer_kernel m) (
            filesystem_read-data fuel rounds m fd t range opened files regular buf length pointer
              count (record { rval = 0; mem = cleared; fpos = none }) (read_data-end h))
        ∙ (unfold finish_read answer_kernel in refl);
    bytes = λ b. ground (arith, clear_buf-Holds length kernel.mem buf b);
    position = omega arith;
    others = λ j ne. refl;
    flags = refl;
    table = refl;
    entries = refl;
    filesystem = refl;
    still_table = t;
  }

-- The state in which a program reads the file: descriptor `fd` is at position `pos` of it.
pub record ReadsAt (fs : FileSystem) (fd inode size lo hi : ℕ) (content : Mem) (m : Machine)
    (pos : ℕ) : Type 0 where
  pub open_at : IsOpen fs fd inode pos m.system.kernel
  pub file : HasFile fs m.system.kernel.mem inode size lo hi content

module _ (fs : FileSystem) (fd inode size lo hi : ℕ) (content : Mem) (range : fd < 8)
    (registered : inode + 1 < fs.num_inodes) (inodes : fs.num_inodes < 2 ^ 32)
    (fits : size ≤ max_length) (buf : ℕ) (pointer : buf ≢ 0) (apart : Avoids buf 1024 lo hi) where
  pub HasFile-Keeps :
      (mem mem' : Mem)
      → Keeps mem lo hi mem'
      → HasFile fs mem inode size lo hi content
      → HasFile fs mem' inode size lo hi content
  HasFile-Keeps mem mem' k f = record {
    image = IsImage-Keeps fs mem (inode_ptr fs inode) lo hi f.image mem' k;
    length =
        load32-Keeps fs mem (inode_ptr fs inode) lo hi f.image mem' (inode_ptr fs inode) k
          f.image.inode_lo (omega (arith, f.image.inode_hi))
        ∙ f.length;
    bytes = λ j lt.
        file_byte-Keeps fs mem (inode_ptr fs inode) lo hi f.image mem' j k (omega arith)
        ∙ f.bytes j lt;
  }

  module _ (fuel rounds : ℕ) (m : Machine) (pos : ℕ)
      (here : ReadsAt fs fd inode size lo hi content m pos) (le : pos ≤ size) where
    abbrev k : Kernel
    k = m.system.kernel

    abbrev now : IsOpen fs fd inode pos k
    now = here.open_at

    same_inode : inode_ptr k.filesystem (dentry_of k.pcblock fd).inode_number ≡ inode_ptr fs inode
    same_inode = rw (now.filesystem, now.inode_number) refl

    same_size : load32 k.mem (inode_ptr k.filesystem (dentry_of k.pcblock fd).inode_number) ≡ size
    same_size = rw same_inode here.file.length

    same_image :
        IsImage k.filesystem k.mem
          (inode_ptr k.filesystem (dentry_of k.pcblock fd).inode_number)
          lo
          hi
    same_image = rw (same_inode, now.filesystem) here.file.image

    cleared_size : load32 (clear_buf 1024 k.mem buf) (inode_ptr fs inode) ≡ size
    cleared_size =
        (HasFile-Keeps k.mem (clear_buf 1024 k.mem buf)
          (Holds-outside k.mem (clear_buf 1024 k.mem buf) buf 1024 lo hi (λ _. 0)
            (clear_buf-Holds 1024 k.mem buf) apart)
          here.file).length

    at_end :
        ¬ pos < size
        → load32
            (clear_buf 1024 k.mem buf)
            (inode_ptr k.filesystem (dentry_of k.pcblock fd).inode_number)
          ≤ (file_of k.pcblock fd).fpos
    at_end ge = rw same_inode (omega (arith, cleared_size, now.position))

    -- The read answers as Delivers says, at the end of the file too.
    pub delivers :
        Delivers m fd
          (inode_ptr fs inode)
          pos
          buf
          1024
          (min 1024 (size - pos))
          (read fuel rounds m fd buf 1024)
    delivers = elim (dec_lt pos size) [
      | yes lt ↦
          Delivers-at m fd _ _ _ _ buf 1024 _ _ _ same_inode now.position
            (ground (arith, same_size, now.position))
            (read-Delivers fuel rounds m fd now.table range now.opened now.driver now.regular buf
              1024 pointer (omega arith) lo hi same_image apart
              (rw (now.inode_number, now.filesystem) registered) (rw (now.filesystem) inodes)
              (ground (arith, same_size)) (ground (arith, same_size, now.position)) (omega arith))
      | no ge ↦ Delivers-at m fd _ _ _ _ buf 1024 _ _ _ same_inode now.position (omega arith) (
          read-end fuel rounds m fd now.table range now.opened now.driver now.regular buf 1024
            pointer (omega arith) (at_end ge))
    ]

    pub after-ReadsAt :
        ReadsAt fs fd inode size lo hi content
          (put_kernel m delivers.result)
          (pos + min 1024 (size - pos))
    after-ReadsAt = record {
      open_at = record {
        filesystem = delivers.filesystem ∙ now.filesystem;
        table = delivers.still_table;
        opened = ground (arith, delivers.flags, now.opened);
        driver = delivers.table ∙ now.driver;
        regular =
            ground
              (arith, ap (λ d. (get_or d fd zero_dentry).file_type) delivers.entries, now.regular);
        inode_number =
            ap (λ d. (get_or d fd zero_dentry).inode_number) delivers.entries ∙ now.inode_number;
        position = delivers.position;
      };
      file =
          HasFile-Keeps k.mem delivers.result.mem
            (Holds-outside k.mem delivers.result.mem buf 1024 lo hi
              (λ j.
                if ltb j (min 1024 (size - pos))
                then file_byte k.filesystem k.mem (inode_ptr fs inode) (pos + j)
                else 0)
              delivers.bytes apart)
            here.file;
    }

    pub delivered :
        (j : ℕ) → j < min 1024 (size - pos) → delivers.result.mem (buf + j) ≡ content (pos + j)
    delivered j lt =
        let place : buf + j - buf ≡ j = omega arith in
        let here_byte : file_byte k.filesystem k.mem (inode_ptr fs inode) (pos + j)
            ≡ content (pos + j) =
          rw now.filesystem (here.file.bytes (pos + j) (omega arith)) in
        ground (
          arith,
          delivers.bytes (buf + j),
          ap (λ (i : ℕ). file_byte k.filesystem k.mem (inode_ptr fs inode) (pos + i)) place,
          here_byte,
        )

  -- The kernel serves a program a file of its image that has at most 1023 blocks and any inode
  -- below num_inodes - 1; the last inode of the image is left out, since read refuses it. With a
  -- buffer of 1024 bytes apart from the file, and in any state in which a descriptor below 8 is
  -- open on the file at a position up to its end, read of 1024 bytes returns how many bytes are
  -- left, at most 1024, delivers exactly these, and leads to such a state with the position behind
  -- them; at the end it returns 0.
  pub kernel_os-Serves :
      (stale fuel rounds prev_b prev_a : ℕ) (runs : Machine → ℕ → Option (ℕ × Machine))
      → Serves
          (kernel_os stale fuel rounds prev_b prev_a runs)
          buf
          fd
          size
          content
          (λ m pos out. ReadsAt fs fd inode size lo hi content m pos)
  kernel_os-Serves stale fuel rounds prev_b prev_a runs = record {
    reads = λ m pos out here le.
        let d = delivers fuel rounds m pos here le in
        (
          put_kernel m d.result,
          ap (returned stale) d.answer ∙ (unfold returned in refl),
          after-ReadsAt fuel rounds m pos here le,
          delivered fuel rounds m pos here le,
        );
  }
