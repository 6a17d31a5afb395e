-- ===== src/Calls/Reading.antt =====
-- read on a file of the image, and open before it: student-distrib/systemcalls.c with
-- filesystem.c.
use mp.Base.{
  ℕ, ◌+◌, ◌*◌, ◌%◌, ◌-◌, ◌≡◌, ◌≢◌, ◌≤◌, ◌<◌, ◌^◌, refl, ap, ◌∙◌, arith, min, some, ltb, ◌==◌,
  if◌then◌else◌,
}
use mp.Memory.{load32}
use mp.Kernel.{Kernel, filesystem_fops, file_of, dentry_of, with_file}
use mp.FileSystem.{inode_ptr, block_size, read_data, DataRead}
use mp.FileSystem.Data.{ReturnsFile, read_data-ReturnsFile}
use mp.FileSystem.Data.Image.{IsImage, file_byte, max_length}
use mp.FileSystem.Data.Rounds.{Holds, Avoids}
use mp.SystemCalls.Opening.{IsTable, file_of-with_file, IsTable-with_file}
use mp.Files.{filesystem_read, finish_read}
use mp.Machine.{Machine, put_kernel}
use mp.Calls.{Answer, returns, read, fops_read, answer_kernel}
use mp.Calls.Dispatch.{is_bad-open}

-- What read on descriptor `fd` answers when it delivers `rval` bytes of the file of `iptr` from
-- position `offset` on: the count, the bytes and then zeros in the buffer and nothing elsewhere, the
-- position behind the bytes, and all else of the table as it was.
pub record Delivers (m : Machine) (fd iptr offset buf length rval : ℕ) (out : Answer) : Type 0 where
  pub result : Kernel
  pub answer : out ≡ returns (some rval) (put_kernel m result)
  pub bytes :
      Holds m.system.kernel.mem buf length
        (λ j.
          if ltb j rval
          then file_byte m.system.kernel.filesystem m.system.kernel.mem iptr (offset + j)
          else 0)
        result.mem
  pub position : (file_of result.pcblock fd).fpos ≡ offset + rval
  pub others : (j : ℕ) → j ≢ fd → file_of result.pcblock j ≡ file_of m.system.kernel.pcblock j
  pub flags : (file_of result.pcblock fd).flags ≡ (file_of m.system.kernel.pcblock fd).flags
  pub table : (file_of result.pcblock fd).fops_ptr ≡ (file_of m.system.kernel.pcblock fd).fops_ptr
  pub entries : result.pcblock.dentry ≡ m.system.kernel.pcblock.dentry
  pub filesystem : result.filesystem ≡ m.system.kernel.filesystem
  pub still_table : IsTable result.pcblock

module _ (fuel rounds : ℕ) (m : Machine) (fd : ℕ) (t : IsTable m.system.kernel.pcblock)
    (range : fd < 8) (opened : (file_of m.system.kernel.pcblock fd).flags ≢ 0)
    (files : (file_of m.system.kernel.pcblock fd).fops_ptr ≡ filesystem_fops)
    (regular : (dentry_of m.system.kernel.pcblock fd).file_type ≢ 1) (buf length : ℕ)
    (pointer : buf ≢ 0) (count : length < 2 ^ 31) where
  abbrev kernel : Kernel
  kernel = m.system.kernel

  abbrev inode : ℕ
  inode = (dentry_of kernel.pcblock fd).inode_number

  abbrev offset : ℕ
  offset = (file_of kernel.pcblock fd).fpos

  pub read-driver :
      read fuel rounds m fd buf length ≡ answer_kernel m (filesystem_read fuel kernel fd buf length)
  unfolding read fops_read
  read-driver = rw (is_bad-open m fd buf length pointer range opened count, files) refl

  pub filesystem_read-data :
      (r : DataRead)
      → read_data kernel.filesystem kernel.mem inode offset buf length ≡ some r
      → filesystem_read fuel kernel fd buf length
        ≡ some (finish_read (record kernel { fd_val = fd }) r)
  unfolding filesystem_read
  filesystem_read-data r h = ground arith

  moved-file :
      (j pos : ℕ)
      → file_of (with_file kernel.pcblock fd (record (file_of kernel.pcblock fd) { fpos = pos })) j
        ≡ (if j == fd
            then record (file_of kernel.pcblock fd) { fpos = pos }
            else file_of kernel.pcblock j)
  moved-file j pos = file_of-with_file kernel.pcblock fd j _ t range

  read_data-Delivers :
      (rval : ℕ)
      → ReturnsFile kernel.filesystem kernel.mem
          (inode_ptr kernel.filesystem inode)
          offset
          buf
          length
          rval
          (read_data kernel.filesystem kernel.mem inode offset buf length)
      → Delivers m fd
          (inode_ptr kernel.filesystem inode)
          offset
          buf
          length
          rval
          (read fuel rounds m fd buf length)
  read_data-Delivers rval done = record {
    result = record kernel {
      fd_val = fd;
      mem = done.result.mem;
      pcblock =
          with_file kernel.pcblock fd (record (file_of kernel.pcblock fd) { fpos = offset + rval });
    };
    answer =
        read-driver
        ∙ ap (answer_kernel m) (filesystem_read-data done.result done.returns)
        ∙ (unfold finish_read answer_kernel in rw (done.position, done.count) refl);
    bytes = done.bytes;
    position = ground (arith, moved-file fd (offset + rval));
    others = λ j h. ground (arith, moved-file j (offset + rval));
    flags = ground (arith, moved-file fd (offset + rval));
    table = ground (arith, moved-file fd (offset + rval));
    entries = refl;
    filesystem = refl;
    still_table = IsTable-with_file kernel.pcblock fd _ t;
  }

  module _ (lo hi : ℕ)
      (image : IsImage kernel.filesystem kernel.mem (inode_ptr kernel.filesystem inode) lo hi)
      (apart : Avoids buf length lo hi) (registered : inode + 1 < kernel.filesystem.num_inodes)
      (inodes : kernel.filesystem.num_inodes < 2 ^ 32)
      (fits : load32 kernel.mem (inode_ptr kernel.filesystem inode) ≤ max_length)
      (before_end : offset < load32 kernel.mem (inode_ptr kernel.filesystem inode)) where
    abbrev iptr : ℕ
    iptr = inode_ptr kernel.filesystem inode

    abbrev rval : ℕ
    rval = min length (load32 kernel.mem iptr - offset)

    -- read on an open descriptor of a file that is not a directory, before the end of the file, with a buffer
    -- apart from the image, as long as the bytes end before the third block from the one where they
    -- begin.
    pub read-Delivers :
        offset % block_size + rval < 2 * block_size
        → Delivers m fd iptr offset buf length rval (read fuel rounds m fd buf length)
    read-Delivers two = read_data-Delivers rval (
        read_data-ReturnsFile kernel.filesystem kernel.mem inode lo hi image buf length apart offset
          registered inodes fits before_end (omega arith) two)
