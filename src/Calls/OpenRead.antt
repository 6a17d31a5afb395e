-- ===== src/Calls/OpenRead.antt =====
-- open of a file of the image, and the first read on its descriptor: student-distrib/systemcalls.c
-- with filesystem.c.
use mp.Base.{ℕ, ◌+◌, ◌*◌, ◌≡◌, ◌≢◌, ◌≤◌, ◌<◌, ◌^◌, refl, sym, ◌∙◌, arith, min, Option, some}
use mp.Memory.{load32}
use mp.Memory.Text.{at, IsBytes}
use mp.Kernel.{Kernel, Dentry, file_of, dentry_of}
use mp.FileSystem.{inode_ptr, block_size, max_file, load_dentry, entry}
use mp.FileSystem.Lookup.{HasName}
use mp.FileSystem.Data.Image.{IsImage, max_length}
use mp.FileSystem.Data.Rounds.{Avoids}
use mp.SystemCalls.{open_file, flags_at}
use mp.SystemCalls.Opening.{IsTable, Opened, opened_file, open_file-Opened}
use mp.Machine.{Machine, put_kernel}
use mp.Calls.{Answer, read}
use mp.Calls.Reading.{Delivers, read-Delivers}

load_dentry-inode :
    (m : ℕ → ℕ) (a : ℕ) (d : Dentry) → (load_dentry m a d).inode_number ≡ load32 m (a + 36)
unfolding load_dentry
load_dentry-inode m a d = refl

load_dentry-type :
    (m : ℕ → ℕ) (a : ℕ) (d : Dentry) → (load_dentry m a d).file_type ≡ load32 m (a + 32)
unfolding load_dentry
load_dentry-type m a d = refl

pub Delivers-at :
    (m : Machine) (fd iptr iptr' offset offset' buf length rval rval' : ℕ) (out : Answer)
    → iptr ≡ iptr'
    → offset ≡ offset'
    → rval ≡ rval'
    → Delivers m fd iptr offset buf length rval out
    → Delivers m fd iptr' offset' buf length rval' out
Delivers-at m fd iptr iptr' offset offset' buf length rval rval' out p q r d =
    rw (sym p, sym q, sym r) d

-- `name` is the name of entry `e` and of no entry before it.
pub record FirstNamed (k : Kernel) (name : ℕ → ℕ) (e : ℕ) : Type 0 where
  pub here : e < max_file
  pub has : HasName k.mem k.filesystem name e
  pub first : (j : ℕ) → j < e → ¬ HasName k.mem k.filesystem name j

-- A regular file with `size` bytes, between `lo` and `hi`, that the entry at `place` describes.
pub record IsFile (k : Kernel) (place size lo hi : ℕ) : Type 0 where
  pub kind : load32 k.mem (place + 32) ≡ 2
  pub image : IsImage k.filesystem k.mem (inode_ptr k.filesystem (load32 k.mem (place + 36))) lo hi
  pub registered : load32 k.mem (place + 36) + 1 < k.filesystem.num_inodes
  pub inodes : k.filesystem.num_inodes < 2 ^ 32
  pub length : load32 k.mem (inode_ptr k.filesystem (load32 k.mem (place + 36))) ≡ size
  pub fits : size ≤ max_length

module _ (m : Machine) (fd place : ℕ) (range : fd < 8) (out : Option (ℕ × Kernel))
    (o : Opened m.system.kernel fd place out) (size lo hi : ℕ)
    (f : IsFile m.system.kernel place size lo hi) (fuel rounds buf length : ℕ) (pointer : buf ≢ 0)
    (count : length < 2 ^ 31) (apart : Avoids buf length lo hi) where
  abbrev kernel : Kernel
  kernel = m.system.kernel

  abbrev after : Kernel
  after = o.result

  abbrev inode : ℕ
  inode = load32 kernel.mem (place + 36)

  after-file : file_of after.pcblock fd ≡ opened_file 2 (file_of kernel.pcblock fd)
  after-file = ground (arith, o.files fd, f.kind)

  after-entry :
      dentry_of after.pcblock fd ≡ load_dentry kernel.mem place (dentry_of kernel.pcblock fd)
  after-entry = ground (arith, o.entries fd)

  after-inode : (dentry_of after.pcblock fd).inode_number ≡ inode
  after-inode = rw after-entry (load_dentry-inode kernel.mem place (dentry_of kernel.pcblock fd))

  after-type : (dentry_of after.pcblock fd).file_type ≡ 2
  after-type =
      rw after-entry (load_dentry-type kernel.mem place (dentry_of kernel.pcblock fd)) ∙ f.kind

  after-iptr :
      inode_ptr after.filesystem (dentry_of after.pcblock fd).inode_number
      ≡ inode_ptr kernel.filesystem inode
  after-iptr = rw (o.filesystem, after-inode) refl

  after-size :
      load32 after.mem (inode_ptr after.filesystem (dentry_of after.pcblock fd).inode_number) ≡ size
  after-size = rw (o.mem, after-iptr) f.length

  after-image :
      IsImage after.filesystem after.mem
        (inode_ptr after.filesystem (dentry_of after.pcblock fd).inode_number)
        lo
        hi
  after-image = rw (o.mem, after-iptr, o.filesystem) f.image

  first_read :
      0 < size
      → min length size < 2 * block_size
      → Delivers
          (put_kernel m after)
          fd
          (inode_ptr kernel.filesystem inode)
          0
          buf
          length
          (min length size)
          (read fuel rounds (put_kernel m after) fd buf length)
  first_read some_bytes two =
      Delivers-at (put_kernel m after) fd _ _ _ _ buf length _ _ _ after-iptr
        (ground (arith, after-file)) (ground (arith, after-file, after-size))
        (read-Delivers fuel rounds (put_kernel m after) fd o.table range
          (ground (arith, after-file)) (ground (arith, after-file)) (ground (arith, after-type)) buf
          length pointer count lo hi after-image apart (rw (after-inode, o.filesystem) f.registered)
          (rw (o.filesystem) f.inodes) (ground (arith, after-size, f.fits))
          (ground (arith, after-size, after-file)) (ground (arith, after-size, after-file)))

-- open of the name of a regular file that is not empty, with the lowest free descriptor, and then
-- read on what open returned, with a buffer apart from the file: read returns the size of the file,
-- or the count asked for if that is less, stores so many of the file's first bytes, as long as they
-- are less than two blocks, and moves the position behind them. The file has at most 1023 blocks in
-- the image and an inode below num_inodes - 1: the last inode of the image is left out, since read
-- refuses it.
pub open-read :
    (prev_b prev_a fuel rounds : ℕ) (m : Machine) (filename fd : ℕ)
    → IsTable m.system.kernel.pcblock
    → m.system.kernel.fd_val < 8
    → IsBytes m.system.kernel.mem
    → filename ≢ 0
    → m.system.kernel.mem filename ≢ 0
    → fd < 8
    → 2 ≤ fd
    → flags_at m.system.kernel.pcblock fd ≡ 0
    → ((j : ℕ) → 2 ≤ j → j < fd → flags_at m.system.kernel.pcblock j ≢ 0)
    → (e : ℕ) → FirstNamed m.system.kernel (at m.system.kernel.mem filename) e
    → (size lo hi : ℕ) → IsFile m.system.kernel (entry m.system.kernel.filesystem e) size lo hi
    → 0 < size
    → (buf length : ℕ) → buf ≢ 0
    → length < 2 ^ 31
    → Avoids buf length lo hi
    → min length size < 2 * block_size
    → let k = m.system.kernel in
      let inode = load32 k.mem (entry k.filesystem e + 36) in
      (k' : Kernel) × (open_file prev_b prev_a k filename ≡ some (fd, k'))
      × (k'.mem ≡ k.mem)
      × (k'.filesystem ≡ k.filesystem)
      × Delivers
          (put_kernel m k')
          fd
          (inode_ptr k.filesystem inode)
          0
          buf
          length
          (min length size)
          (read fuel rounds (put_kernel m k') fd buf length)
open-read prev_b prev_a fuel rounds m filename fd t last bytes path nonempty range file free used e
      named size lo hi f some_bytes buf length pointer count apart two =
    let o =
      open_file-Opened prev_b prev_a m.system.kernel filename fd t last bytes path nonempty range
        file free used e named.here named.has named.first in
    (
      o.result,
      o.returns,
      o.mem,
      o.filesystem,
      first_read m fd (entry m.system.kernel.filesystem e) range _ o size lo hi f fuel rounds buf
          length pointer count apart some_bytes two,
    )
