-- ===== src/FileSystem/Data/Image.antt =====
-- The file system image in memory: inodes, data blocks, and the bytes of a file.
use mp.Base.{ℕ, ◌+◌, ◌*◌, ◌/◌, ◌%◌, ◌≤◌, ◌<◌, ◌≡◌, ap, arith, u32}
use mp.Memory.{Mem, load32}
use mp.Kernel.{FileSystem}
use mp.FileSystem.{block_ptr, block_size}

-- The inode at `iptr` and the blocks it names lie in the file system image, between `lo` and `hi`.
pub record IsImage (fs : FileSystem) (m : Mem) (iptr lo hi : ℕ) : Type 0 where
  pub inode_lo : lo ≤ iptr
  pub inode_hi : iptr + block_size ≤ hi
  pub block_lo : (i : ℕ) → i < 1023 → lo ≤ block_ptr m fs iptr i
  pub block_hi : (i : ℕ) → i < 1023 → block_ptr m fs iptr i + block_size ≤ hi

-- Byte `j` of the file, as its inode lays it out.
abbrev pub file_byte : FileSystem → Mem → ℕ → ℕ → ℕ
file_byte fs m iptr j = m (block_ptr m fs iptr (j / block_size) + j % block_size)

-- The most that one inode can name.
abbrev pub max_length : ℕ
max_length = 1023 * 4096

-- The second memory still has the image.
abbrev pub Keeps : Mem → ℕ → ℕ → Mem → Type 0
Keeps m lo hi m' = (a : ℕ) → lo ≤ a → a < hi → m' a ≡ m a

module _ (fs : FileSystem) (m : Mem) (iptr lo hi : ℕ) (image : IsImage fs m iptr lo hi) where
  pub load32-Keeps :
      (m' : Mem) (a : ℕ) → Keeps m lo hi m' → lo ≤ a → a + 4 ≤ hi → load32 m' a ≡ load32 m a
  load32-Keeps m' a k p q = rw (
    k a p (omega arith),
    k (a + 1) (omega arith) (omega arith),
    k (a + 2) (omega arith) (omega arith),
    k (a + 3) (omega arith) (omega arith),
  )

  pub block_ptr-Keeps :
      (m' : Mem) (i : ℕ)
      → Keeps m lo hi m'
      → i < 1023
      → block_ptr m' fs iptr i ≡ block_ptr m fs iptr i
  block_ptr-Keeps m' i k h =
      ap (λ t. u32 (fs.data_start + t * 4096))
        (load32-Keeps m' (iptr + (i + 1) * 4) k (omega (arith, image.inode_lo))
          (omega (arith, image.inode_hi)))

  pub file_byte-Keeps :
      (m' : Mem) (j : ℕ)
      → Keeps m lo hi m'
      → j < max_length
      → file_byte fs m' iptr j ≡ file_byte fs m iptr j
  file_byte-Keeps m' j k h = rw (block_ptr-Keeps m' (j / block_size) k (omega arith)) (
      k (block_ptr m fs iptr (j / block_size) + j % block_size)
        (omega (arith, image.block_lo (j / block_size) (omega arith)))
        (omega (arith, image.block_hi (j / block_size) (omega arith))))

  pub IsImage-Keeps : (m' : Mem) → Keeps m lo hi m' → IsImage fs m' iptr lo hi
  IsImage-Keeps m' k = record {
    inode_lo = image.inode_lo;
    inode_hi = image.inode_hi;
    block_lo = λ i h. rw (block_ptr-Keeps m' i k h) (image.block_lo i h);
    block_hi = λ i h. rw (block_ptr-Keeps m' i k h) (image.block_hi i h);
  }
