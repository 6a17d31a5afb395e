-- ===== src/FileSystem/Data.antt =====
-- read_data: when it returns the bytes of the file, and when it does not.
pub mod Rounds
pub mod Image
pub mod Blocks
use mp.Base.{
  ℕ, zero, suc, ◌+◌, ◌-◌, ◌*◌, ◌/◌, ◌%◌, ◌^◌, ◌≤◌, ◌<◌, ◌≡◌, ◌≢◌, ◌⊎◌, inl, inr, refl, sym, ap, ◌∙◌,
  Bool, true, false, Option, none, some, arith, ◌==◌, ltb, leb, if◌then◌else◌, Bool-cases,
  minus_one, sub32, add32, u32, min, dec_lt, dec_le, ltb-true, ltb-false, leb-true, leb-false,
  ℕ_discrete,
}
use mp.Memory.{Mem, store, load32, memcpy, copied}
use mp.Memory.Copy.{memcpy-copied}
use mp.Kernel.{FileSystem}
use mp.FileSystem.{
  inode_ptr, block_ptr, block_size, Cursor, clear_buf, copy_file, read_data, read_valid, cut_length,
  DataRead, first_round, later_round, read_blocks,
}
use mp.FileSystem.Data.Rounds.{
  Holds, Holds-append, Holds-ext, Holds-over, Holds-outside, Avoids, Avoids-shorter, memcpy-Holds,
  clear_buf-Holds, read_blocks-total, read_blocks-done, read_blocks-last, first_round-left,
}
use mp.FileSystem.Data.Image.{
  IsImage, file_byte, max_length, block_ptr-Keeps, file_byte-Keeps, load32-Keeps, IsImage-Keeps,
  Keeps,
}
use mp.FileSystem.Data.Blocks.{Copied, copy_file-whole, copy_file-part, copy_file-Stale, Stale}

copy_file-total :
    (fs : FileSystem) (iptr offset buf : ℕ) (m : Mem) (left : ℕ)
    → (c : Cursor) × (copy_file fs iptr offset buf m left ≡ some c)
unfolding copy_file
copy_file-total fs iptr offset buf m left = elim (Bool-cases (left == 0)) [
  | inl e ↦ (start, rw e)
  | inr e ↦ rw e ((let r = loop in (r.0, r.1)))
]
  where
    start : Cursor
    start = record { mem = m; left = left; i = offset / block_size; bufholder = buf }

    loop :
        (r : Cursor) × (read_blocks
            (left + 1)
            fs
            iptr
            (offset % block_size)
            (first_round fs iptr (offset % block_size) buf start)
          ≡ some r)
        × (r.left ≡ 0)
    loop =
        read_blocks-total fs iptr (offset % block_size) (omega arith) (left + 1) _
          (omega (arith, first_round-left fs iptr (offset % block_size) (omega arith) buf start))

read_valid-total :
    (fs : FileSystem) (m : Mem) (iptr offset buf rval : ℕ)
    → (r : DataRead) × (read_valid fs m iptr offset buf rval ≡ some r)
unfolding read_valid
read_valid-total fs m iptr offset buf rval =
    let c = copy_file-total fs iptr offset buf m rval in
    (
      record { rval = rval; mem = c.0.mem; fpos = some (add32 offset rval) },
      rw (c.1, read_valid) refl,
    )

-- The loop ends whatever the image holds, so that read_data always returns.
pub read_data-total :
    (fs : FileSystem) (m : Mem) (inode offset buf length : ℕ)
    → (r : DataRead) × (read_data fs m inode offset buf length ≡ some r)
unfolding read_data
read_data-total fs m inode offset buf length =
    elim (Bool-cases (leb (load32 m' (inode_ptr fs inode)) offset)) [
      | inl e ↦ (record { rval = 0; mem = m'; fpos = none }, rw e)
      | inr e ↦ elim (Bool-cases (leb (sub32 fs.num_inodes 1) inode)) [
        | inl f ↦ (record { rval = minus_one; mem = m'; fpos = none }, rw (e, f))
        | inr f ↦ rw (e, f) (read_valid-total fs m' (inode_ptr fs inode) offset buf _)
      ]
    ]
  where
    m' : Mem
    m' = clear_buf length m buf

-- What read_data returns, sets and stores when it succeeds on `rval` bytes of a file.
pub record ReturnsFile (fs : FileSystem) (m : Mem) (iptr offset buf length rval : ℕ)
    (out : Option DataRead) : Type 0 where
  pub result : DataRead
  pub returns : out ≡ some result
  pub count : result.rval ≡ rval
  pub position : result.fpos ≡ some (offset + rval)
  pub bytes :
      Holds m buf length
        (λ j. if ltb j rval then file_byte fs m iptr (offset + j) else 0)
        result.mem

module _ (fs : FileSystem) (m : Mem) (inode lo hi : ℕ)
    (image : IsImage fs m (inode_ptr fs inode) lo hi) (buf length : ℕ)
    (apart : Avoids buf length lo hi) where
  abbrev iptr : ℕ
  iptr = inode_ptr fs inode

  abbrev cleared : Mem
  cleared = clear_buf length m buf

  cleared-Keeps : Keeps m lo hi cleared
  cleared-Keeps =
      Holds-outside m cleared buf length lo hi (λ _. 0) (clear_buf-Holds length m buf) apart

  length-cleared : load32 cleared iptr ≡ load32 m iptr
  length-cleared =
      load32-Keeps fs m iptr lo hi image cleared iptr cleared-Keeps (omega (arith, image.inode_lo))
        (omega (arith, image.inode_hi))

  -- The loop, started on the cleared buffer.
  copy_file-Copied :
      (offset rval : ℕ)
      → 0 < rval
      → offset % block_size + rval < 2 * block_size
      → (near : Avoids buf rval lo hi) (inside : offset + rval ≤ max_length)
      → Copied fs cleared iptr lo hi
          (IsImage-Keeps fs m iptr lo hi image cleared cleared-Keeps)
          buf
          offset
          rval
          inside
          near
          (copy_file fs iptr offset buf cleared rval)
  copy_file-Copied offset rval pos two near inside =
      elim (dec_le (offset % block_size + rval) block_size) [
        | yes p ↦
            copy_file-whole fs cleared iptr lo hi
              (IsImage-Keeps fs m iptr lo hi image cleared cleared-Keeps) buf offset rval inside
              near p pos
        | no p ↦
            copy_file-part fs cleared iptr lo hi
              (IsImage-Keeps fs m iptr lo hi image cleared cleared-Keeps) buf offset rval inside
              near (omega arith) two
      ]

  module _ (offset : ℕ) (registered : inode + 1 < fs.num_inodes) (inodes : fs.num_inodes < 2 ^ 32)
      (fits : load32 m iptr ≤ max_length) (before_end : offset < load32 m iptr)
      (no_wrap : offset + length < 2 ^ 32) where
    abbrev rval : ℕ
    rval = min length (load32 m iptr - offset)

    read_data-valid :
        read_data fs m inode offset buf length ≡ read_valid fs cleared iptr offset buf rval
    unfolding read_data cut_length
    read_data-valid = ground (arith, length-cleared)

    read_valid-runs :
        (c : Cursor)
        → copy_file fs iptr offset buf cleared rval ≡ some c
        → read_valid fs cleared iptr offset buf rval
          ≡ some (record { rval = rval; mem = c.mem; fpos = some (offset + rval) })
    unfolding read_valid
    read_valid-runs c h = ground arith

    copied_bytes :
        (c : Cursor)
        → copy_file fs iptr offset buf cleared rval ≡ some c
        → Holds cleared buf rval (λ j. file_byte fs cleared iptr (offset + j)) c.mem
        → ReturnsFile fs m iptr offset buf length rval (read_data fs m inode offset buf length)
    copied_bytes c h holds = record {
      result = record { rval = rval; mem = c.mem; fpos = some (offset + rval) };
      returns = read_data-valid ∙ read_valid-runs c h;
      count = refl;
      position = refl;
      bytes =
          Holds-over m cleared c.mem buf length rval (λ _. 0)
            (λ j. file_byte fs m iptr (offset + j)) (omega arith) (clear_buf-Holds length m buf)
            (Holds-ext cleared c.mem buf rval _ (λ j. file_byte fs m iptr (offset + j)) holds
              (λ j lt.
                file_byte-Keeps fs m iptr lo hi image cleared (offset + j) cleared-Keeps
                  (omega arith)));
    }

    copy_file-nothing :
        rval ≡ 0
        → copy_file fs iptr offset buf cleared rval
          ≡ some (record { mem = cleared; left = rval; i = offset / block_size; bufholder = buf })
    unfolding copy_file
    copy_file-nothing e = ground arith

    pub read_data-ReturnsFile :
        offset % block_size + rval < 2 * block_size
        → ReturnsFile fs m iptr offset buf length rval (read_data fs m inode offset buf length)
    read_data-ReturnsFile two = elim (ℕ_discrete rval 0) [
      | yes e ↦ copied_bytes _ (copy_file-nothing e) (λ b. ground arith)
      | no e ↦
          let inside : offset + rval ≤ max_length = omega arith in
          let near : Avoids buf rval lo hi =
            Avoids-shorter buf rval length lo hi (omega arith) apart in
          let done = copy_file-Copied offset rval (omega arith) two near inside in
          copied_bytes done.result done.returns done.holds
    ]

    -- On an inode below num_inodes - 1, a file of at most 1023 blocks, of which the inode and all
    -- blocks lie in the image, with less than 2 ^ 32 inodes and a sum of `offset` and `length` below 2 ^ 32, before the end of the file
    -- and with a buffer apart from the image: a read from a block boundary with more than two and
    -- less than three blocks to come returns the whole count, but the byte that it stores at any
    -- place `t` behind the second block is byte `t` of the second block once more.
    pub read_data-stale :
        (t : ℕ)
        → offset % block_size ≡ 0
        → 2 * block_size < rval
        → rval < 3 * block_size
        → 2 * block_size + t < rval
        → (r : DataRead) × (read_data fs m inode offset buf length ≡ some r)
          × (r.rval ≡ rval)
          × (r.mem (buf + (2 * block_size + t)) ≡ file_byte fs m iptr (offset + (block_size + t)))
    read_data-stale t aligned more less lt = (
      record { rval = rval; mem = done.result.mem; fpos = some (offset + rval) },
      read_data-valid ∙ read_valid-runs done.result done.returns,
      refl,
      done.again t lt
          ∙ file_byte-Keeps fs m iptr lo hi image cleared (offset + (block_size + t)) cleared-Keeps
              (omega arith),
    )
      where
        done :
            Stale fs cleared iptr lo hi
              (IsImage-Keeps fs m iptr lo hi image cleared cleared-Keeps)
              buf
              offset
              rval
              (omega arith)
              (Avoids-shorter buf rval length lo hi (omega arith) apart)
              (copy_file fs iptr offset buf cleared rval)
        done =
            copy_file-Stale fs cleared iptr lo hi
              (IsImage-Keeps fs m iptr lo hi image cleared cleared-Keeps) buf offset rval
              (omega arith) (Avoids-shorter buf rval length lo hi (omega arith) apart) aligned more
              less
