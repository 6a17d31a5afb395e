-- ===== src/FileSystem/Data/Blocks.antt =====
-- What the loop of read_data copies when the read touches at most two blocks.
use mp.Base.{
  ℕ, ◌+◌, ◌-◌, ◌*◌, ◌/◌, ◌%◌, ◌≤◌, ◌<◌, ◌≡◌, ◌⊎◌, inl, inr, refl, ap, ◌∙◌, Option, some, arith,
}
use mp.Memory.{Mem, memcpy}
use mp.Kernel.{FileSystem}
use mp.FileSystem.{block_ptr, block_size, Cursor, copy_file, first_round, later_round, read_blocks}
use mp.FileSystem.Data.Rounds.{
  Holds, Holds-append, Holds-ext, Holds-outside, Avoids, Avoids-shorter, memcpy-Holds,
  read_blocks-done, read_blocks-last,
}
use mp.FileSystem.Data.Image.{IsImage, file_byte, max_length, block_ptr-Keeps, Keeps}

module _ (fs : FileSystem) (m : Mem) (iptr lo hi : ℕ) (image : IsImage fs m iptr lo hi) where
  module _ (buf offset left : ℕ) (inside : offset + left ≤ max_length)
      (apart : Avoids buf left lo hi) where
    abbrev pub start_cursor : Cursor
    start_cursor = record { mem = m; left = left; i = offset / block_size; bufholder = buf }

    -- What a round copies from block `offset / 4096`, as bytes of the file.
    in_block :
        (j : ℕ)
        → offset % block_size + j < block_size
        → block_ptr m fs iptr (offset / block_size) + offset % block_size + j
          ≡ block_ptr m fs iptr ((offset + j) / block_size) + (offset + j) % block_size
    in_block j h =
        let q : (offset + j) / block_size ≡ offset / block_size = omega arith in rw q (omega arith)

    in_next_block :
        (j : ℕ)
        → j < block_size
        → block_ptr m fs iptr (offset / block_size + 1) + j
          ≡ block_ptr m fs iptr ((offset + (block_size - offset % block_size + j)) / block_size)
            + (offset + (block_size - offset % block_size + j)) % block_size
    in_next_block j h =
        let q : (offset + (block_size - offset % block_size + j)) / block_size
            ≡ offset / block_size + 1 =
          omega arith in
        rw q (omega arith)

    -- The file as the buffer should hold it.
    abbrev pub wanted : ℕ → ℕ
    wanted j = file_byte fs m iptr (offset + j)

    first_round-whole :
        offset % block_size + left ≤ block_size
        → 0 < left
        → (first_round fs iptr (offset % block_size) buf start_cursor ≡ record start_cursor {
          mem = memcpy m buf (block_ptr m fs iptr (offset / block_size) + offset % block_size) left;
          left = 0;
        })
    unfolding first_round
    first_round-whole h pos = ground arith

    first_round-part :
        block_size < offset % block_size + left
        → (first_round fs iptr (offset % block_size) buf start_cursor ≡ record {
          mem =
              memcpy m buf
                (block_ptr m fs iptr (offset / block_size) + offset % block_size)
                (block_size - offset % block_size);
          left = left - (block_size - offset % block_size);
          i = offset / block_size + 1;
          bufholder = buf + (block_size - offset % block_size);
        })
    unfolding first_round
    first_round-part h = ground arith

    -- The loop returned, and the buffer holds `left` bytes of the file.
    pub record Copied (out : Option Cursor) : Type 0 where
      pub result : Cursor
      pub returns : out ≡ some result
      pub holds : Holds m buf left wanted result.mem

    upward :
        (src dest n : ℕ)
        → lo ≤ src
        → src + n ≤ hi
        → buf ≤ dest
        → dest + n ≤ buf + left
        → (src + n ≤ dest) ⊎ (dest ≤ src)
    upward src dest n p q r t = elim apart [
      | inl below ↦ inr (omega arith)
      | inr above ↦ inl (omega arith)
    ]

    copy_file-enters :
        0 < left
        → copy_file fs iptr offset buf m left
          ≡ read_blocks
              (left + 1)
              fs
              iptr
              (offset % block_size)
              (first_round fs iptr (offset % block_size) buf start_cursor)
    unfolding copy_file
    copy_file-enters pos = ground arith

    pub copy_file-whole :
        offset % block_size + left ≤ block_size
        → 0 < left
        → Copied (copy_file fs iptr offset buf m left)
    copy_file-whole h pos = record {
      result = done;
      returns = runs;
      holds =
          Holds-ext m done.mem buf left (λ j. m (src + j)) wanted
            (memcpy-Holds m buf src left
              (upward src buf left from_lo to_hi (omega arith) (omega arith)))
            (λ j lt. ap m (in_block j (omega arith)));
    }
      where
        block : ℕ
        block = block_ptr m fs iptr (offset / block_size)

        src : ℕ
        src = block + offset % block_size

        from_lo : lo ≤ src
        from_lo = omega (arith, image.block_lo (offset / block_size) (omega arith))

        to_hi : src + left ≤ hi
        to_hi = omega (arith, image.block_hi (offset / block_size) (omega arith))

        done : Cursor
        done = record start_cursor { mem = memcpy m buf src left; left = 0 }

        runs : copy_file fs iptr offset buf m left ≡ some done
        runs =
            copy_file-enters pos
            ∙ rw (first_round-whole h pos) (
                read_blocks-done fs iptr (offset % block_size) (omega arith) (left + 1) done
                  (omega arith) refl)

    -- The read that goes on into the next block: its two pieces.
    abbrev pub head : ℕ
    head = block_size - offset % block_size

    abbrev pub first_src : ℕ
    first_src = block_ptr m fs iptr (offset / block_size) + offset % block_size

    abbrev pub next_src : ℕ
    next_src = block_ptr m fs iptr (offset / block_size + 1)

    module _ (longer : block_size < offset % block_size + left)
        (two : offset % block_size + left < 2 * block_size) where
      abbrev pub mid : Cursor
      mid = record {
        mem = memcpy m buf first_src head;
        left = left - head;
        i = offset / block_size + 1;
        bufholder = buf + head;
      }

      mid-Holds : Holds m buf head (λ j. m (first_src + j)) mid.mem
      mid-Holds = memcpy-Holds m buf first_src head (
          upward first_src buf head
            (omega (arith, image.block_lo (offset / block_size) (omega arith)))
            (omega (arith, image.block_hi (offset / block_size) (omega arith))) (omega arith)
            (omega arith))

      mid-Keeps : Keeps m lo hi mid.mem
      mid-Keeps =
          Holds-outside m mid.mem buf head lo hi (λ j. m (first_src + j)) mid-Holds
            (elim apart [ inl below ↦ inl (omega arith) | inr above ↦ inr above ])

      abbrev pub last : Cursor
      last = record mid { mem = memcpy mid.mem mid.bufholder next_src mid.left; left = 0 }

      later_round-last : later_round fs iptr (offset % block_size) mid ≡ last
      unfolding later_round
      later_round-last = ground (
        arith,
        block_ptr-Keeps fs m iptr lo hi image mid.mem (offset / block_size + 1) mid-Keeps
            (omega arith),
      )

      last-Holds : Holds mid.mem mid.bufholder mid.left (λ j. mid.mem (next_src + j)) last.mem
      last-Holds = memcpy-Holds mid.mem mid.bufholder next_src mid.left (
          upward next_src mid.bufholder mid.left
            (image.block_lo (offset / block_size + 1) (omega arith))
            (omega (arith, image.block_hi (offset / block_size + 1) (omega arith))) (omega arith)
            (omega arith))

      next_wanted : (j : ℕ) → j < mid.left → mid.mem (next_src + j) ≡ wanted (head + j)
      next_wanted j lt =
          mid-Keeps (next_src + j)
            (omega (arith, image.block_lo (offset / block_size + 1) (omega arith)))
            (omega (arith, image.block_hi (offset / block_size + 1) (omega arith)))
          ∙ ap m (in_next_block j (omega arith))

      pub copy_file-part : Copied (copy_file fs iptr offset buf m left)
      copy_file-part = record {
        result = last;
        returns =
            copy_file-enters (omega arith)
            ∙ rw (first_round-part longer) (
                read_blocks-last fs iptr (offset % block_size) (omega arith) (left + 1) mid
                  (omega arith) (omega arith) (ap (λ c. c.left) later_round-last)
                ∙ ap some later_round-last);
        holds =
            (Holds-append m mid.mem last.mem buf head mid.left left (λ j. m (first_src + j))
              (λ j. mid.mem (next_src + j)) wanted (omega arith) mid-Holds last-Holds
              (λ j lt. ap m (in_block j (omega arith))) next_wanted);
      }

    -- The loop returned, and the bytes behind the second block are those of the second block.
    pub record Stale (out : Option Cursor) : Type 0 where
      pub result : Cursor
      pub returns : out ≡ some result
      pub again :
          (t : ℕ)
          → 2 * block_size + t < left
          → result.mem (buf + (2 * block_size + t))
            ≡ file_byte fs m iptr (offset + (block_size + t))

    module _ (aligned : offset % block_size ≡ 0) (more : 2 * block_size < left)
        (less : left < 3 * block_size) where
      abbrev pub one_block : Cursor
      one_block = record {
        mem = memcpy m buf first_src head;
        left = left - head;
        i = offset / block_size + 1;
        bufholder = buf + head;
      }

      one_block-Holds : Holds m buf head (λ j. m (first_src + j)) one_block.mem
      one_block-Holds = memcpy-Holds m buf first_src head (
          upward first_src buf head
            (omega (arith, image.block_lo (offset / block_size) (omega arith)))
            (omega (arith, image.block_hi (offset / block_size) (omega arith))) (omega arith)
            (omega arith))

      one_block-Keeps : Keeps m lo hi one_block.mem
      one_block-Keeps =
          Holds-outside m one_block.mem buf head lo hi (λ j. m (first_src + j)) one_block-Holds
            (Avoids-shorter buf head left lo hi (omega arith) apart)

      abbrev pub two_blocks : Mem
      two_blocks = memcpy one_block.mem (buf + block_size) next_src block_size

      abbrev pub stale : Cursor
      stale = record {
        mem = memcpy two_blocks (buf + 2 * block_size) next_src (left - 2 * block_size);
        left = 0;
        i = offset / block_size + 2;
        bufholder = buf + 2 * block_size;
      }

      later_round-stale : later_round fs iptr (offset % block_size) one_block ≡ stale
      unfolding later_round
      later_round-stale = ground (
        arith,
        block_ptr-Keeps fs m iptr lo hi image one_block.mem (offset / block_size + 1)
            one_block-Keeps (omega arith),
        aligned,
      )

      two_blocks-Holds :
          Holds one_block.mem
            (buf + block_size)
            block_size
            (λ j. one_block.mem (next_src + j))
            two_blocks
      two_blocks-Holds = memcpy-Holds one_block.mem (buf + block_size) next_src block_size (
          upward next_src (buf + block_size) block_size
            (image.block_lo (offset / block_size + 1) (omega arith))
            (image.block_hi (offset / block_size + 1) (omega arith)) (omega arith) (omega arith))

      near : Avoids (buf + block_size) block_size lo hi
      near = elim apart [ inl below ↦ inl (omega arith) | inr above ↦ inr (omega arith) ]

      two_blocks-Keeps : Keeps m lo hi two_blocks
      two_blocks-Keeps a p q =
          Holds-outside one_block.mem two_blocks (buf + block_size) block_size lo hi
            (λ j. one_block.mem (next_src + j)) two_blocks-Holds near a p q
          ∙ one_block-Keeps a p q

      stale-Holds :
          Holds two_blocks
            (buf + 2 * block_size)
            (left - 2 * block_size)
            (λ j. two_blocks (next_src + j))
            stale.mem
      stale-Holds =
          memcpy-Holds two_blocks (buf + 2 * block_size) next_src (left - 2 * block_size) (
            upward next_src (buf + 2 * block_size) (left - 2 * block_size)
              (image.block_lo (offset / block_size + 1) (omega arith))
              (omega (arith, image.block_hi (offset / block_size + 1) (omega arith))) (omega arith)
              (omega arith))

      stale_byte :
          (t : ℕ)
          → 2 * block_size + t < left
          → stale.mem (buf + (2 * block_size + t)) ≡ two_blocks (next_src + t)
      stale_byte t lt = ground (arith, stale-Holds (buf + (2 * block_size + t)), place)
        where
          place : buf + (2 * block_size + t) - (buf + 2 * block_size) ≡ t
          place = omega arith

      second_block :
          (t : ℕ)
          → t < block_size
          → two_blocks (next_src + t) ≡ file_byte fs m iptr (offset + (block_size + t))
      second_block t lt =
          two_blocks-Keeps (next_src + t)
            (omega (arith, image.block_lo (offset / block_size + 1) (omega arith)))
            (omega (arith, image.block_hi (offset / block_size + 1) (omega arith)))
          ∙ ap m (in_next_block t lt)
          ∙ ap (λ k. wanted (k + t)) (omega arith)

      pub copy_file-Stale : Stale (copy_file fs iptr offset buf m left)
      copy_file-Stale = record {
        result = stale;
        returns =
            copy_file-enters (omega arith)
            ∙ rw (first_round-part (omega arith)) (
                read_blocks-last fs iptr (offset % block_size) (omega arith) (left + 1) one_block
                  (omega arith) (omega arith) (ap (λ c. c.left) later_round-stale)
                ∙ ap some later_round-stale);
        again = λ t lt. stale_byte t lt ∙ second_block t (omega arith);
      }
