-- ===== src/Files/Listing.antt =====
-- What a read of the directory delivers: dirread of student-distrib/filesystem.c.
use mp.Base.{
  ℕ, zero, suc, ◌+◌, ◌^◌, ◌≤◌, ◌<◌, ◌≡◌, ◌≢◌, ◌⊎◌, refl, sym, subst, ap, ◌∙◌, some, arith,
  ℕ_discrete, length, get_or-set_self,
}
use mp.Memory.{Mem, memcpy, copied}
use mp.Memory.Copy.{memcpy-copied, IsUpward}
use mp.Memory.Text.{at, EndsAt}
use mp.Memory.Text.Laws.{strlen-EndsAt}
use mp.Kernel.{Kernel, file_of}
use mp.FileSystem.{entry}
use mp.Files.{with_fpos, next_entry, copy_name, dirread}

-- Entry `j` is the first from `i` on that is not of type 0.
pub record IsNext (k : Kernel) (i j : ℕ) : Type 0 where
  pub above : i ≤ j
  pub listed : k.mem (entry k.filesystem j + 32) ≢ 0
  pub skipped : (l : ℕ) → i ≤ l → l < j → k.mem (entry k.filesystem l + 32) ≡ 0

next_entry-IsNext :
    (fuel : ℕ) (k : Kernel) (i j : ℕ)
    → IsNext k i j
    → j < i + fuel
    → j + 1 < 2 ^ 32
    → next_entry fuel k.mem k i ≡ some (entry k.filesystem j, j + 1)
unfolding next_entry
next_entry-IsNext zero k i j h lt small = absurd (omega (arith, h.above))
next_entry-IsNext (suc fuel) k i j h lt small = elim (ℕ_discrete i j) [
  | yes e ↦
      subst (λ (i : ℕ). next_entry (suc fuel) k.mem k i ≡ some (entry k.filesystem j, j + 1))
        (sym e) (ground (arith, h.listed))
  | no ne ↦ ground (
    arith,
    h.skipped i (omega arith) (omega (arith, h.above)),
    next_entry-IsNext fuel k (i + 1) j
        (record {
          above = omega (arith, h.above);
          listed = h.listed;
          skipped = λ l lo hi. h.skipped l (omega arith) hi;
        })
        (omega arith) small,
  )
]

-- A read of the directory: the name of entry `j` is delivered, and the next read begins behind it.
pub record Listed (k : Kernel) (fd buf j n : ℕ) (r : Kernel) : Type 0 where
  pub name : (i : ℕ) → i < n → r.mem (buf + i) ≡ k.mem (entry k.filesystem j + i)
  pub rest : (b : ℕ) → (b < buf) ⊎ (buf + n ≤ b) → r.mem b ≡ k.mem b
  pub position : (file_of r.pcblock fd).fpos ≡ j + 1

module _ (k : Kernel) (fd buf j n fuel : ℕ) (open_fd : fd < length k.pcblock.file_struct)
    (next : IsNext k (file_of k.pcblock fd).fpos j) (small : j + 1 < 2 ^ 32)
    (ends : EndsAt (at k.mem (entry k.filesystem j)) n) (enough : n < fuel)
    (apart : (buf + n ≤ entry k.filesystem j) ⊎ (entry k.filesystem j + n < buf)) where
  abbrev place : ℕ
  place = entry k.filesystem j

  abbrev m : Mem
  m = memcpy k.mem buf place n

  upward : IsUpward buf place n
  upward = omega (arith, apart)

  kept : (i : ℕ) → i ≤ n → m (place + i) ≡ k.mem (place + i)
  unfolding copied
  kept i le = memcpy-copied k.mem buf place n (place + i) upward ∙ ground arith

  still_EndsAt : EndsAt (at m place) n
  still_EndsAt = record {
    nul = kept n (omega arith) ∙ ends.nul;
    before = λ i lt e. ends.before i lt (sym (kept i (omega arith)) ∙ e);
  }

  copied_name :
      copy_name fuel k fd buf (place, j + 1) ≡ some (n, record (with_fpos k fd (j + 1)) { mem = m })
  unfolding copy_name
  copied_name =
      rw
        (
          copy_name,
          strlen-EndsAt fuel (at k.mem place) n ends enough,
          strlen-EndsAt fuel (at m place) n still_EndsAt enough,
        )
        refl

  pub dirread-runs :
      (file_of k.pcblock fd).fpos < k.filesystem.num_dir_entries
      → j < (file_of k.pcblock fd).fpos + fuel
      → dirread fuel k fd buf ≡ some (n, record (with_fpos k fd (j + 1)) { mem = m })
  unfolding dirread copied
  dirread-runs inside near =
      ground
        (arith, next_entry-IsNext fuel k (file_of k.pcblock fd).fpos j next near small, copied_name)

  -- dirread of an open descriptor before the end of the directory, where entry `j` is the first from
  -- its position on that is not of type 0 and has a name that ends, with a buffer that does not
  -- overlap the name, and with fuel for the entries passed over and for the name: it returns the
  -- name's length, stores the name and changes no other address, and the next read begins behind
  -- entry `j`.
  pub dirread-Listed :
      (file_of k.pcblock fd).fpos < k.filesystem.num_dir_entries
      → j < (file_of k.pcblock fd).fpos + fuel
      → (r : Kernel) × (dirread fuel k fd buf ≡ some (n, r)) × Listed k fd buf j n r
  unfolding copied
  dirread-Listed inside near = (
    record (with_fpos k fd (j + 1)) { mem = m },
    dirread-runs inside near,
    record {
      name = λ i lt. memcpy-copied k.mem buf place n (buf + i) upward ∙ ground arith;
      rest = λ b out. memcpy-copied k.mem buf place n b upward ∙ ground arith;
      position = ap (λ f. f.fpos) (get_or-set_self k.pcblock.file_struct fd _ _ open_fd);
    },
  )
