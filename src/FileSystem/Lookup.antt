-- ===== src/FileSystem/Lookup.antt =====
-- Finding a directory entry: read_dentry_by_name and read_dentry_by_index.
use mp.Base.{
  ℕ, zero, suc, ◌+◌, ◌*◌, ◌≤◌, ◌<◌, ◌≡◌, ◌≢◌, ◌↔◌, inl, inr, refl, sym, ◌∙◌, true, false, arith,
  Bool-cases, ==_iff, minus_one, get_or, dec_lt,
}
use mp.Memory.{Mem}
use mp.Memory.Text.{at, strncmp, SameText, IsBytes}
use mp.Memory.Text.Laws.{strncmp-zero_iff}
use mp.Kernel.{Dentry, FileSystem}
use mp.FileSystem.{
  max_file, bytes_at, load_dentry, entry, is_named, by_name_from, read_dentry_by_name, inode_num_at,
  by_index_from, read_dentry_by_index,
}

get_or-bytes_at : (n : ℕ) (m : Mem) (p j : ℕ) → j < n → get_or (bytes_at n m p) j 0 ≡ m (p + j)
get_or-bytes_at zero m p j h = absurd (omega arith)
get_or-bytes_at (suc n) m p zero h = ground arith
get_or-bytes_at (suc n) m p (suc j) h = get_or-bytes_at n m (p + 1) j (omega arith) ∙ ground arith

bytes_at-IsBytes :
    (n : ℕ) (m : Mem) (p : ℕ) → IsBytes m → IsBytes (λ j. get_or (bytes_at n m p) j 0)
bytes_at-IsBytes zero m p h j = omega arith
bytes_at-IsBytes (suc n) m p h zero = h p
bytes_at-IsBytes (suc n) m p h (suc j) = bytes_at-IsBytes n m (p + 1) h j

-- The name of entry `i` reads as `fname`, over 32 bytes at most.
abbrev pub HasName : Mem → FileSystem → (ℕ → ℕ) → ℕ → Type 0
HasName m fs fname i = SameText 32 fname (at m (entry fs i))

module _ (m : Mem) (fs : FileSystem) (fname : ℕ → ℕ) (bytes : IsBytes m)
    (chars : IsBytes fname) where
  is_named_iff : (i : ℕ) → (is_named m fs fname i ≡ true) ↔ HasName m fs fname i
  unfolding is_named
  is_named_iff i = (
    λ h k lt live. same.0 ((==_iff _ 0).0 h) k lt live ∙ get_or-bytes_at 32 m (entry fs i) k lt,
    λ h.
        (==_iff _ 0).1
          (same.1 (λ k lt live. h k lt live ∙ sym (get_or-bytes_at 32 m (entry fs i) k lt))),
  )
    where
      same :
          (strncmp fname (λ j. get_or (bytes_at 32 m (entry fs i)) j 0) 32 ≡ 0)
          ↔ SameText 32 fname (λ j. get_or (bytes_at 32 m (entry fs i)) j 0)
      same = strncmp-zero_iff fname _ chars (bytes_at-IsBytes 32 m (entry fs i) bytes) 32

  is_named-false : (i : ℕ) → ¬ HasName m fs fname i → is_named m fs fname i ≡ false
  is_named-false i h = elim (Bool-cases (is_named m fs fname i)) [
    | inl e ↦ absurd (h ((is_named_iff i).0 e))
    | inr e ↦ e
  ]

  by_name_from-skip :
      (left i : ℕ) (d : Dentry)
      → ¬ HasName m fs fname i
      → by_name_from (suc left) i m fs fname d ≡ by_name_from left (i + 1) m fs fname d
  unfolding by_name_from
  by_name_from-skip left i d h = rw (is_named-false i h, by_name_from)

  by_name_from-found :
      (left i k : ℕ) (d : Dentry)
      → i ≤ k
      → k < i + left
      → HasName m fs fname k
      → ((j : ℕ) → i ≤ j → j < k → ¬ HasName m fs fname j)
      → by_name_from left i m fs fname d ≡ (0, load_dentry m (entry fs k) d)
  unfolding by_name_from
  by_name_from-found zero i k d lo hi named first = absurd (omega arith)
  by_name_from-found (suc left) i k d lo hi named first = elim (dec_lt i k) [
    | yes p ↦
        by_name_from-skip left i d (first i (omega arith) p)
        ∙ by_name_from-found left (i + 1) k d (omega arith) (omega arith) named
            (λ j q r. first j (omega arith) r)
    | no p ↦
        let e : k ≡ i = omega arith in rw (e, by_name_from, (is_named_iff i).1 (rw e at named)) refl
  ]

  by_name_from-missing :
      (left i : ℕ) (d : Dentry)
      → ((j : ℕ) → i ≤ j → j < i + left → ¬ HasName m fs fname j)
      → by_name_from left i m fs fname d ≡ (minus_one, d)
  by_name_from-missing zero i d none_named = unfold by_name_from in refl
  by_name_from-missing (suc left) i d none_named =
      by_name_from-skip left i d (none_named i (omega arith) (omega arith))
      ∙ by_name_from-missing left (i + 1) d (λ j q r. none_named j (omega arith) (omega arith))

  -- read_dentry_by_name returns 0 and fills the dentry from the first of the 62 entries that has
  -- the name.
  pub read_dentry_by_name-found :
      (k : ℕ) (d : Dentry)
      → k < max_file
      → HasName m fs fname k
      → ((j : ℕ) → j < k → ¬ HasName m fs fname j)
      → read_dentry_by_name m fs fname d ≡ (0, load_dentry m (entry fs k) d)
  unfolding read_dentry_by_name
  read_dentry_by_name-found k d h named first =
      by_name_from-found max_file 0 k d (omega arith) h named (λ j p q. first j q)

  -- read_dentry_by_name returns -1 and leaves the dentry alone if none of the 62 entries has the
  -- name.
  pub read_dentry_by_name-missing :
      (d : Dentry)
      → ((j : ℕ) → j < max_file → ¬ HasName m fs fname j)
      → read_dentry_by_name m fs fname d ≡ (minus_one, d)
  unfolding read_dentry_by_name
  read_dentry_by_name-missing d none_named =
      by_name_from-missing max_file 0 d (λ j p q. none_named j q)

module _ (m : Mem) (fs : FileSystem) (index : ℕ) where
  by_index_from-found :
      (left i k : ℕ) (d : Dentry)
      → i ≤ k
      → k < i + left
      → index ≡ m fs.dentry_begin + k * 64 + 36
      → by_index_from left i m fs index d ≡ (0, load_dentry m (entry fs k) d)
  unfolding by_index_from inode_num_at
  by_index_from-found zero i k d lo hi e = absurd (omega arith)
  by_index_from-found (suc left) i k d lo hi e = elim (dec_lt i k) [
    | yes p ↦ ground (arith, by_index_from-found left (i + 1) k d)
    | no p ↦ let q : k ≡ i = omega arith in rw q (ground (arith, rw q at e))
  ]

  by_index_from-missing :
      (left i : ℕ) (d : Dentry)
      → ((k : ℕ) → i ≤ k → k < i + left → index ≢ m fs.dentry_begin + k * 64 + 36)
      → by_index_from left i m fs index d ≡ (minus_one, d)
  unfolding by_index_from inode_num_at
  by_index_from-missing zero i d h = refl
  by_index_from-missing (suc left) i d h =
      ground (
        arith,
        h i,
        by_index_from-missing left (i + 1) d (λ k p q. h k (omega arith) (omega arith)),
      )

  -- read_dentry_by_index does not look at the entries' inode numbers: it takes the entry `k` of the
  -- 62 for which `index` is the first byte of the directory plus 64 * k + 36.
  pub read_dentry_by_index-found :
      (k : ℕ) (d : Dentry)
      → k < max_file
      → index ≡ m fs.dentry_begin + k * 64 + 36
      → read_dentry_by_index m fs index d ≡ (0, load_dentry m (entry fs k) d)
  unfolding read_dentry_by_index
  read_dentry_by_index-found k d h e = by_index_from-found max_file 0 k d (omega arith) h e

  -- read_dentry_by_index returns -1, whatever inode numbers the entries hold, if `index` is the
  -- first byte of the directory plus 64 * k + 36 for none of the 62 entries `k`.
  read_dentry_by_index-missing :
      (d : Dentry)
      → ((k : ℕ) → k < max_file → index ≢ m fs.dentry_begin + k * 64 + 36)
      → read_dentry_by_index m fs index d ≡ (minus_one, d)
  unfolding read_dentry_by_index
  read_dentry_by_index-missing d h = by_index_from-missing max_file 0 d (λ k p q. h k q)
