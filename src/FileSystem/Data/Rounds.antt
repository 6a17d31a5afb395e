-- ===== src/FileSystem/Data/Rounds.antt =====
-- The loop of read_data: it ends, and what its rounds copy.
use mp.Base.{
  ℕ, zero, suc, ◌+◌, ◌-◌, ◌≤◌, ◌<◌, ◌≡◌, ◌≢◌, ◌⊎◌, inl, inr, refl, ◌∙◌, some, arith, ltb, leb,
  if◌then◌else◌, ℕ_discrete,
}
use mp.Memory.{Mem, store, memcpy, copied}
use mp.Memory.Copy.{memcpy-copied}
use mp.Kernel.{FileSystem}
use mp.FileSystem.{block_size, Cursor, clear_buf, first_round, later_round, read_blocks}

module _ (fs : FileSystem) (iptr index : ℕ) (small : index < block_size) where
  later_round-left : (c : Cursor) → c.left ≢ 0 → (later_round fs iptr index c).left < c.left
  unfolding later_round
  later_round-left c h = ground arith

  pub first_round-left : (buf : ℕ) (c : Cursor) → (first_round fs iptr index buf c).left ≤ c.left
  unfolding first_round
  first_round-left buf c = ground arith

  pub read_blocks-done :
      (fuel : ℕ) (c : Cursor) → 0 < fuel → c.left ≡ 0 → read_blocks fuel fs iptr index c ≡ some c
  unfolding read_blocks
  read_blocks-done zero c f h = absurd (omega arith)
  read_blocks-done (suc fuel) c f h = ground arith

  read_blocks-next :
      (fuel : ℕ) (c : Cursor)
      → c.left ≢ 0
      → read_blocks (suc fuel) fs iptr index c
        ≡ read_blocks fuel fs iptr index (later_round fs iptr index c)
  unfolding read_blocks
  read_blocks-next fuel c h = ground arith

  -- Fuel above `left` is enough, and the loop ends with nothing left.
  pub read_blocks-total :
      (fuel : ℕ) (c : Cursor)
      → c.left < fuel
      → (r : Cursor) × (read_blocks fuel fs iptr index c ≡ some r) × (r.left ≡ 0)
  read_blocks-total zero c h = absurd (omega arith)
  read_blocks-total (suc fuel) c h = elim (ℕ_discrete c.left 0) [
    | yes e ↦ (c, read_blocks-done (suc fuel) c (omega arith) e, e)
    | no e ↦
        let rest =
          read_blocks-total fuel (later_round fs iptr index c)
            (omega (arith, later_round-left c e)) in
        (rest.0, read_blocks-next fuel c e ∙ rest.1, rest.2)
  ]

  -- One more round is the last one.
  pub read_blocks-last :
      (fuel : ℕ) (c : Cursor)
      → 1 < fuel
      → c.left ≢ 0
      → (later_round fs iptr index c).left ≡ 0
      → read_blocks fuel fs iptr index c ≡ some (later_round fs iptr index c)
  read_blocks-last zero c f h e = absurd (omega arith)
  read_blocks-last (suc fuel) c f h e =
      read_blocks-next fuel c h
      ∙ read_blocks-done fuel (later_round fs iptr index c) (omega arith) e

-- The `n` bytes from `buf` on, and no others, come from `src`.
abbrev pub Holds : Mem → ℕ → ℕ → (ℕ → ℕ) → Mem → Type 0
Holds m buf n src m' =
    (b : ℕ) → m' b ≡ (if leb buf b then (if ltb b (buf + n) then src (b - buf) else m b) else m b)

pub clear_buf-Holds : (n : ℕ) (m : Mem) (buf : ℕ) → Holds m buf n (λ _. 0) (clear_buf n m buf)
unfolding clear_buf
clear_buf-Holds zero m buf b = ground arith
clear_buf-Holds (suc n) m buf b = ground (arith, clear_buf-Holds n (store m buf 0) (buf + 1) b)

pub memcpy-Holds :
    (m : Mem) (buf src n : ℕ)
    → (src + n ≤ buf) ⊎ (buf ≤ src)
    → Holds m buf n (λ k. m (src + k)) (memcpy m buf src n)
memcpy-Holds m buf src n h b = memcpy-copied m buf src n b h ∙ unfold copied in refl

-- Two copies one behind the other make one, read as `t`.
pub Holds-append :
    (m m1 m2 : Mem) (buf n k total : ℕ) (f g t : ℕ → ℕ)
    → n + k ≡ total
    → Holds m buf n f m1
    → Holds m1 (buf + n) k g m2
    → ((j : ℕ) → j < n → f j ≡ t j)
    → ((j : ℕ) → j < k → g j ≡ t (n + j))
    → Holds m buf total t m2
Holds-append m m1 m2 buf n k total f g t e h1 h2 ef eg b =
    ground (arith, h1 b, h2 b, ef (b - buf), eg (b - (buf + n)), place)
  where
    place : buf + n ≤ b → n + (b - (buf + n)) ≡ b - buf
    place p = omega arith

pub Holds-ext :
    (m m' : Mem) (buf n : ℕ) (f t : ℕ → ℕ)
    → Holds m buf n f m'
    → ((j : ℕ) → j < n → f j ≡ t j)
    → Holds m buf n t m'
Holds-ext m m' buf n f t h e b = ground (arith, h b, e (b - buf))

-- A buffer outside the addresses from `lo` up to `hi`.
abbrev pub Avoids : ℕ → ℕ → ℕ → ℕ → Type 0
Avoids buf n lo hi = (buf + n ≤ lo) ⊎ (hi ≤ buf)

pub Holds-outside :
    (m m' : Mem) (buf n lo hi : ℕ) (f : ℕ → ℕ)
    → Holds m buf n f m'
    → Avoids buf n lo hi
    → (a : ℕ) → lo ≤ a
    → a < hi
    → m' a ≡ m a
Holds-outside m m' buf n lo hi f h v a p q = ground (arith, h a)

-- A shorter copy over a longer one.
pub Holds-over :
    (m m1 m2 : Mem) (buf n k : ℕ) (f g : ℕ → ℕ)
    → k ≤ n
    → Holds m buf n f m1
    → Holds m1 buf k g m2
    → Holds m buf n (λ j. if ltb j k then g j else f j) m2
Holds-over m m1 m2 buf n k f g le h1 h2 b = ground (arith, h1 b, h2 b)

pub Avoids-shorter : (buf k n lo hi : ℕ) → k ≤ n → Avoids buf n lo hi → Avoids buf k lo hi
Avoids-shorter buf k n lo hi le (inl below) = inl (omega arith)
Avoids-shorter buf k n lo hi le (inr above) = inr above
