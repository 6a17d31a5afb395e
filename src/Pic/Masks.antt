-- ===== src/Pic/Masks.antt =====
-- enable_irq and disable_irq change the mask bit of one line and no other.
use mp.Base.{
  ap, sym, ◌∙◌, ℕ, ◌<◌, ◌≡◌, refl, true, arith, ◌==◌, ltb, if◌then◌else◌, holds_below,
  holds_below_lem, ==_iff,
}
use mp.Pic.{Pic, enable_irq, disable_irq, masked}

-- A controller whose two masks are one byte.
abbrev both : ℕ → Pic
both x = record { master_mask = x; slave_mask = x }

-- The mask that holds line `j`.
abbrev mask_of : Pic → ℕ → ℕ
mask_of p j = if ltb j 8 then p.master_mask else p.slave_mask

enable_table :
    holds_below 16 (λ irq. holds_below 16 (λ j.
      holds_below 256
        (λ x. masked (enable_irq (both x) irq).0 j == (if j == irq then 0 else masked (both x) j))))
    ≡ true
unfolding holds_below enable_irq masked
enable_table = refl

disable_table :
    holds_below 16 (λ irq. holds_below 16 (λ j.
      holds_below 256 (λ x.
        masked (disable_irq (both x) irq).0 j == (if j == irq then 1 else masked (both x) j))))
    ≡ true
unfolding holds_below disable_irq masked
disable_table = refl

-- From a table over lines, lines and bytes to each of its entries.
table_entry :
    (f g : ℕ → ℕ → ℕ → ℕ)
    → holds_below 16 (λ a. holds_below 16 (λ b. holds_below 256 (λ x. f a b x == g a b x))) ≡ true
    → (a b x : ℕ) → a < 16
    → b < 16
    → x < 256
    → f a b x ≡ g a b x
table_entry f g t a b x ha hb hx = (==_iff _ _).0 (
    holds_below_lem 256 (λ x. f a b x == g a b x) x
      (holds_below_lem 16 (λ b. holds_below 256 (λ x. f a b x == g a b x)) b
        (holds_below_lem 16 _ a t ha) hb)
      hx)

masked-both : (p : Pic) (j : ℕ) → masked p j ≡ masked (both (mask_of p j)) j
unfolding masked
masked-both p j = ground arith

enable_irq-both :
    (p : Pic) (irq j : ℕ)
    → masked (enable_irq p irq).0 j ≡ masked (enable_irq (both (mask_of p j)) irq).0 j
unfolding masked enable_irq
enable_irq-both p irq j = ground arith

disable_irq-both :
    (p : Pic) (irq j : ℕ)
    → masked (disable_irq p irq).0 j ≡ masked (disable_irq (both (mask_of p j)) irq).0 j
unfolding masked disable_irq
disable_irq-both p irq j = ground arith

module _ (p : Pic) (master : p.master_mask < 256) (slave : p.slave_mask < 256) (irq j : ℕ)
    (hi : irq < 16) (hj : j < 16) where
  mask_of-lt : mask_of p j < 256
  mask_of-lt = ground arith

  -- Of the 16 lines enable_irq unmasks `irq`, and leaves every other as it was.
  pub enable_irq-masked : masked (enable_irq p irq).0 j ≡ (if j == irq then 0 else masked p j)
  enable_irq-masked =
      enable_irq-both p irq j
      ∙ table_entry _ _ enable_table irq j (mask_of p j) hi hj mask_of-lt
      ∙ ap (λ t. if j == irq then 0 else t) (sym (masked-both p j))

  -- Of the 16 lines disable_irq masks `irq`, and leaves every other as it was.
  pub disable_irq-masked : masked (disable_irq p irq).0 j ≡ (if j == irq then 1 else masked p j)
  disable_irq-masked =
      disable_irq-both p irq j
      ∙ table_entry _ _ disable_table irq j (mask_of p j) hi hj mask_of-lt
      ∙ ap (λ t. if j == irq then 1 else t) (sym (masked-both p j))
