-- ===== src/Memory/Fill.antt =====
-- memset, memset_word and memset_dword against the plain meaning of a fill.
use mp.Base.{
  bit_and-byte, ℕ, zero, suc, ◌+◌, ◌-◌, ◌*◌, ◌/◌, ◌%◌, ◌<◌, ◌≡◌, refl, ap, fun_ext, ◌∙◌, inl, inr,
  Bool, true, false, arith, ltb, leb, ◌==◌, if◌then◌else◌, Bool-cases, holds_below, holds_below_lem,
  ◌&&◌,
}
use mp.Memory.{
  Mem, store, byte_of, fill_words, fill_halves, fill_bytes, fill_aligned, fill_top, repeat_byte,
  memset, memset_word, memset_dword, filled,
}

filled-zero : (m : Mem) (d w eax b : ℕ) → m b ≡ filled m d w eax 0 b
unfolding filled
filled-zero m d w eax b = ground arith

fill_halves-filled :
    (n : ℕ) (m : Mem) (d eax b : ℕ) → fill_halves n m d eax b ≡ filled m d 2 eax (n * 2) b
unfolding fill_halves
fill_halves-filled zero m d eax b = filled-zero m d 2 eax b
fill_halves-filled (suc n) m d eax b = fill_halves-filled n _ (d + 2) eax b ∙ step
  where
    step :
        filled (store (store m d (byte_of eax 0)) (d + 1) (byte_of eax 1)) (d + 2) 2 eax (n * 2) b
        ≡ filled m d 2 eax (suc n * 2) b
    step = unfold filled in ground arith

fill_words-filled :
    (n : ℕ) (m : Mem) (d eax b : ℕ) → fill_words n m d eax b ≡ filled m d 4 eax (n * 4) b
unfolding fill_words
fill_words-filled zero m d eax b = filled-zero m d 4 eax b
fill_words-filled (suc n) m d eax b = fill_words-filled n _ (d + 4) eax b ∙ step
  where
    step :
        filled
          (store
            (store
              (store (store m d (byte_of eax 0)) (d + 1) (byte_of eax 1))
              (d + 2)
              (byte_of eax 2))
            (d + 3)
            (byte_of eax 3))
          (d + 4)
          4
          eax
          (n * 4)
          b
        ≡ filled m d 4 eax (suc n * 4) b
    step = unfold filled in ground arith

-- `memset_word` stores the low 16 bits of `c` in each of the `n` 16-bit places from `s` on, and
-- changes nothing else.
memset_word-filled : (m : Mem) (s c n b : ℕ) → memset_word m s c n b ≡ filled m s 2 c (n * 2) b
unfolding memset_word
memset_word-filled m s c n b = fill_halves-filled n m s c b

-- `memset_dword` stores the 32 bits of `c` in each of the `n` 32-bit places from `s` on, and
-- changes nothing else.
memset_dword-filled : (m : Mem) (s c n b : ℕ) → memset_dword m s c n b ≡ filled m s 4 c (n * 4) b
unfolding memset_dword
memset_dword-filled m s c n b = fill_words-filled n m s c b

-- One byte over and over.
unfoldable pub filled_with : Mem → ℕ → ℕ → ℕ → Mem
filled_with m dest c n b = if leb dest b then (if ltb b (dest + n) then c else m b) else m b

record IsRepeated (eax c : ℕ) : Type 0 where
  low : byte_of eax 0 ≡ c
  second : byte_of eax 1 ≡ c
  third : byte_of eax 2 ≡ c
  high : byte_of eax 3 ≡ c

module _ (eax c : ℕ) (r : IsRepeated eax c) where
  fill_bytes-filled_with :
      (n : ℕ) (m : Mem) (d b : ℕ) → fill_bytes n m d eax b ≡ filled_with m d c n b
  unfolding fill_bytes filled_with
  fill_bytes-filled_with zero m d b = ground arith
  fill_bytes-filled_with (suc n) m d b =
      ground (arith, fill_bytes-filled_with n (store m d (byte_of eax 0)) (d + 1) b, r.low)

  byte_of-repeated : (k : ℕ) → k < 4 → byte_of eax k ≡ c
  byte_of-repeated zero h = r.low
  byte_of-repeated (suc zero) h = r.second
  byte_of-repeated (suc (suc zero)) h = r.third
  byte_of-repeated (suc (suc (suc zero))) h = r.high
  byte_of-repeated (suc (suc (suc (suc k)))) h = absurd (omega arith)

  filled-filled_with : (n : ℕ) (m : Mem) (d b : ℕ) → filled m d 4 eax n b ≡ filled_with m d c n b
  unfolding filled filled_with
  filled-filled_with n m d b = rw (byte_of-repeated ((b - d) % 4) (omega arith))

  filled_with-append :
      (k n : ℕ) (m : Mem) (d b : ℕ)
      → filled_with (filled_with m d c k) (d + k) c n b ≡ filled_with m d c (k + n) b
  unfolding filled_with
  filled_with-append k n m d b = ground arith

  fill_aligned-filled_with :
      (n : ℕ) (m : Mem) (d b : ℕ) → fill_aligned n m d eax b ≡ filled_with m d c n b
  unfolding fill_aligned
  fill_aligned-filled_with n m d b =
      fill_bytes-filled_with (n % 4) _ (d + n / 4 * 4) b
      ∙ rw (fun_ext words, filled_with-append (n / 4 * 4) (n % 4) m d b)
          (ap (λ k. filled_with m d c k b) (omega arith))
    where
      words : (b : ℕ) → fill_words (n / 4) m d eax b ≡ filled_with m d c (n / 4 * 4) b
      words b = fill_words-filled (n / 4) m d eax b ∙ filled-filled_with (n / 4 * 4) m d b

  fill_top-filled_with : (n : ℕ) (m : Mem) (d b : ℕ) → fill_top n m d eax b ≡ filled_with m d c n b
  unfolding fill_top fill_bytes
  fill_top-filled_with zero m d b = fill_bytes-filled_with zero m d b ∙ refl
  fill_top-filled_with (suc n) m d b = elim (Bool-cases (d % 4 == 0)) [
    | inl e ↦ rw (e, fill_top) (fill_aligned-filled_with (suc n) m d b)
    | inr e ↦ rw (e, fill_top) (fill_top-filled_with n _ (d + 1) b ∙ step)
  ]
    where
      step : filled_with (store m d (byte_of eax 0)) (d + 1) c n b ≡ filled_with m d c (suc n) b
      step = unfold filled_with in ground (arith, r.low)

repeat_table :
    holds_below 256 (λ c.
      byte_of (repeat_byte c) 0 == c
      && (byte_of (repeat_byte c) 1 == c
          && (byte_of (repeat_byte c) 2 == c && byte_of (repeat_byte c) 3 == c)))
    ≡ true
unfolding holds_below repeat_byte
repeat_table = refl

and-left : (a b : Bool) → (a && b) ≡ true → a ≡ true
and-left true b h = refl
and-left false b h = h

and-right : (a b : Bool) → (a && b) ≡ true → b ≡ true
and-right true b h = h
and-right false b h = cc

repeat_byte-IsRepeated : (c : ℕ) → c < 256 → IsRepeated (repeat_byte c) c
repeat_byte-IsRepeated c h = ground (arith, holds_below_lem 256 _ c repeat_table h)

-- `memset` with its aligned fast path stores the low byte of `c` at the `n` addresses from `s` on,
-- and changes no other.
pub memset-filled_with : (m : Mem) (s c n b : ℕ) → memset m s c n b ≡ filled_with m s (c % 256) n b
unfolding memset
memset-filled_with m s c n b =
    rw (bit_and-byte c)
      (fill_top-filled_with _ (c % 256) (repeat_byte-IsRepeated (c % 256) (omega arith)) n m s b)
