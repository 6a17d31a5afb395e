-- ===== src/Memory/Copy.antt =====
-- memcpy and memmove against the plain meaning of a copy.
use mp.Base.{
  ℕ, zero, suc, ◌+◌, ◌-◌, ◌*◌, ◌/◌, ◌%◌, ◌≤◌, ◌<◌, ◌≡◌, fun_ext, ◌∙◌, ◌⊎◌, inl, inr, arith, ◌==◌,
}
use mp.Memory.{
  Mem, store, copy_words, copy_bytes, copy_aligned, copy_top, memcpy, copy_down, memmove, copied,
  move_word,
}
use mp.Base.{dec_le, Bool-cases, leb-true, leb-false, ap}

-- A copy going up is safe when the destination does not start inside the source.
abbrev pub IsUpward : ℕ → ℕ → ℕ → Type 0
IsUpward dest src n = (src + n ≤ dest) ⊎ (dest ≤ src)

copied_step :
    (n : ℕ) (m : Mem) (s d b : ℕ)
    → IsUpward d s (suc n)
    → copied (store m d (m s)) (d + 1) (s + 1) n b ≡ copied m d s (suc n) b
unfolding copied
copied_step n m s d b h = ground (arith, shifted b)
  where
    shifted : (b : ℕ) → d < b → s + 1 + (b - (d + 1)) ≡ s + (b - d)
    shifted b p = omega arith

copied-zero : (m : Mem) (s d b : ℕ) → m b ≡ copied m d s 0 b
unfolding copied
copied-zero m s d b = ground arith

copy_bytes-copied :
    (n : ℕ) (m : Mem) (s d b : ℕ) → IsUpward d s n → copy_bytes n m s d b ≡ copied m d s n b
unfolding copy_bytes
copy_bytes-copied zero m s d b h = copied-zero m s d b
copy_bytes-copied (suc n) m s d b h =
    copy_bytes-copied n (store m d (m s)) (s + 1) (d + 1) b (omega arith) ∙ copied_step n m s d b h

-- Copying a prefix and then the rest.
copied-append :
    (k n : ℕ) (m : Mem) (s d b : ℕ)
    → IsUpward d s (k + n)
    → copied (copied m d s k) (d + k) (s + k) n b ≡ copied m d s (k + n) b
unfolding copied
copied-append k n m s d b h = ground arith

copy_down-copied : (n : ℕ) (m : Mem) (s d b : ℕ) → s ≤ d → copy_down n m s d b ≡ copied m d s n b
unfolding copy_down
copy_down-copied zero m s d b h = copied-zero m s d b
copy_down-copied (suc n) m s d b h = copy_down-copied n (store m (d + n) (m (s + n))) s d b h ∙ last
  where
    last : copied (store m (d + n) (m (s + n))) d s n b ≡ copied m d s (suc n) b
    last = unfold copied in ground arith

move_word-copied : (m : Mem) (s d b : ℕ) → move_word m s d b ≡ copied m d s 4 b
unfolding copied
move_word-copied m s d b = ground arith

copy_words-copied :
    (n : ℕ) (m : Mem) (s d b : ℕ)
    → IsUpward d s (n * 4)
    → copy_words n m s d b ≡ copied m d s (n * 4) b
unfolding copy_words
copy_words-copied zero m s d b h = copied-zero m s d b
copy_words-copied (suc n) m s d b h =
    copy_words-copied n (move_word m s d) (s + 4) (d + 4) b (omega arith)
    ∙ rw (fun_ext (move_word-copied m s d), copied-append 4 (n * 4) m s d b (omega arith))
        (ap (λ k. copied m d s k b) (omega arith))

copy_aligned-copied :
    (n : ℕ) (m : Mem) (s d b : ℕ) → IsUpward d s n → copy_aligned n m s d b ≡ copied m d s n b
unfolding copy_aligned
copy_aligned-copied n m s d b h =
    copy_bytes-copied (n % 4) _ _ _ b (omega arith)
    ∙ rw
        (
          fun_ext (λ c. copy_words-copied (n / 4) m s d c (omega arith)),
          copied-append (n / 4 * 4) (n % 4) m s d b (omega arith),
        )
        (ap (λ k. copied m d s k b) (omega arith))

copy_top-copied :
    (n : ℕ) (m : Mem) (s d b : ℕ) → IsUpward d s n → copy_top n m s d b ≡ copied m d s n b
unfolding copy_top
copy_top-copied zero m s d b h = copied-zero m s d b
copy_top-copied (suc n) m s d b h = elim (Bool-cases (d % 4 == 0)) [
  | inl e ↦ rw (e, copy_top) (copy_aligned-copied (suc n) m s d b h)
  | inr e ↦
      rw (e, copy_top)
        (copy_top-copied n (store m d (m s)) (s + 1) (d + 1) b (omega arith)
          ∙ copied_step n m s d b h)
]

-- `memcpy` with its aligned fast path copies exactly the `n` bytes of the source and changes no
-- other, provided that the destination does not start inside the source.
pub memcpy-copied :
    (m : Mem) (dest src n b : ℕ)
    → IsUpward dest src n
    → memcpy m dest src n b ≡ copied m dest src n b
unfolding memcpy
memcpy-copied m dest src n b h = copy_top-copied n m src dest b h

-- `memmove` copies exactly the `n` old bytes of the source and changes no other, whatever the
-- overlap of the two blocks.
pub memmove-copied : (m : Mem) (dest src n b : ℕ) → memmove m dest src n b ≡ copied m dest src n b
unfolding memmove
memmove-copied m dest src n b = elim (dec_le dest src) [
  | yes h ↦ rw (leb-true dest src h) (copy_bytes-copied n m src dest b (inr h))
  | no h ↦ rw (leb-false dest src h) (copy_down-copied n m src dest b (omega arith))
]
