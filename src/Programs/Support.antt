-- ===== src/Programs/Support.antt =====
-- The laws of syscalls/ece391support.c.
use mp.Base.{
  ℕ, slt, add32, ◌%◌, ◌/◌, zero, suc, ◌+◌, ◌≡◌, ◌≢◌, refl, ap, sym, ℕ_discrete, inl, inr,
  Bool-cases, ◌∙◌, arith, false, Option, none, some, sub32,
}
use mp.Memory.{Mem, store}
use mp.Memory.Text.{
  at, strlen, strlen_from, digit_char, strrev, strrev_from, itoa, itoa_from, itoa_fuel,
}
use mp.Programs.{
  ece391_strlen, ece391_strlen_from, ece391_itoa, ece391_itoa_from, ece391_strrev, ece391_strrev_of,
  ece391_strrev_from,
}

pub ece391_strlen_from-equal :
    (fuel : ℕ) (s : ℕ → ℕ) (len : ℕ) → ece391_strlen_from fuel s len ≡ strlen_from fuel s len
unfolding ece391_strlen_from strlen_from
ece391_strlen_from-equal zero s len = refl
ece391_strlen_from-equal (suc fuel) s len =
    ground (arith, ece391_strlen_from-equal fuel s (len + 1))

pub ece391_strlen-equal : (fuel : ℕ) (s : ℕ → ℕ) → ece391_strlen fuel s ≡ strlen fuel s
unfolding ece391_strlen strlen
ece391_strlen-equal fuel s = ece391_strlen_from-equal fuel s 0

ece391_itoa_from-equal :
    (fuel : ℕ) (m : Mem) (newbuf newval radix : ℕ)
    → ece391_itoa_from fuel m newbuf newval radix ≡ itoa_from fuel m newbuf newval radix
unfolding ece391_itoa_from itoa_from
ece391_itoa_from-equal zero m newbuf newval radix = refl
ece391_itoa_from-equal (suc fuel) m newbuf newval radix = ground (
  arith,
  ece391_itoa_from-equal fuel (store m newbuf (digit_char (newval % radix))) (newbuf + 1)
      (newval / radix) radix,
)

ece391_strrev_from-equal :
    (fuel : ℕ) (m : Mem) (s beg end : ℕ)
    → ece391_strrev_from fuel m s beg end ≡ strrev_from fuel m s beg end
unfolding ece391_strrev_from strrev_from
ece391_strrev_from-equal zero m s beg end = refl
ece391_strrev_from-equal (suc fuel) m s beg end = ground (
  arith,
  ece391_strrev_from-equal fuel (store (store m (s + end) (m (s + beg))) (s + beg) (m (s + end))) s
      (add32 beg 1) (sub32 end 1),
)

strrev_from-nothing :
    (fuel : ℕ) (m : Mem) (s end : ℕ) → slt 0 end ≡ false → strrev_from (suc fuel) m s 0 end ≡ some m
unfolding strrev_from
strrev_from-nothing fuel m s end h = ground arith

-- strrev behind its call of strlen.
strrev_after : ℕ → Mem → ℕ → Option ℕ → Option Mem
strrev_after fuel m s none = none
strrev_after fuel m s (some len) = strrev_from fuel m s 0 (sub32 len 1)

strrev-after :
    (fuel : ℕ) (m : Mem) (s : ℕ) → strrev fuel m s ≡ strrev_after fuel m s (strlen fuel (at m s))
unfolding strrev strrev_after
strrev-after fuel m s = by_length (strlen fuel (at m s))
  where
    by_length :
        (o : Option ℕ)
        → elim o as (λ x. Option Mem) [
          | none ↦ none
          | some len ↦ strrev_from fuel m s 0 (sub32 len 1)
        ]
          ≡ strrev_after fuel m s o
    by_length none = refl
    by_length (some len) = refl

strrev_of-equal :
    (fuel : ℕ) (m : Mem) (s : ℕ) (o : Option ℕ)
    → ece391_strrev_of (suc fuel) m s o ≡ strrev_after (suc fuel) m s o
unfolding ece391_strrev_of strrev_after
strrev_of-equal fuel m s none = refl
strrev_of-equal fuel m s (some len) = elim (Bool-cases (slt 0 (sub32 len 1))) [
  | inl t ↦ ground (arith, t, ece391_strrev_from-equal (suc fuel) m s 0 (sub32 len 1))
  | inr f ↦ ground (arith, f, strrev_from-nothing fuel m s (sub32 len 1) f)
]

-- ece391_strrev leaves out the loop on a string of one character or none; it does as strrev does.
ece391_strrev-equal :
    (fuel : ℕ) (m : Mem) (s : ℕ) → ece391_strrev (suc fuel) m s ≡ strrev (suc fuel) m s
unfolding ece391_strrev
ece391_strrev-equal fuel m s =
    strrev_of-equal fuel m s (ece391_strlen (suc fuel) (at m s))
    ∙ ap (strrev_after (suc fuel) m s) (ece391_strlen-equal (suc fuel) (at m s))
    ∙ sym (strrev-after (suc fuel) m s)

ece391_itoa-digits :
    (m : Mem) (value buf radix : ℕ)
    → value ≢ 0
    → (o : Option (Mem × ℕ)) → ece391_itoa_from itoa_fuel m buf value radix ≡ o
    → ece391_itoa m value buf radix ≡ itoa m value buf radix
unfolding ece391_itoa itoa
ece391_itoa-digits m value buf radix pos none h =
    ground (arith, h, ece391_itoa_from-equal itoa_fuel m buf value radix)
ece391_itoa-digits m value buf radix pos (some (m', newbuf)) h = ground (
  arith,
  h,
  ece391_itoa_from-equal itoa_fuel m buf value radix,
  ece391_strrev-equal 32 (store m' newbuf 0) buf,
)

-- The programs' itoa computes exactly what the kernel's does.
pub ece391_itoa-equal :
    (m : Mem) (value buf radix : ℕ) → ece391_itoa m value buf radix ≡ itoa m value buf radix
unfolding ece391_itoa itoa
ece391_itoa-equal m value buf radix = elim (ℕ_discrete value 0) [
  | yes e ↦ ground arith
  | no p ↦
      ece391_itoa-digits m value buf radix p (ece391_itoa_from itoa_fuel m buf value radix) refl
]
