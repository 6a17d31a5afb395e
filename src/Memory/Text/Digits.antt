-- ===== src/Memory/Text/Digits.antt =====
-- itoa writes the digits of its number: read back, they give it.
use native.Mathlib.Numerals.{unary_clauses}
use mp.Base.{
  ℕ, zero, suc, ◌+◌, ◌-◌, ◌*◌, ◌/◌, ◌%◌, ◌^◌, ◌≤◌, ◌<◌, ◌≡◌, ◌≢◌, refl, sym, subst, ap, ◌∙◌, Option,
  some, leb, ltb, ◌==◌, if◌then◌else◌, arith, holds_below, holds_below_lem, ◌&&◌, Bool, true, ◌⊎◌,
  inl, inr, ℕ_discrete,
}
use mp.Memory.{Mem, store}
use mp.Memory.Text.{at, itoa, itoa_from, itoa_fuel, digit_char, strrev, EndsAt}
use mp.Memory.Text.Reverse.{strrev-EndsAt}

-- The value of a digit: `0` to `9`, then the capital letters.
abbrev pub digit_value : ℕ → ℕ
digit_value c = if ltb c 65 then c - 48 else c - 55

-- The number that `n` digits stand for, the highest first.
pub read_digits : ℕ → ℕ → (ℕ → ℕ) → ℕ
read_digits radix zero s = 0
read_digits radix (suc n) s = read_digits radix n s * radix + digit_value (s n)

-- The same with the lowest first.
read_low_first : ℕ → ℕ → (ℕ → ℕ) → ℕ
read_low_first radix zero s = 0
read_low_first radix (suc n) s = digit_value (s 0) + read_low_first radix n (λ i. s (i + 1)) * radix

abbrev digits_agree : ℕ → Bool
digits_agree i = digit_value (digit_char i) == i && leb 48 (digit_char i)

digits_table : holds_below 36 digits_agree ≡ true
unfolding holds_below digit_char
digits_table = refl

digit_char-value : (i : ℕ) → i < 36 → (digit_value (digit_char i) ≡ i) × (48 ≤ digit_char i)
digit_char-value i h = ground (arith, holds_below_lem 36 digits_agree i digits_table)

read_digits-ext :
    (radix n : ℕ) (s t : ℕ → ℕ)
    → ((i : ℕ) → i < n → s i ≡ t i)
    → read_digits radix n s ≡ read_digits radix n t
unfolding read_digits
read_digits-ext radix zero s t h = refl
read_digits-ext radix (suc n) s t h =
    rw (h n (omega arith), read_digits-ext radix n s t (λ i lt. h i (omega arith))) refl

read_low_first-ext :
    (radix n : ℕ) (s t : ℕ → ℕ)
    → ((i : ℕ) → i < n → s i ≡ t i)
    → read_low_first radix n s ≡ read_low_first radix n t
unfolding read_low_first
read_low_first-ext radix zero s t h = refl
read_low_first-ext radix (suc n) s t h =
    rw
      (
        h 0 (omega arith),
        read_low_first-ext radix n (λ i. s (i + 1)) (λ i. t (i + 1))
            (λ i lt. h (i + 1) (omega arith)),
      )
      refl

-- A string of digits turned round.
read_digits-mirrored :
    (radix n : ℕ) (s : ℕ → ℕ) → read_digits radix n (λ i. s (n - 1 - i)) ≡ read_low_first radix n s
unfolding read_digits read_low_first
read_digits-mirrored radix zero s = refl
read_digits-mirrored radix (suc n) s =
    let first : s (suc n - 1 - n) ≡ s 0 = ap s (omega arith) in
    let others : read_digits radix n (λ i. s (suc n - 1 - i))
        ≡ read_low_first radix n (λ i. s (i + 1)) =
      read_digits-ext radix n _ _ (λ i lt. ap s (omega arith))
      ∙ read_digits-mirrored radix n (λ i. s (i + 1)) in
    rw (first, others) (omega arith)

-- The rounds of itoa's loop, from `p` on: the digits of `v`, the lowest first.
record Writes (m : Mem) (p v radix bits : ℕ) (r : Option (Mem × ℕ)) : Type 0 where
  count : ℕ
  result : Mem
  returns : r ≡ some (result, p + count)
  short : count ≤ bits
  digits : (i : ℕ) → i < count → 48 ≤ result (p + i)
  value : read_low_first radix count (at result p) ≡ v
  rest : (b : ℕ) → (b < p) ⊎ (p + count ≤ b) → result b ≡ m b

pow_next : (b : ℕ) → 2 ^ suc b ≡ 2 * 2 ^ b
pow_next b = simp unary_clauses (omega arith)

module _ (radix : ℕ) (lo : 2 ≤ radix) (hi : radix ≤ 36) where
  remainder-lt : (v : ℕ) → v % radix < 36
  remainder-lt v = grind arith

  quotient_halves : (v : ℕ) → v / radix ≤ v / 2
  quotient_halves v = grind arith

  divided : (v : ℕ) → v % radix + v / radix * radix ≡ v
  divided v = grind arith

  itoa_from-none_left :
      (fuel : ℕ) (m : Mem) (p : ℕ) → itoa_from (suc fuel) m p 0 radix ≡ some (m, p)
  unfolding itoa_from
  itoa_from-none_left fuel m p = refl

  itoa_from-digit :
      (fuel : ℕ) (m : Mem) (p v : ℕ)
      → v ≢ 0
      → itoa_from (suc fuel) m p v radix
        ≡ itoa_from fuel (store m p (digit_char (v % radix))) (p + 1) (v / radix) radix
  unfolding itoa_from
  itoa_from-digit fuel m p v h = ground arith

  nothing_left :
      (bits : ℕ) (m : Mem) (p v : ℕ)
      → v ≡ 0
      → Writes m p v radix bits (itoa_from (suc bits) m p v radix)
  nothing_left bits m p v e = record {
    count = 0;
    result = m;
    returns = rw e (itoa_from-none_left bits m p ∙ ap (λ q. some (m, q)) (omega arith));
    short = omega arith;
    digits = λ i h. absurd (omega arith);
    value = unfold read_low_first in omega arith;
    rest = λ b h. refl;
  }

  module _ (bits : ℕ) (m : Mem) (p v : ℕ) (more : v ≢ 0) where
    abbrev stored : Mem
    stored = store m p (digit_char (v % radix))

    another :
        Writes stored
          (p + 1)
          (v / radix)
          radix
          bits
          (itoa_from (suc bits) stored (p + 1) (v / radix) radix)
        → Writes m p v radix (suc bits) (itoa_from (suc (suc bits)) m p v radix)
    unfolding read_low_first
    another w = record {
      count = suc w.count;
      result = w.result;
      returns =
          itoa_from-digit (suc bits) m p v more
          ∙ w.returns
          ∙ ap (λ q. some (w.result, q)) (omega arith);
      short = omega (arith, w.short);
      digits = all_digits;
      value = the_value;
      rest = λ b h. w.rest b (ground arith) ∙ ground arith;
    }
      where
        here : w.result p ≡ digit_char (v % radix)
        here = w.rest p (inl (omega arith)) ∙ ground arith

        the_value : read_low_first radix (suc w.count) (at w.result p) ≡ v
        the_value =
            let place : p + zero ≡ p = omega arith in
            let others : read_low_first radix w.count (λ i. at w.result p (i + 1))
                ≡ read_low_first radix w.count (at w.result (p + 1)) =
              read_low_first-ext radix w.count _ _ (λ i lt. ap w.result (omega arith)) in
            rw
              (
                read_low_first,
                others,
                place,
                here,
                w.value,
                (digit_char-value (v % radix) (remainder-lt v)).0,
              )
              (divided v)

        all_digits : (i : ℕ) → i < suc w.count → 48 ≤ w.result (p + i)
        all_digits zero h =
            let place : p + zero ≡ p = omega arith in
            rw (place, here) (digit_char-value (v % radix) (remainder-lt v)).1
        all_digits (suc i) h =
            let place : p + suc i ≡ p + 1 + i = omega arith in rw place (w.digits i (omega arith))

  itoa_from-Writes :
      (bits : ℕ) (m : Mem) (p v : ℕ)
      → v < 2 ^ bits
      → Writes m p v radix bits (itoa_from (suc bits) m p v radix)
  itoa_from-Writes zero m p v small = nothing_left zero m p v (omega arith)
  itoa_from-Writes (suc bits) m p v small = elim (ℕ_discrete v 0) [
    | yes e ↦ nothing_left (suc bits) m p v e
    | no more ↦ another bits m p v more (
        itoa_from-Writes bits (store m p (digit_char (v % radix))) (p + 1) (v / radix)
          (halved bits v small))
  ]
    where
      halved : (b v : ℕ) → v < 2 ^ suc b → v / radix < 2 ^ b
      halved b v h = omega (arith, quotient_halves v, pow_next b)

-- A number in place: `n` digits and the end, which give `value` when they are read.
pub record Shows (m : Mem) (buf value radix : ℕ) (r : Option Mem) : Type 0 where
  pub result : Mem
  pub count : ℕ
  pub returns : r ≡ some result
  pub ends : EndsAt (at result buf) count
  pub short : count ≤ 32
  pub digits : (i : ℕ) → i < count → 48 ≤ at result buf i
  pub reads : read_digits radix count (at result buf) ≡ value
  pub others : (b : ℕ) → (b < buf) ⊎ (buf + count < b) → result b ≡ m b

module _ (m : Mem) (buf value radix : ℕ) (lo : 2 ≤ radix) (hi : radix ≤ 36) where
  zero_shown : Shows m buf 0 radix (itoa m 0 buf radix)
  unfolding itoa read_digits
  zero_shown = record {
    result = store (store m buf 48) (buf + 1) 0;
    count = 1;
    returns = refl;
    ends = record { nul = ground arith; before = λ i h e. ground arith };
    short = omega arith;
    digits = λ i h. ground arith;
    reads = ground arith;
    others = λ b h. ground arith;
  }

  module _ (some_value : value ≢ 0)
      (w : Writes m buf value radix 32 (itoa_from itoa_fuel m buf value radix)) where
    abbrev ended : Mem
    ended = store w.result (buf + w.count) 0

    ended-EndsAt : EndsAt (at ended buf) w.count
    ended-EndsAt = record {
      nul = ground arith;
      before = λ i h e. let d = w.digits i h in ground arith;
    }

    itoa-runs : itoa m value buf radix ≡ strrev itoa_fuel ended buf
    unfolding itoa
    itoa-runs = ground (arith, w.returns)

    value_shown : Shows m buf value radix (itoa m value buf radix)
    value_shown =
        let turned =
          strrev-EndsAt itoa_fuel ended buf w.count ended-EndsAt (omega (arith, w.short))
            (omega (arith, w.short)) in
        let r = turned.0 in
        let back : (i : ℕ) → i < w.count → at r buf i ≡ w.result (buf + (w.count - 1 - i)) =
          λ i h. turned.2 i h ∙ ground arith in
        let digit : (i : ℕ) → i < w.count → 48 ≤ at r buf i =
          λ i h. let d = w.digits (w.count - 1 - i) (omega arith) in omega (arith, back i h) in
        record {
          result = r;
          count = w.count;
          returns = itoa-runs ∙ turned.1;
          ends = record {
            nul = turned.3 (buf + w.count) (inr (omega arith)) ∙ ground arith;
            before = λ i h e. let d = digit i h in omega arith;
          };
          short = w.short;
          digits = digit;
          reads =
              read_digits-ext radix w.count (at r buf) (λ i. at w.result buf (w.count - 1 - i)) back
              ∙ read_digits-mirrored radix w.count (at w.result buf)
              ∙ w.value;
          others = λ b h. turned.3 b (ground arith) ∙ ground (arith, w.rest b);
        }

-- itoa always returns, for a number below 2 ^ 32 and a radix from 2 to 36: it leaves a string of at
-- most 32 characters, none below `0`, at `buf`, which reads as the number, and changes no byte
-- before it or behind its end.
pub itoa-Shows :
    (m : Mem) (buf value radix : ℕ)
    → 2 ≤ radix
    → radix ≤ 36
    → value < 2 ^ 32
    → Shows m buf value radix (itoa m value buf radix)
itoa-Shows m buf value radix lo hi small = elim (ℕ_discrete value 0) [
  | yes e ↦
      subst (λ v. Shows m buf v radix (itoa m v buf radix)) (sym e)
        (zero_shown m buf value radix lo hi)
  | no more ↦
      value_shown m buf value radix lo hi more (itoa_from-Writes radix lo hi 32 m buf value small)
]
