-- ===== src/Rtc/Rate.antt =====
-- Which frequencies rtc_write takes, and what it programs.
use mp.Base.{
  ◌≢◌, ==_iff, ℕ_discrete, ℕ, ◌+◌, ◌-◌, ◌*◌, ◌/◌, ◌^◌, ◌<◌, ◌≡◌, refl, Bool, true, false, Option,
  none, some, List, [], ◌∷◌, arith, ◌==◌, bit_and, bit_or, minus_one, ◌&&◌, holds_below,
  holds_below_lem,
}
use mp.Io.{Io, outb, inb, cli, sti}
use mp.Rtc.{po2_from, is_po2, rate_from, rtc_rate, rtc_set, rtc_write}

-- The frequencies 2, 4, ... 1024.
abbrev pub freq_of : ℕ → ℕ
freq_of k = 2 ^ (k + 1)

is_po2-false : (f : ℕ) → ((k : ℕ) → k < 10 → f ≢ freq_of k) → is_po2 f ≡ false
unfolding is_po2 po2_from
is_po2-false f h = ground (
  arith,
  h 0 (omega arith),
  h 1 (omega arith),
  h 2 (omega arith),
  h 3 (omega arith),
  h 4 (omega arith),
  h 5 (omega arith),
  h 6 (omega arith),
  h 7 (omega arith),
  h 8 (omega arith),
  h 9 (omega arith),
)

-- What the two loops give for the frequency with exponent `k + 1`.
abbrev loops_agree : ℕ → Bool
loops_agree k =
    is_po2 (freq_of k) && elim (rtc_rate (freq_of k)) [ none ↦ false | some r ↦ r == 15 - k ]

loops_table : holds_below 10 loops_agree ≡ true
unfolding holds_below is_po2 po2_from rtc_rate rate_from
loops_table = refl

is_po2-freq_of : (k : ℕ) → k < 10 → is_po2 (freq_of k) ≡ true
is_po2-freq_of k h = ground (arith, holds_below_lem 10 loops_agree k loops_table h)

rtc_rate-freq_of : (k : ℕ) → k < 10 → rtc_rate (freq_of k) ≡ some (15 - k)
rtc_rate-freq_of k h = ground (arith, holds_below_lem 10 loops_agree k loops_table h)

rate_table :
    holds_below 256
      (λ prev. holds_below 16 (λ r. bit_or (bit_and prev 0xf0) r == prev / 16 * 16 + r))
    ≡ true
unfolding holds_below
rate_table = refl

register_a : (prev r : ℕ) → prev < 256 → r < 16 → bit_or (bit_and prev 0xf0) r ≡ prev / 16 * 16 + r
register_a prev r hp hr = (==_iff _ _).0 (
    holds_below_lem 16 (λ r. bit_or (bit_and prev 0xf0) r == prev / 16 * 16 + r) r
      (holds_below_lem 256 _ prev rate_table hp) hr)

-- The port traffic that programs the low four bits of register A.
abbrev pub programs : ℕ → ℕ → List Io
programs prev rate =
    cli ∷ outb 0x8a 0x70 ∷ inb 0x71 ∷ outb 0x8a 0x70 ∷ outb (prev / 16 * 16 + rate) 0x71 ∷ sti ∷ []

-- On four bytes that hold a power of two from 2 to 1024, rtc_write returns 0 and programs register
-- A: its upper four bits stay as they were read, and its lower four become the rate at which the
-- clock, 32768 / 2 ^ (rate - 1), ticks with just that frequency.
pub rtc_write-accepts :
    (k prev : ℕ)
    → k < 10
    → prev < 256
    → (rate : ℕ) × (rtc_write (some (freq_of k)) 4 prev ≡ some (0, programs prev rate))
      × (rate < 16)
      × (freq_of k * 2 ^ (rate - 1) ≡ 32768)
unfolding rtc_write rtc_set
rtc_write-accepts k prev h hp = (
  15 - k,
  ground
      (arith, is_po2-freq_of k h, rtc_rate-freq_of k h, register_a prev (15 - k) hp (omega arith)),
  omega arith,
  (==_iff _ _).0 (holds_below_lem 10 (λ k. freq_of k * 2 ^ (15 - k - 1) == 32768) k tick_table h),
)
  where
    tick_table : holds_below 10 (λ k. freq_of k * 2 ^ (15 - k - 1) == 32768) ≡ true
    tick_table = unfold holds_below in refl

-- In every other case, a null pointer, a length that is not 4 or a value that is no power of two
-- from 2 to 1024, rtc_write returns -1 and touches no port.
pub rtc_write-rejects :
    (buf : Option ℕ) (nbytes prev : ℕ)
    → ((f : ℕ) → buf ≡ some f → nbytes ≡ 4 → (k : ℕ) → k < 10 → f ≢ freq_of k)
    → rtc_write buf nbytes prev ≡ some (minus_one, [])
unfolding rtc_write
rtc_write-rejects none nbytes prev h = refl
rtc_write-rejects (some f) nbytes prev h = elim (ℕ_discrete nbytes 4) [
  | yes e ↦ ground (arith, is_po2-false f (h f refl e))
  | no e ↦ ground arith
]
