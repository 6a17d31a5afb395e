-- ===== src/Memory/Text/Reverse.antt =====
-- strrev turns a string round in place.
use mp.Base.{
  ℕ, zero, suc, ◌+◌, ◌-◌, ◌^◌, ◌≤◌, ◌<◌, ◌≡◌, refl, ap, ◌∙◌, Option, some, leb, ◌&&◌, if◌then◌else◌,
  arith, dec_lt, ℕ_discrete, ◌⊎◌, sub32,
}
use mp.Memory.{Mem, store}
use mp.Memory.Text.{at, strrev, strrev_from, EndsAt}
use mp.Memory.Text.Laws.{strlen-EndsAt}

-- The bytes from `beg` to `end` of the string at `s`, the last first.
abbrev mirrored : Mem → ℕ → ℕ → ℕ → Mem
mirrored m s beg end b =
    if leb (s + beg) b && leb b (s + end) then m (s + (beg + end - (b - s))) else m b

record Mirrors (m : Mem) (s beg end : ℕ) (r : Option Mem) : Type 0 where
  result : Mem
  returns : r ≡ some result
  bytes : (b : ℕ) → result b ≡ mirrored m s beg end b

strrev_from-stop :
    (fuel : ℕ) (m : Mem) (s beg end : ℕ)
    → end ≤ beg
    → beg < 2 ^ 31
    → strrev_from (suc fuel) m s beg end ≡ some m
unfolding strrev_from
strrev_from-stop fuel m s beg end h small = ground arith

strrev_from-swap :
    (fuel : ℕ) (m : Mem) (s beg end : ℕ)
    → beg < end
    → end + 1 < 2 ^ 31
    → strrev_from (suc fuel) m s beg end
      ≡ strrev_from fuel
          (store (store m (s + end) (m (s + beg))) (s + beg) (m (s + end)))
          s
          (beg + 1)
          (end - 1)
unfolding strrev_from
strrev_from-swap fuel m s beg end h small = ground arith

-- After a swap of the two ends, the mirror of what lies between is the mirror of all.
swap_mirrored :
    (m : Mem) (s beg end b : ℕ)
    → beg < end
    → mirrored
        (store (store m (s + end) (m (s + beg))) (s + beg) (m (s + end)))
        s
        (beg + 1)
        (end - 1)
        b
      ≡ mirrored m s beg end b
swap_mirrored m s beg end b h = ground arith

strrev_from-Mirrors :
    (fuel : ℕ) (m : Mem) (s beg end : ℕ)
    → end + 1 < 2 ^ 31
    → beg ≤ end + 1
    → end + 1 < beg + fuel
    → Mirrors m s beg end (strrev_from fuel m s beg end)
strrev_from-Mirrors zero m s beg end small near enough = absurd (omega arith)
strrev_from-Mirrors (suc fuel) m s beg end small near enough = elim (dec_lt beg end) [
  | no stop ↦ record {
    result = m;
    returns = strrev_from-stop fuel m s beg end (omega arith) (omega arith);
    bytes = λ b. ground arith;
  }
  | yes go ↦
      let rest =
        strrev_from-Mirrors fuel (store (store m (s + end) (m (s + beg))) (s + beg) (m (s + end))) s
          (beg + 1) (end - 1) (omega arith) (omega arith) (omega arith) in
      record {
        result = rest.result;
        returns = strrev_from-swap fuel m s beg end go (omega arith) ∙ rest.returns;
        bytes = λ b. rest.bytes b ∙ swap_mirrored m s beg end b go;
      }
]

strrev-runs :
    (fuel : ℕ) (m : Mem) (s n : ℕ)
    → EndsAt (at m s) n
    → n < fuel
    → strrev fuel m s ≡ strrev_from fuel m s 0 (sub32 n 1)
unfolding strrev
strrev-runs fuel m s n ends h = rw (strrev, strlen-EndsAt fuel (at m s) n ends h) refl

strrev_from-empty :
    (fuel : ℕ) (m : Mem) (s : ℕ) → 0 < fuel → strrev_from fuel m s 0 (sub32 0 1) ≡ some m
unfolding strrev_from
strrev_from-empty zero m s h = absurd (omega arith)
strrev_from-empty (suc fuel) m s h = refl

-- On a string of `n` characters strrev returns; the string is turned round, its end stays where it
-- is, and no other byte changes.
pub strrev-EndsAt :
    (fuel : ℕ) (m : Mem) (s n : ℕ)
    → EndsAt (at m s) n
    → n < fuel
    → n < 2 ^ 31
    → (r : Mem) × (strrev fuel m s ≡ some r)
      × ((i : ℕ) → i < n → r (s + i) ≡ m (s + (n - 1 - i)))
      × ((b : ℕ) → (b < s) ⊎ (s + n ≤ b) → r b ≡ m b)
strrev-EndsAt fuel m s n ends h small = elim (ℕ_discrete n 0) [
  | yes none_at_all ↦ (
    m,
    strrev-runs fuel m s n ends h ∙ (rw none_at_all (strrev_from-empty fuel m s (omega arith))),
    λ i lt. absurd (omega arith),
    λ b h. refl,
  )
  | no some_at_all ↦
      let turned =
        strrev_from-Mirrors fuel m s 0 (n - 1) (omega arith) (omega arith) (omega arith) in
      (
        turned.result,
        strrev-runs fuel m s n ends h ∙ ap (strrev_from fuel m s 0) (omega arith) ∙ turned.returns,
        λ i lt. turned.bytes (s + i) ∙ ground arith,
        λ b out. turned.bytes b ∙ ground arith,
      )
]
