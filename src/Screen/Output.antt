-- ===== src/Screen/Output.antt =====
-- What puts and printf write on a line.
use mp.Base.{
  ℕ, zero, suc, ◌+◌, ◌^◌, ◌≤◌, ◌<◌, ◌≡◌, ◌≢◌, ◌⊎◌, inl, inr, refl, sym, ap, ◌∙◌, Bool, true, false,
  Option, some, arith, fun_ext,
}
use mp.Memory.{Mem}
use mp.Memory.Text.{at, itoa, itoa_fuel, EndsAt}
use mp.Memory.Text.Digits.{itoa-Shows, Shows, read_digits}
use mp.Screen.{
  putc_all, Screen, putc, puts_local_from, put_local, put_number, conv_buf, convert, skip_hashes,
  printf, printf_from,
}
use mp.Screen.Cells.{putc_all-suc, putc_all-Line, Line, IsOnScreen, IsPlain}

puts_local_from-stop :
    (fuel : ℕ) (s : Screen) (str : ℕ → ℕ) (i : ℕ)
    → str i ≡ 0
    → puts_local_from (suc fuel) s str i ≡ some (s, i)
unfolding puts_local_from
puts_local_from-stop fuel s str i e = ground arith

puts_local_from-next :
    (fuel : ℕ) (s : Screen) (str : ℕ → ℕ) (i : ℕ)
    → str i ≢ 0
    → puts_local_from (suc fuel) s str i ≡ puts_local_from fuel (putc s (str i)) str (i + 1)
unfolding puts_local_from
puts_local_from-next fuel s str i e = ground arith

putc_all-zero : (str : ℕ → ℕ) (s : Screen) → putc_all zero str s ≡ s
unfolding putc_all
putc_all-zero str s = refl

abbrev some_line : Screen → ℕ → Option (Screen × ℕ)
some_line s i = some (s, i)

-- puts hands the characters to putc, one after another.
puts_local_from-all :
    (n fuel i : ℕ) (s : Screen) (str : ℕ → ℕ)
    → n < fuel
    → ((j : ℕ) → j < n → str (i + j) ≢ 0)
    → str (i + n) ≡ 0
    → puts_local_from fuel s str i ≡ some (putc_all n (λ j. str (i + j)) s, i + n)
puts_local_from-all n zero i s str h live over = absurd (omega arith)
puts_local_from-all zero (suc fuel) i s str h live over =
    let here : i + 0 ≡ i = omega arith in
    rw (putc_all-zero, here) (puts_local_from-stop fuel s str i (ap str (sym here) ∙ over))
puts_local_from-all (suc n) (suc fuel) i s str h live over =
    let here : i + 0 ≡ i = omega arith in
    puts_local_from-next fuel s str i (λ e. live 0 (omega arith) (ap str here ∙ e))
    ∙ puts_local_from-all n fuel (i + 1) (putc s (str i)) str (omega arith)
        (λ j lt e. live (suc j) (omega arith) (ap str (omega arith) ∙ e))
        (ap str (omega arith) ∙ over)
    ∙ joined
  where
    shifted : ◌≡◌ {A = ℕ → ℕ} (λ j. str (i + 1 + j)) (λ j. str (i + (j + 1)))
    shifted = fun_ext (λ j. ap str (omega arith))

    joined :
        some_line (putc_all n (λ j. str (i + 1 + j)) (putc s (str i))) (i + 1 + n)
        ≡ some_line (putc_all (suc n) (λ j. str (i + j)) s) (i + suc n)
    joined =
        let here : i + 0 ≡ i = omega arith in
        let end : i + 1 + n ≡ i + suc n = omega arith in
        rw (putc_all-suc n (λ j. str (i + j)) s, shifted, here, end) refl

-- A number on the screen: `n` digits in a line, which read as the value.
pub record Printed (value radix : ℕ) (s r : Screen) : Type 0 where
  pub count : ℕ
  pub text : ℕ → ℕ
  pub reads : read_digits radix count text ≡ value
  pub line : Line count text s r

put_local-all :
    (s : Screen) (conv : Mem) (start n : ℕ)
    → n ≤ 40
    → EndsAt (at conv start) n
    → put_local s conv start ≡ some (putc_all n (at conv start) s)
unfolding put_local
put_local-all s conv start n short ends =
    let same : ◌≡◌ {A = ℕ → ℕ} (λ j. at conv start (0 + j)) (at conv start) =
      fun_ext (λ j. ap (at conv start) (omega arith)) in
    let all =
      puts_local_from-all n (itoa_fuel + 8) 0 s (at conv start) (omega arith)
        (λ j lt e. ends.before j lt (ap (at conv start) (omega arith) ∙ e))
        (ap (at conv start) (omega arith) ∙ ends.nul) in
    rw (put_local, all, same) refl

put_number-Printed :
    (s : Screen) (value radix : ℕ)
    → IsOnScreen s
    → s.screen_x + 32 ≤ 80
    → 2 ≤ radix
    → radix ≤ 36
    → value < 2 ^ 32
    → (r : Screen) × (put_number s value radix ≡ some r) × Printed value radix s r
unfolding put_number
put_number-Printed s value radix on room lo hi small = (
  putc_all w.count (at w.result 0) s,
  rw (put_number, w.returns) (put_local-all s w.result 0 w.count (omega (arith, w.short)) w.ends),
  record {
    count = w.count;
    text = at w.result 0;
    reads = w.reads;
    line = putc_all-Line w.count (at w.result 0) s on (omega (arith, w.short)) plain;
  },
)
  where
    w : Shows conv_buf 0 value radix (itoa conv_buf value 0 radix)
    w = itoa-Shows conv_buf 0 value radix lo hi small

    plain : (i : ℕ) → i < w.count → IsPlain (at w.result 0 i)
    plain i h = let d = w.digits i h in (λ e. omega arith, λ e. omega arith)

-- The conversions of unsigned numbers: the character and the radix.
abbrev pub IsUnsigned : ℕ → ℕ → Type 0
IsUnsigned c radix = ((c ≡ b'u') × (radix ≡ 10)) ⊎ ((c ≡ b'x') × (radix ≡ 16))

convert-unsigned :
    (fuel : ℕ) (s r : Screen) (c radix arg : ℕ)
    → IsUnsigned c radix
    → put_number s arg radix ≡ some r
    → convert fuel s false c arg ≡ some (r, true)
unfolding convert
convert-unsigned fuel s r c radix arg (inl (e, f)) h =
    let g : put_number s arg 10 ≡ some r = cc in rw (e, g) refl
convert-unsigned fuel s r c radix arg (inr (e, f)) h =
    let g : put_number s arg 16 ≡ some r = cc in rw (e, g) refl

skip_hashes-none :
    (fuel : ℕ) (format : ℕ → ℕ) (i : ℕ) (a : Bool)
    → format i ≢ 35
    → skip_hashes (suc fuel) format i a ≡ some (i, a)
unfolding skip_hashes
skip_hashes-none fuel format i a h = ground arith

printf_from-over :
    (fuel : ℕ) (s : Screen) (format args : ℕ → ℕ) (i esp : ℕ)
    → format i ≡ 0
    → printf_from (suc fuel) s format i args esp ≡ some (s, i)
unfolding printf_from
printf_from-over fuel s format args i esp e = ground arith

printf_from-conversion :
    (fuel : ℕ) (s r : Screen) (format args : ℕ → ℕ) (i esp : ℕ)
    → format i ≡ b'%'
    → format (i + 1) ≢ 35
    → convert (suc fuel) s false (format (i + 1)) (args esp) ≡ some (r, true)
    → printf_from (suc (suc fuel)) s format i args esp
      ≡ printf_from (suc fuel) r format (i + 1 + 1) args (esp + 1)
unfolding printf_from
printf_from-conversion fuel s r format args i esp e no_hash done =
    ground (arith, skip_hashes-none fuel format (i + 1) false)

-- printf of `%u` or `%x`, with at least 32 places left in the line, returns 2; it writes the digits
-- of its argument, in base 10 or 16: what stands in the line reads as the number. Nothing else on
-- the screen changes.
pub printf-Printed :
    (fuel : ℕ) (s : Screen) (format args : ℕ → ℕ) (radix : ℕ)
    → IsOnScreen s
    → s.screen_x + 32 ≤ 80
    → format 0 ≡ b'%'
    → IsUnsigned (format 1) radix
    → format 2 ≡ 0
    → args 0 < 2 ^ 32
    → 1 < fuel
    → (r : Screen) × (printf fuel s format args ≡ some (r, 2)) × Printed (args 0) radix s r
unfolding printf
printf-Printed zero s format args radix on room percent conv over small h = absurd (omega arith)
printf-Printed (suc zero) s format args radix on room percent conv over small h =
    absurd (omega arith)
printf-Printed (suc (suc fuel)) s format args radix on room percent conv over small h =
    let done = put_number-Printed s (args 0) radix on room (ground arith) (ground arith) small in
    (
      done.0,
      printf_from-conversion fuel s done.0 format args 0 0 percent (ground arith)
            (convert-unsigned (suc fuel) s done.0 (format 1) radix (args 0) conv done.1)
          ∙ printf_from-over fuel done.0 format args 2 1 over,
      done.2,
    )
