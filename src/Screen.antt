-- ===== src/Screen.antt =====
-- The text screen of student-distrib/lib.c: 25 rows of 80 cells in video memory, each a character
-- and an attribute, and the cursor. The coordinates are `int`s, kept as 32-bit patterns.
pub mod Cells
pub mod Output
mod Tests
use mp.Base.{
  ℕ, zero, suc, ◌+◌, ◌-◌, ◌*◌, ◌%◌, ◌^◌, Bool, true, false, ◌||◌, Option, none, some, List, length,
  get_or, ltb, ◌==◌, if◌then◌else◌, add32, mul32, neg32, srem32, sdiv32, u8, u32, is_neg,
}
use mp.Memory.{Mem, store}
use mp.Memory.Text.{at, itoa, strlen, itoa_fuel}

pub record Screen : Type 0 where
  pub mem : Mem
  pub screen_x : ℕ
  pub screen_y : ℕ

abbrev pub video : ℕ
video = 0x000b_8000

-- NUM_COLS and NUM_ROWS, which terminal.h calls WIDTH and HEIGHT.
abbrev pub num_cols : ℕ
num_cols = 80

abbrev pub num_rows : ℕ
num_rows = 25

abbrev pub attrib : ℕ
attrib = 7

-- `video_mem + ((NUM_COLS*y + x) << 1)`
abbrev pub cell : ℕ → ℕ → ℕ
cell x y = u32 (video + mul32 (add32 (mul32 num_cols y) x) 2)

unfoldable pub setx : Screen → ℕ → Screen
setx s x = record s { screen_x = x }

unfoldable pub sety : Screen → ℕ → Screen
sety s y = record s { screen_y = y }

unfoldable pub setxy : Screen → ℕ → ℕ → Screen
setxy s x y = record s { screen_x = x; screen_y = y }

unfoldable pub get_char : Screen → ℕ → ℕ → ℕ
get_char s x y = s.mem (cell x y)

-- The loop of clear from cell `i` on.
pub clear_from : ℕ → ℕ → Mem → Mem
clear_from zero i m = m
clear_from (suc left) i m =
    clear_from left (i + 1) (store (store m (video + i * 2) 32) (video + i * 2 + 1) attrib)

unfoldable pub clear : Screen → Screen
clear s = record s { mem = clear_from (num_rows * num_cols) 0 s.mem }

-- `screen_x %= NUM_COLS`, after the step.
unfoldable pub next_x : ℕ → ℕ
next_x x = srem32 (add32 x 1) num_cols

-- The new `screen_y`, from the new `screen_x`.
unfoldable pub next_y : ℕ → ℕ → ℕ
next_y x y = srem32 (add32 y (sdiv32 x num_cols)) num_rows

unfoldable pub putc : Screen → ℕ → Screen
putc s c =
    if c == 10 || c == 13
    then record s { screen_y = add32 s.screen_y 1; screen_x = 0 }
    else (let a = cell s.screen_x s.screen_y in
        record {
          mem = store (store s.mem a c) (u32 (a + 1)) attrib;
          screen_x = next_x s.screen_x;
          screen_y = next_y (next_x s.screen_x) s.screen_y;
        })

-- `n` characters one after another.
unfoldable pub putc_all : ℕ → (ℕ → ℕ) → Screen → Screen
putc_all zero str s = s
putc_all (suc n) str s = putc_all n (λ i. str (i + 1)) (putc s (str 0))

-- The loop of puts: the screen and `index`. The string is read as it stands at each step.
pub puts_from : ℕ → Screen → ℕ → ℕ → Option (Screen × ℕ)
puts_from zero s p index = none
puts_from (suc fuel) s p index = elim (s.mem (p + index) == 0) [
  | true ↦ some (s, index)
  | false ↦ puts_from fuel (putc s (s.mem (p + index))) p (index + 1)
]

unfoldable pub puts : ℕ → Screen → ℕ → Option (Screen × ℕ)
puts fuel s p = puts_from fuel s p 0

-- puts of a string in a local array, which stands apart from the screen.
pub puts_local_from : ℕ → Screen → (ℕ → ℕ) → ℕ → Option (Screen × ℕ)
puts_local_from zero s str index = none
puts_local_from (suc fuel) s str index = elim (str index == 0) [
  | true ↦ some (s, index)
  | false ↦ puts_local_from fuel (putc s (str index)) str (index + 1)
]

-- A local array of printf; what it holds at first is taken to be zeros.
abbrev conv_buf : Mem
conv_buf i = 0

-- `puts(&conv_buf[start])`
unfoldable pub put_local : Screen → Mem → ℕ → Option Screen
put_local s conv start = elim (puts_local_from (itoa_fuel + 8) s (at conv start) 0) [
  | none ↦ none
  | some (r, n) ↦ some r
]

-- `itoa(value, conv_buf, radix)` and its output.
unfoldable pub put_number : Screen → ℕ → ℕ → Option Screen
put_number s value radix = elim (itoa conv_buf value 0 radix) [
  | none ↦ none
  | some conv ↦ put_local s conv 0
]

-- `%d` of a negative number.
unfoldable pub put_negative : Screen → ℕ → Option Screen
put_negative s value = elim (itoa (store conv_buf 0 45) (neg32 value) 1 10) [
  | none ↦ none
  | some conv ↦ put_local s conv 0
]

-- `while(i < 8) conv_buf[i] = '0'`
pub pad_zeros : ℕ → ℕ → Mem → Mem
pad_zeros zero i m = m
pad_zeros (suc left) i m = pad_zeros left (i + 1) (store m i 48)

-- `%#x`: eight places at least.
unfoldable pub put_padded : Screen → ℕ → Option Screen
put_padded s value = elim (itoa conv_buf value 8 16) [
  | none ↦ none
  | some conv ↦ elim (strlen itoa_fuel (at conv 8)) [
    | none ↦ none
    | some starting_index ↦
        put_local s (pad_zeros (8 - starting_index) starting_index conv) starting_index
  ]
]

-- What the conversion character `c` does with the argument `arg`: the screen, and whether the
-- argument is used up.
unfoldable pub convert : ℕ → Screen → Bool → ℕ → ℕ → Option (Screen × Bool)
convert fuel s alternate c arg =
    let used : Option Screen → Option (Screen × Bool) =
      λ o. elim o [ none ↦ none | some r ↦ some (r, true) ] in
    if c == b'%'
    then some (putc s b'%', false)
    else if c == b'x'
    then (if alternate then used (put_padded s arg) else used (put_number s arg 16))
    else if c == b'u'
    then used (put_number s arg 10)
    else if c == b'd'
    then (if is_neg arg then used (put_negative s arg) else used (put_number s arg 10))
    else if c == b'c'
    then some (putc s (u8 arg), true)
    else if c == b's'
    then elim (puts fuel s arg) [ none ↦ none | some (r, n) ↦ some (r, true) ]
    else some (s, false)

-- The `#`s in front of a conversion character: its index, and `alternate`.
pub skip_hashes : ℕ → (ℕ → ℕ) → ℕ → Bool → Option (ℕ × Bool)
skip_hashes zero format i alternate = none
skip_hashes (suc fuel) format i alternate = elim (format i == b'#') [
  | true ↦ skip_hashes fuel format (i + 1) true
  | false ↦ some (i, alternate)
]

-- The loop of printf; `args` are the words on the stack from `esp` on.
pub printf_from : ℕ → Screen → (ℕ → ℕ) → ℕ → (ℕ → ℕ) → ℕ → Option (Screen × ℕ)
printf_from zero s format i args esp = none
printf_from (suc fuel) s format i args esp = elim (format i == 0) [
  | true ↦ some (s, i)
  | false ↦ elim (format i == b'%') [
    | false ↦ printf_from fuel (putc s (format i)) format (i + 1) args esp
    | true ↦ elim (skip_hashes fuel format (i + 1) false) [
      | none ↦ none
      | some (j, alternate) ↦ elim (convert fuel s alternate (format j) (args esp)) [
        | none ↦ none
        | some (r, used) ↦ printf_from fuel r format (j + 1) args (if used then esp + 1 else esp)
      ]
    ]
  ]
]

unfoldable pub printf : ℕ → Screen → (ℕ → ℕ) → (ℕ → ℕ) → Option (Screen × ℕ)
printf fuel s format args = printf_from fuel s format 0 args 0

-- printf of a text without conversions.
unfoldable pub print_text : Screen → List ℕ → Screen
print_text s text = elim (printf (length text + 1) s (λ i. get_or text i 0) (λ i. 0)) [
  | none ↦ s
  | some (r, n) ↦ r
]
