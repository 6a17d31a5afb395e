-- ===== src/Keyboard.antt =====
-- student-distrib/keyboard.c: scancodes to characters and commands.
pub mod Flags
pub mod Chars
mod Tests
use mp.Base.{
  ℕ, zero, suc, ◌+◌, ◌-◌, Bool, true, false, not, ◌&&◌, ◌||◌, List, [], ◌∷◌, ltb, leb, ◌==◌,
  if◌then◌else◌, get_or, get_elem?, Option, none, some,
}

-- The static flags.
pub record Keyboard : Type 0 where
  pub shift_flag : ℕ
  pub alt_flag : ℕ
  pub caps_flag : ℕ
  pub ctrl_flag : ℕ
  pub l_shift : ℕ
  pub r_shift : ℕ

abbrev pub initial : Keyboard
initial = record {
  shift_flag = 0;
  alt_flag = 0;
  caps_flag = 0;
  ctrl_flag = 0;
  l_shift = 0;
  r_shift = 0;
}

-- The codes of keyboard.h that the table holds and the handler tests.
abbrev pub backspace : ℕ
backspace = 8

abbrev pub ctrl_press : ℕ
ctrl_press = 65

abbrev pub left_shift_press : ℕ
left_shift_press = 66

abbrev pub right_shift_press : ℕ
right_shift_press = 67

abbrev pub alt_press : ℕ
alt_press = 68

abbrev pub caps : ℕ
caps = 69

abbrev pub f1 : ℕ
f1 = 70

abbrev pub f2 : ℕ
f2 = 71

abbrev pub f3 : ℕ
f3 = 72

abbrev pub ctrl_alt : ℕ
ctrl_alt = 0xf9

abbrev pub ctrl_c : ℕ
ctrl_c = 0xf8

abbrev pub ctrl_l : ℕ
ctrl_l = 0xff

abbrev pub t1_switch : ℕ
t1_switch = 0xf5

abbrev pub t2_switch : ℕ
t2_switch = 0xf6

abbrev pub t3_switch : ℕ
t3_switch = 0xf7

abbrev pub key_codes : List ℕ
key_codes =
    0 ∷ 27 ∷ 49 ∷ 50 ∷ 51 ∷ 52 ∷ 53 ∷ 54 ∷ 55 ∷ 56 ∷ 57 ∷ 48 ∷ 45 ∷ 61 ∷ 8 ∷ 9 ∷ 113 ∷ 119 ∷ 101
    ∷ 114 ∷ 116 ∷ 121 ∷ 117 ∷ 105 ∷ 111 ∷ 112 ∷ 91 ∷ 93 ∷ 10 ∷ 65 ∷ 97 ∷ 115 ∷ 100 ∷ 102 ∷ 103 ∷ 104
    ∷ 106 ∷ 107 ∷ 108 ∷ 59 ∷ 39 ∷ 96 ∷ 66 ∷ 92 ∷ 122 ∷ 120 ∷ 99 ∷ 118 ∷ 98 ∷ 110 ∷ 109 ∷ 44 ∷ 46
    ∷ 47 ∷ 67 ∷ 42 ∷ 68 ∷ 32 ∷ 69 ∷ 70 ∷ 71 ∷ 72 ∷ 73 ∷ 74 ∷ 75 ∷ 76 ∷ 77 ∷ 78 ∷ 79 ∷ 80 ∷ 81 ∷ 81
    ∷ 83 ∷ 84 ∷ 45 ∷ 85 ∷ 86 ∷ 87 ∷ 43 ∷ 88 ∷ 89 ∷ 90 ∷ 91 ∷ 92 ∷ 93 ∷ 94 ∷ 95 ∷ 33 ∷ 34 ∷ 35 ∷ []

unfoldable pub key_code : ℕ → ℕ
key_code scancode = get_or key_codes scancode 0

-- `key_codes[scancode]`; `beyond` gives the bytes that stand behind the array of 90.
unfoldable pub code_of : (ℕ → ℕ) → ℕ → ℕ
code_of beyond scancode = if ltb scancode 90 then key_code scancode else beyond scancode

-- shift
unfoldable pub shift : ℕ → ℕ
shift c =
    if c == 96
    then 126
    else if c == 49
    then 33
    else if c == 50
    then 64
    else if c == 51
    then 35
    else if c == 52
    then 36
    else if c == 53
    then 37
    else if c == 54
    then 94
    else if c == 55
    then 38
    else if c == 56
    then 42
    else if c == 57
    then 40
    else if c == 48
    then 41
    else if c == 45
    then 95
    else if c == 61
    then 43
    else if c == 91
    then 123
    else if c == 93
    then 125
    else if c == 92
    then 124
    else if c == 59
    then 58
    else if c == 39
    then 34
    else if c == 44
    then 60
    else if c == 46
    then 62
    else if c == 47
    then 63
    else c

-- The character of a key in the printable range while control is up.
unfoldable pub printable : Keyboard → ℕ → ℕ
printable k code =
    if leb code b'z' && leb b'a' code
    then (if k.shift_flag == k.caps_flag then code else code - 32)
    else if (leb 39 code && leb code b'@') || (leb 91 code && leb code 96)
    then (if k.shift_flag == 0 then code else shift code)
    else 0

-- The characters that the handler knows with control; it leaves `charval` as it finds it, `stale`,
-- on any other.
unfoldable pub control : ℕ → ℕ → ℕ
control stale code = if code == b'c' then ctrl_c else if code == b'l' then ctrl_l else stale

-- The branch of read_keyboard for a key that goes down.
unfoldable pub press : Keyboard → ℕ → ℕ → Keyboard × ℕ
press k stale code =
    if code == left_shift_press
    then (record k { l_shift = 1; shift_flag = 1 }, 0)
    else if code == right_shift_press
    then (record k { r_shift = 1; shift_flag = 1 }, 0)
    else if code == alt_press
    then (record k { alt_flag = 1 }, if k.ctrl_flag == 0 then 0 else ctrl_alt)
    else if code == ctrl_press
    then (record k { ctrl_flag = 1 }, 0)
    else if code == caps
    then (record k { caps_flag = if k.caps_flag == 1 then 0 else 1 }, 0)
    else if (k.alt_flag == 1) && (leb f1 code && leb code f3)
    then (k, if code == f1 then t1_switch else if code == f2 then t2_switch else t3_switch)
    else if leb 39 code && leb code b'z'
    then (k, if k.ctrl_flag == 1 then control stale code else printable k code)
    else (k, code)

-- The flags after a key goes up, before `shift_flag` is set.
unfoldable pub lift : Keyboard → ℕ → Keyboard
lift k scancode =
    if scancode == 0xaa
    then record k { l_shift = 0 }
    else if scancode == 0xb6
    then record k { r_shift = 0 }
    else if scancode == 0x9d
    then record k { ctrl_flag = 0 }
    else if scancode == 0xb8
    then record k { alt_flag = 0 }
    else k

-- `l_shift || r_shift`
abbrev pub either : ℕ → ℕ → ℕ
either a b = if not (a == 0) || not (b == 0) then 1 else 0

unfoldable pub release : Keyboard → ℕ → Keyboard × ℕ
unfolding lift
release k scancode =
    let k' = lift k scancode in (record k' { shift_flag = either k'.l_shift k'.r_shift }, 0)

-- read_keyboard up to its call of keyboard_read: the new flags and `charval`. `stale` is what the
-- uninitialised `charval` holds.
unfoldable pub read_key : (ℕ → ℕ) → ℕ → Keyboard → ℕ → Keyboard × ℕ
read_key beyond stale k scancode =
    if ltb scancode 0x80 then press k stale (code_of beyond scancode) else release k scancode

-- The handler run on one scancode after another: the flags, and what is handed on.
unfoldable pub read_keys : (ℕ → ℕ) → ℕ → Keyboard → List ℕ → Keyboard × List ℕ
read_keys beyond stale k [] = (k, [])
read_keys beyond stale k (s ∷ ss) =
    let (k', c) = read_key beyond stale k s in
    let (k'', cs) = read_keys beyond stale k' ss in (k'', c ∷ cs)
