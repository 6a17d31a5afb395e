-- ===== src/Keyboard/Tests.antt =====
-- Key strokes at concrete scancodes.
use mp.Base.{ℕ, ◌≡◌, refl, inl, inr, arith, List, [], ◌∷◌}
use mp.Keyboard.{
  Keyboard, initial, key_code, code_of, press, release, printable, read_key, read_keys,
}
use mp.Keyboard.Flags.{held, IsConsistent, read_keys-held, read_keys-IsConsistent}

abbrev no_bytes : ℕ → ℕ
no_bytes s = 0

-- Shift down, a, shift up, a.
abbrev typed : List ℕ
typed = 42 ∷ 30 ∷ 0xaa ∷ 30 ∷ []

typed_runs : (read_keys no_bytes 0 initial typed).1 ≡ 0 ∷ 65 ∷ 0 ∷ 97 ∷ []
unfolding read_keys read_key code_of key_code press release printable
typed_runs = refl

abbrev control_down : Keyboard
control_down = record initial { ctrl_flag = 1 }

abbrev alt_down : Keyboard
alt_down = record initial { alt_flag = 1 }

initial-IsConsistent : IsConsistent initial
initial-IsConsistent = ground arith

read_keys-IsConsistent_example : IsConsistent (read_keys no_bytes 0 initial typed).0
read_keys-IsConsistent_example =
    read_keys-IsConsistent no_bytes 0 initial typed initial-IsConsistent

read_keys-held_example :
    let k' = (read_keys no_bytes 0 initial typed).0 in
    (k'.ctrl_flag ≡ held 29 0x9d 0 typed)
    × (k'.l_shift ≡ held 42 0xaa 0 typed)
    × (k'.r_shift ≡ held 54 0xb6 0 typed)
    × (k'.alt_flag ≡ held 56 0xb8 0 typed)
read_keys-held_example =
    read_keys-held no_bytes 0 initial typed
      (inl (omega arith), (inl (omega arith), (inr (omega arith), (inl (omega arith), tt))))
