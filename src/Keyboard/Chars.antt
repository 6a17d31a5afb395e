-- ===== src/Keyboard/Chars.antt =====
-- The characters that keys deliver.
use mp.Base.{ℕ, ◌+◌, ◌-◌, ◌≤◌, ◌<◌, ◌≡◌, ◌≢◌, ◌⊎◌, ◌∙◌, arith, ◌==◌, if◌then◌else◌}
use mp.Keyboard.{
  Keyboard, key_code, code_of, press, printable, control, read_key, ctrl_c, ctrl_l, t1_switch,
}

module _ (beyond : ℕ → ℕ) (stale : ℕ) (k : Keyboard) (s : ℕ) (known : s < 90) where
  read_key-press : read_key beyond stale k s ≡ press k stale (key_code s)
  unfolding read_key code_of
  read_key-press = ground arith

  -- A letter key, with control up, delivers the letter: as a capital exactly when one of shift and
  -- caps lock is on without the other. No flag changes.
  pub read_key-letter :
      k.ctrl_flag ≢ 1
      → 97 ≤ key_code s
      → key_code s ≤ 122
      → read_key beyond stale k s
        ≡ (k, if k.shift_flag == k.caps_flag then key_code s else key_code s - 32)
  read_key-letter up lo hi = read_key-press ∙ typed
    where
      typed :
          press k stale (key_code s)
          ≡ (k, if k.shift_flag == k.caps_flag then key_code s else key_code s - 32)
      typed = unfold press printable in ground arith

  -- With control down, the letters c and l deliver their commands; any other key of the range from
  -- the apostrophe to z that is no modifier and no terminal switch delivers whatever the
  -- uninitialised variable held.
  pub read_key-control :
      k.ctrl_flag ≡ 1
      → 39 ≤ key_code s
      → key_code s ≤ 122
      → (key_code s < 65) ⊎ (72 < key_code s)
      → read_key beyond stale k s
        ≡ (k, if key_code s == 99 then ctrl_c else if key_code s == 108 then ctrl_l else stale)
  read_key-control down lo hi plain = read_key-press ∙ typed
    where
      typed :
          press k stale (key_code s)
          ≡ (k, if key_code s == 99 then ctrl_c else if key_code s == 108 then ctrl_l else stale)
      typed = unfold press control in ground arith

  -- With alt down, the keys F1, F2 and F3 deliver the three terminal commands in order.
  read_key-switch :
      k.alt_flag ≡ 1
      → (n : ℕ) → n < 3
      → key_code s ≡ 70 + n
      → read_key beyond stale k s ≡ (k, t1_switch + n)
  read_key-switch down n lt e = read_key-press ∙ typed
    where
      typed : press k stale (key_code s) ≡ (k, t1_switch + n)
      typed = unfold press in ground arith
