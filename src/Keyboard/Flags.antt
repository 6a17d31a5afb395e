-- ===== src/Keyboard/Flags.antt =====
-- The modifier flags of the keyboard handler follow the keys that are down.
use mp.Base.{
  ℕ, ◌≤◌, ◌<◌, ◌≡◌, ◌⊎◌, inl, inr, refl, ap, Bool, true, false, not, ◌&&◌, List, [], ◌∷◌, arith,
  ltb, ◌==◌, if◌then◌else◌, holds_below, holds_below_lem, ◌∙◌, ltb-true, ltb-false, Bool-cases,
}
use mp.Keyboard.{Keyboard, key_code, code_of, press, release, either, read_key, read_keys}

-- A modifier's flag by its last event: `down` sets it, `up` clears it.
unfoldable pub held : ℕ → ℕ → ℕ → List ℕ → ℕ
held down up flag [] = flag
held down up flag (s ∷ ss) = held down up (if s == down then 1 else if s == up then 0 else flag) ss

-- A scancode that the table covers, or that of a key going up.
abbrev pub IsKnown : ℕ → Type 0
IsKnown s = (s < 90) ⊎ (128 ≤ s)

abbrev pub AllKnown : List ℕ → Type 0
AllKnown [] = Unit {0}
AllKnown (s ∷ ss) = IsKnown s × AllKnown ss

same : Bool → Bool → Bool
same true b = b
same false b = not b

same-eq : (a b : Bool) → same a b ≡ true → a ≡ b
unfolding same
same-eq true true h = refl
same-eq true false h = cc
same-eq false true h = cc
same-eq false false h = refl

-- Each modifier has one key.
abbrev modifier_keys : ℕ → Bool
modifier_keys s =
    same (key_code s == 65) (s == 29)
    && (same (key_code s == 66) (s == 42)
        && (same (key_code s == 67) (s == 54) && same (key_code s == 68) (s == 56)))

modifier_table : holds_below 90 modifier_keys ≡ true
unfolding holds_below same key_code
modifier_table = refl

record Modifiers (code s : ℕ) : Type 0 where
  control : (code == 65) ≡ (s == 29)
  left : (code == 66) ≡ (s == 42)
  right : (code == 67) ≡ (s == 54)
  alt : (code == 68) ≡ (s == 56)

code_of-Modifiers : (beyond : ℕ → ℕ) (s : ℕ) → s < 90 → Modifiers (code_of beyond s) s
unfolding code_of
code_of-Modifiers beyond s h = ground (
  arith,
  holds_below_lem 90 modifier_keys s modifier_table h,
  same-eq (key_code s == 65) (s == 29),
  same-eq (key_code s == 66) (s == 42),
  same-eq (key_code s == 67) (s == 54),
  same-eq (key_code s == 68) (s == 56),
)

-- The flags agree with what was held before, changed by one scancode.
record Follows (k k' : Keyboard) (s : ℕ) : Type 0 where
  control : k'.ctrl_flag ≡ (if s == 29 then 1 else if s == 0x9d then 0 else k.ctrl_flag)
  left : k'.l_shift ≡ (if s == 42 then 1 else if s == 0xaa then 0 else k.l_shift)
  right : k'.r_shift ≡ (if s == 54 then 1 else if s == 0xb6 then 0 else k.r_shift)
  alt : k'.alt_flag ≡ (if s == 56 then 1 else if s == 0xb8 then 0 else k.alt_flag)

press-Follows :
    (stale code s : ℕ) (k : Keyboard)
    → s < 90
    → Modifiers code s
    → Follows k (press k stale code).0 s
unfolding press
press-Follows stale code s k h t = ground arith

release-Follows : (s : ℕ) (k : Keyboard) → 128 ≤ s → Follows k (release k s).0 s
unfolding release
release-Follows s k h = ground arith

read_key-Follows :
    (beyond : ℕ → ℕ) (stale s : ℕ) (k : Keyboard)
    → IsKnown s
    → Follows k (read_key beyond stale k s).0 s
unfolding read_key
read_key-Follows beyond stale s k (inl low) =
    rw (ltb-true s 128 (omega arith))
      (press-Follows stale (code_of beyond s) s k low (code_of-Modifiers beyond s low))
read_key-Follows beyond stale s k (inr high) =
    rw (ltb-false s 128 (omega arith)) (release-Follows s k high)

-- Every flag is 0 or 1, and `shift_flag` says whether a shift key is down.
pub record IsConsistent (k : Keyboard) : Type 0 where
  pub shifted : k.shift_flag ≡ either k.l_shift k.r_shift
  pub left : k.l_shift ≤ 1
  pub right : k.r_shift ≤ 1
  pub alt : k.alt_flag ≤ 1
  pub control : k.ctrl_flag ≤ 1
  pub capital : k.caps_flag ≤ 1

press-IsConsistent :
    (stale code : ℕ) (k : Keyboard) → IsConsistent k → IsConsistent (press k stale code).0
unfolding press
press-IsConsistent stale code k v = ground arith

release-IsConsistent : (s : ℕ) (k : Keyboard) → IsConsistent k → IsConsistent (release k s).0
unfolding release
release-IsConsistent s k v = ground arith

read_key-IsConsistent :
    (beyond : ℕ → ℕ) (stale s : ℕ) (k : Keyboard)
    → IsConsistent k
    → IsConsistent (read_key beyond stale k s).0
unfolding read_key
read_key-IsConsistent beyond stale s k v = elim (Bool-cases (ltb s 128)) [
  | inl e ↦ rw e (press-IsConsistent stale (code_of beyond s) k v)
  | inr e ↦ rw e (release-IsConsistent s k v)
]

-- Whatever scancodes arrive, the flags stay 0 or 1, and `shift_flag` stays the disjunction of the
-- two shift keys' flags.
pub read_keys-IsConsistent :
    (beyond : ℕ → ℕ) (stale : ℕ) (k : Keyboard) (ss : List ℕ)
    → IsConsistent k
    → IsConsistent (read_keys beyond stale k ss).0
unfolding read_keys
read_keys-IsConsistent beyond stale k [] v = v
read_keys-IsConsistent beyond stale k (s ∷ ss) v =
    read_keys-IsConsistent beyond stale (read_key beyond stale k s).0 ss
      (read_key-IsConsistent beyond stale s k v)

-- After scancodes that the table covers or that are of keys going up, the flags of control, of the
-- two shift keys and of alt are as the last event of each of these keys left them.
pub read_keys-held :
    (beyond : ℕ → ℕ) (stale : ℕ) (k : Keyboard) (ss : List ℕ)
    → AllKnown ss
    → let k' = (read_keys beyond stale k ss).0 in
      (k'.ctrl_flag ≡ held 29 0x9d k.ctrl_flag ss)
      × (k'.l_shift ≡ held 42 0xaa k.l_shift ss)
      × (k'.r_shift ≡ held 54 0xb6 k.r_shift ss)
      × (k'.alt_flag ≡ held 56 0xb8 k.alt_flag ss)
unfolding read_keys held
read_keys-held beyond stale k [] h = (refl, refl, refl, refl)
read_keys-held beyond stale k (s ∷ ss) (first, rest) =
    let tail = read_keys-held beyond stale (read_key beyond stale k s).0 ss rest in
    let f = read_key-Follows beyond stale s k first in
    (
      tail.0 ∙ ap (λ f. held 29 0x9d f ss) f.control,
      tail.1 ∙ ap (λ f. held 42 0xaa f ss) f.left,
      tail.2 ∙ ap (λ f. held 54 0xb6 f ss) f.right,
      tail.3 ∙ ap (λ f. held 56 0xb8 f ss) f.alt,
    )
