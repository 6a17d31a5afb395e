-- ===== src/Console/Tests.antt =====
-- Keys and lines on a concrete terminal.
use mp.Base.{ℕ, ◌+◌, ◌<◌, ◌≡◌, refl, arith, inl, inr, some, List, [], ◌∷◌}
use mp.Terminal.{Terminal}
use mp.Terminal.Tests.{first_shown}
use mp.Terminal.Switching.{state_of}
use mp.Console.{keyboard_read, terminal_read, scroll}
use mp.Console.Bounds.{keyboard_read-KeepsBuffer, KeepsBuffer}
use mp.Console.Editing.{terminal_read-typed, Holds, chars, press_all, edit_all}
use mp.Console.Scrolling.{scroll-MovedUp, MovedUp}

keyboard_read-KeepsBuffer_example :
    KeepsBuffer first_shown (state_of (keyboard_read first_shown 0xf6))
keyboard_read-KeepsBuffer_example = keyboard_read-KeepsBuffer first_shown 0xf6

scroll-MovedUp_example : MovedUp first_shown.screen (scroll first_shown).screen
scroll-MovedUp_example =
    scroll-MovedUp first_shown (λ x y hx hy. (λ e. omega arith, λ e. omega arith))

abbrev prompted : Terminal
prompted = record first_shown {
  counter = 0;
  screen = record { mem = λ a. 32; screen_x = 7; screen_y = 3 };
}

prompted-Holds : Holds 7 3 [] prompted
prompted-Holds = record {
  count = refl;
  line = λ i h. absurd (omega arith);
  shown = λ i h. absurd (omega arith);
  column = refl;
  row = refl;
}

-- `l`, `a`, backspace, `s`
abbrev ls_keys : List ℕ
ls_keys = 108 ∷ 97 ∷ 8 ∷ 115 ∷ []

ls_line : edit_all [] ls_keys ≡ 115 ∷ 108 ∷ []
ls_line = refl

terminal_read-typed_example :
    (v : Terminal) × (terminal_read
        (state_of (keyboard_read (press_all prompted ls_keys) 10))
        0
        5000
        128
      ≡ some (v, some 2))
    × ((i : ℕ) → i < 2 → v.screen.mem (5000 + i) ≡ chars (115 ∷ 108 ∷ []) i)
    × (v.screen.mem 5002 ≡ 10)
    × (v.entered ≡ 0)
terminal_read-typed_example =
    terminal_read-typed 7 3 (omega arith) (omega arith) prompted ls_keys 5000 128 prompted-Holds
      (
        inr (omega arith, omega arith),
        (inr (omega arith, omega arith), (inl refl, (inr (omega arith, omega arith), tt))),
      )
      (omega arith) (omega arith) (omega arith)
