-- ===== src/Console/Bounds.antt =====
-- The line buffer is never overrun.
use mp.Base.{
  ℕ, zero, suc, ◌+◌, ◌≤◌, ◌<◌, ◌≡◌, refl, ap, ◌∙◌, Bool, true, false, ◌||◌, ◌&&◌, leb, ltb, ◌==◌,
  if◌then◌else◌, arith, Bool-cases, inl, inr, not, slt,
}
use mp.Screen.{clear, get_char}
use mp.Terminal.{
  Terminal, Outcome, terminal_switch, show_terminal, start_terminal, save_terminal, set_cursor,
}
use mp.Terminal.Switching.{state_of}
use mp.Console.{
  on_screen, is_last_row, redraw, move_up, new_line, erase, type_char, switch_by_key, keyboard_read,
  is_printable,
}

-- From `t` to `u` the count stays below 128, and no byte behind the 128 of the buffer changes.
pub record KeepsBuffer (t u : Terminal) : Type 0 where
  pub count : t.counter < 128 → u.counter < 128
  pub beyond : t.counter < 128 → (i : ℕ) → 128 ≤ i → u.text_buf i ≡ t.text_buf i

redraw-keeps :
    (n i : ℕ) (h : ℕ → ℕ → ℕ) (t : Terminal)
    → ((redraw n i h t).counter ≡ t.counter) × ((redraw n i h t).text_buf ≡ t.text_buf)
unfolding redraw set_cursor
redraw-keeps zero i h t = (refl, refl)
redraw-keeps (suc n) i h t = redraw-keeps n (i + 1) h _

pub move_up-keeps :
    (t : Terminal) (y : ℕ)
    → ((move_up t y).counter ≡ t.counter) × ((move_up t y).text_buf ≡ t.text_buf)
unfolding move_up
move_up-keeps t y = elim (Bool-cases (is_last_row y)) [
  | inl last ↦ rw last (redraw-keeps 24 1 (λ i j. get_char t.screen j i) (on_screen t clear))
  | inr above ↦ rw above (refl, refl)
]

new_line-KeepsBuffer : (t : Terminal) (y k : ℕ) → KeepsBuffer t (new_line t y k)
unfolding new_line
new_line-KeepsBuffer t y k =
    let kept = move_up-keeps t y in
    record {
      count = λ h. ground (arith, kept.0);
      beyond = λ h i far. ground (arith, kept.0, ap (λ (f : ℕ → ℕ). f i) kept.1);
    }

erase-KeepsBuffer : (t : Terminal) (x y : ℕ) → KeepsBuffer t (erase t x y)
unfolding erase set_cursor
erase-KeepsBuffer t x y = record { count = λ h. ground arith; beyond = λ h i far. ground arith }

type_char-KeepsBuffer : (t : Terminal) (k : ℕ) → t.counter < 127 → KeepsBuffer t (type_char t k)
unfolding type_char
type_char-KeepsBuffer t k room = record {
  count = λ h. ground arith;
  beyond = λ h i far. ground arith;
}

terminal_switch-KeepsBuffer :
    (t : Terminal) (n : ℕ) → KeepsBuffer t (state_of (terminal_switch t n))
unfolding terminal_switch show_terminal start_terminal save_terminal set_cursor
terminal_switch-KeepsBuffer t n = record {
  count = λ h. ground arith;
  beyond = λ h i far. ground arith;
}

-- A branch keeps the buffer if both of its ways do.
branch-KeepsBuffer :
    (t : Terminal) (b : Bool) (o p : Outcome)
    → (b ≡ true → KeepsBuffer t (state_of o))
    → (b ≡ false → KeepsBuffer t (state_of p))
    → KeepsBuffer t (state_of (if b then o else p))
branch-KeepsBuffer t true o p yes_way no_way = yes_way refl
branch-KeepsBuffer t false o p yes_way no_way = no_way refl

same-KeepsBuffer :
    (t u : Terminal) → u.counter ≡ t.counter → u.text_buf ≡ t.text_buf → KeepsBuffer t u
same-KeepsBuffer t u c b = record {
  count = λ h. omega (arith, c);
  beyond = λ h i far. ap (λ (f : ℕ → ℕ). f i) b;
}

via-KeepsBuffer :
    (t t' u : Terminal)
    → t'.counter ≡ t.counter
    → t'.text_buf ≡ t.text_buf
    → KeepsBuffer t' u
    → KeepsBuffer t u
via-KeepsBuffer t t' u c b k = record {
  count = λ h. k.count (omega (arith, c));
  beyond = λ h i far. k.beyond (omega (arith, c)) i far ∙ ap (λ (f : ℕ → ℕ). f i) b;
}

switch_by_key-KeepsBuffer : (t : Terminal) (k : ℕ) → KeepsBuffer t (state_of (switch_by_key t k))
unfolding switch_by_key
switch_by_key-KeepsBuffer t k =
    branch-KeepsBuffer t (k == 0xf5) _ _ (λ e. terminal_switch-KeepsBuffer t 1)
      (λ e.
        branch-KeepsBuffer t (k == 0xf6) _ _
          (λ e.
            via-KeepsBuffer t (record t { term2_press = 1 }) _ refl refl
              (terminal_switch-KeepsBuffer _ 2))
          (λ e.
            via-KeepsBuffer t (record t { term3_press = 1 }) _ refl refl
              (terminal_switch-KeepsBuffer _ 3)))

-- Whatever keystroke arrives, a count below 128 stays below 128, and no byte behind the 128 of the
-- line buffer is written, also where the keystroke switches the terminal.
pub keyboard_read-KeepsBuffer :
    (t : Terminal) (k : ℕ) → KeepsBuffer t (state_of (keyboard_read t k))
unfolding keyboard_read set_cursor
keyboard_read-KeepsBuffer t k =
    let t' = set_cursor t t.screen.screen_x t.screen.screen_y in
    branch-KeepsBuffer t (k == 9) _ _ (λ e. same-KeepsBuffer t _ refl refl)
      (λ e.
        branch-KeepsBuffer t (k == 0xf8) _ _ (λ e. same-KeepsBuffer t _ refl refl)
          (λ e.
            branch-KeepsBuffer t (k == 0xff) _ _ (λ e. same-KeepsBuffer t _ refl refl)
              (λ e.
                branch-KeepsBuffer t (not (slt t.screen.screen_x 79) || k == 10) _ _
                  (λ e.
                    via-KeepsBuffer t t' _ refl refl (new_line-KeepsBuffer t' t.screen.screen_y k))
                  (λ e.
                    branch-KeepsBuffer t (k == 8) _ _
                      (λ e.
                        via-KeepsBuffer t t' _ refl refl
                          (erase-KeepsBuffer t' t.screen.screen_x t.screen.screen_y))
                      (λ e.
                        branch-KeepsBuffer t (is_printable k && ltb t.counter 127) _ _
                          (λ e.
                            via-KeepsBuffer t t' _ refl refl
                              (type_char-KeepsBuffer t' k (ground arith)))
                          (λ e.
                            branch-KeepsBuffer t (leb 0xf5 k && leb k 0xf7) _ _
                              (λ e.
                                via-KeepsBuffer t t' _ refl refl (switch_by_key-KeepsBuffer t' k))
                              (λ e. same-KeepsBuffer t _ refl refl)))))))
