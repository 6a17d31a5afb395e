-- ===== src/Console.antt =====
-- student-distrib/terminal.c: what a keystroke does, and the terminal's read and write.
pub mod Bounds
pub mod Editing
pub mod Scrolling
pub mod Display
pub mod Blocks
mod Tests
use mp.Base.{
  ℕ, zero, suc, ◌+◌, ◌-◌, ◌*◌, ◌%◌, ◌^◌, Bool, true, false, not, ◌&&◌, ◌||◌, Option, none, some,
  List, [], ◌∷◌, ltb, leb, ◌==◌, if◌then◌else◌, add32, sub32, minus_one, is_neg, slt, get_or, min,
}
use mp.Memory.{Mem, store}
use mp.Memory.Text.{strncmp}
use mp.Io.{cli, sti}
use mp.Pic
use mp.Keyboard.{Keyboard, read_key}
use mp.Screen.{Screen, putc, putc_all, print_text, get_char, setx, clear, num_cols, num_rows}
use mp.Terminal.{Terminal, Outcome, returns, runs_shell, set_cursor, terminal_switch, emit, buf_max}

abbrev pub on_screen : Terminal → (Screen → Screen) → Terminal
on_screen t f = record t { screen = f t.screen }

-- `391OS> `
abbrev pub prompt : List ℕ
prompt = 51 ∷ 57 ∷ 49 ∷ 79 ∷ 83 ∷ 62 ∷ 32 ∷ []

-- Rows of saved text are written from row `i - 1` on, one row up.
unfoldable pub redraw : ℕ → ℕ → (ℕ → ℕ → ℕ) → Terminal → Terminal
redraw zero i text_hist t = t
redraw (suc left) i text_hist t =
    redraw left (i + 1) text_hist
      (on_screen (set_cursor t 0 (i - 1)) (putc_all num_cols (text_hist i)))

-- `y >= HEIGHT - 1`
unfoldable pub is_last_row : ℕ → Bool
is_last_row y = not (slt y 24)

-- The case of a new line in keyboard_read: on the last row the display moves up.
unfoldable pub move_up : Terminal → ℕ → Terminal
move_up t y =
    if is_last_row y then redraw 24 1 (λ i j. get_char t.screen j i) (on_screen t clear) else t

unfoldable pub new_line : Terminal → ℕ → ℕ → Terminal
new_line t y keystroke =
    let t1 = on_screen (move_up t y) (λ s. putc s 10) in
    if keystroke == 10
    then record t1 {
      text_buf = λ i. if i == t1.counter then keystroke else t1.text_buf i;
      counter = 0;
      entered = 1;
    }
    else t1

-- Whether the row begins with the prompt and the cursor stands behind it.
unfoldable pub is_prompt : Terminal → ℕ → ℕ → Bool
is_prompt t x y = (strncmp (λ i. get_char t.screen i y) (λ i. get_or prompt i 0) 7 == 0) && (x == 7)

-- The case of backspace in keyboard_read.
unfoldable pub erase : Terminal → ℕ → ℕ → Terminal
erase t x y =
    if is_prompt t x y || t.counter == 0
    then emit t (Pic.send_eoi 1)
    else (let x' = sub32 x 1 in
        let t1 = on_screen t (λ s. putc (setx s x') 32) in
        set_cursor
          (record t1 {
            counter = t.counter - 1;
            text_buf = λ i. if i == t.counter - 1 then 0 else t.text_buf i;
          })
          x' y)

-- The case of a character that is kept.
unfoldable pub type_char : Terminal → ℕ → Terminal
type_char t keystroke = record (on_screen t (λ s. putc s keystroke)) {
  text_buf = λ i. if i == t.counter then keystroke else t.text_buf i;
  counter = t.counter + 1;
}

abbrev pub is_printable : ℕ → Bool
is_printable k = leb 32 k && leb k 126

-- The commands of the keyboard for the three terminals.
unfoldable pub switch_by_key : Terminal → ℕ → Outcome
switch_by_key t keystroke =
    if keystroke == 0xf5
    then terminal_switch t 1
    else if keystroke == 0xf6
    then terminal_switch (record t { term2_press = 1 }) 2
    else terminal_switch (record t { term3_press = 1 }) 3

-- keyboard_read
unfoldable pub keyboard_read : Terminal → ℕ → Outcome
keyboard_read t0 keystroke =
    let x = t0.screen.screen_x in
    let y = t0.screen.screen_y in
    let t = set_cursor t0 x y in
    if keystroke == 9
    then returns
        (set_cursor (on_screen t (λ s. print_text s (32 ∷ 32 ∷ 32 ∷ 32 ∷ []))) (add32 x 4) y)
    else if keystroke == 0xf8
    then returns (emit t (Pic.send_eoi 8))
    else if keystroke == 0xff
    then returns (on_screen (set_cursor (on_screen t clear) 0 0) (λ s. print_text s prompt))
    else if not (slt x 79) || keystroke == 10
    then returns (new_line t y keystroke)
    else if keystroke == 8
    then returns (erase t x y)
    else if is_printable keystroke && ltb t.counter 127
    then returns (type_char t keystroke)
    else if leb 0xf5 keystroke && leb keystroke 0xf7
    then switch_by_key t keystroke
    else returns t

-- read_keyboard: keyboard_read with the character of the scancode, then the end of the interrupt,
-- which a new shell does not come back to.
unfoldable pub read_keyboard : (ℕ → ℕ) → ℕ → Keyboard → Terminal → ℕ → Keyboard × Outcome
read_keyboard beyond stale k t scancode =
    let (k', charval) = read_key beyond stale k scancode in
    (
      k',
      elim (keyboard_read t charval) [
        | returns u ↦ returns (emit u (Pic.send_eoi 1))
        | runs_shell u ↦ runs_shell u
      ],
    )

-- The loop of read_helper: `n` rounds at most; `none` for a line without its end, after which the
-- source returns a value that it never set.
pub copy_line : ℕ → ℕ → (ℕ → ℕ) → ℕ → Mem → Mem × Option ℕ
copy_line zero i text_buf buf m = (m, none)
copy_line (suc left) i text_buf buf m = elim (text_buf i == 10) [
  | true ↦ (store m (buf + i) (text_buf i), some i)
  | false ↦ copy_line left (i + 1) text_buf buf (store m (buf + i) (text_buf i))
]

-- read_helper, once `entered` is 1; before that it waits.
unfoldable pub read_helper : Terminal → ℕ → ℕ → Option (Terminal × Option ℕ)
read_helper t buf length =
    let rounds = if is_neg length then 0 else min length buf_max in
    let (m, ret_val) = copy_line rounds 0 t.text_buf buf t.screen.mem in
    if t.entered == 1
    then some (record (on_screen t (λ s. record s { mem = m })) { entered = 0 }, ret_val)
    else none

unfoldable pub terminal_read : Terminal → ℕ → ℕ → ℕ → Option (Terminal × Option ℕ)
terminal_read t fd buf len = if fd == 1 then some (t, some minus_one) else read_helper t buf len

-- The scrolling in write_helper: the last row is taken as blank, and the cursor goes to row 23.
unfoldable pub scroll : Terminal → Terminal
scroll t = set_cursor (redraw 24 1 (λ i j. if leb 24 i then 32 else get_char t.screen j i) t) 0 23

-- A round of write_helper: the character `c`, and `next` behind it. `x` is the column from before
-- the scrolling.
unfoldable pub write_char : Terminal → ℕ → ℕ → Terminal
write_char t c next =
    let x = t.screen.screen_x in
    let t1 = if is_last_row t.screen.screen_y then scroll t else t in
    let t2 =
      if c == 0
      then t1
      else if c == 10
      then set_cursor t1 0 (add32 t1.screen.screen_y 1)
      else on_screen t1 (λ s. putc s c) in
    if x == 80 && not (next == 10) then on_screen t2 (λ s. putc s 10) else t2

-- The loop of write_helper over text in memory, which is read as it stands at each round.
unfoldable pub write_from : ℕ → ℕ → Terminal → ℕ → Terminal
write_from zero k t text = t
write_from (suc left) k t text =
    write_from left (k + 1) (write_char t (t.screen.mem (text + k)) (t.screen.mem (text + k + 1)))
      text

-- Whether a round of that loop scrolls, which leaves `i` at 25.
unfoldable pub scrolls_from : ℕ → ℕ → Terminal → ℕ → Bool
scrolls_from zero k t text = false
scrolls_from (suc left) k t text =
    is_last_row t.screen.screen_y
    || scrolls_from left (k + 1)
        (write_char t (t.screen.mem (text + k)) (t.screen.mem (text + k + 1))) text

-- write_helper. It returns `i + 1` of a counter that it sets only when it scrolls: `none` is a value
-- that was never set. A null pointer or a negative length returns with the interrupts off.
unfoldable pub write_helper : Terminal → ℕ → ℕ → Terminal × Option ℕ
write_helper t text length =
    let t0 = emit t (cli ∷ []) in
    if text == 0 || is_neg length
    then (t0, some minus_one)
    else (let t1 = write_from length 0 t0 text in
        (
          emit (set_cursor t1 t1.screen.screen_x t1.screen.screen_y) (sti ∷ []),
          if scrolls_from length 0 t0 text then some 26 else none,
        ))

unfoldable pub terminal_write : Terminal → ℕ → ℕ → ℕ → Terminal × Option ℕ
terminal_write t fd buf len = if fd == 0 then (t, some minus_one) else write_helper t buf len
