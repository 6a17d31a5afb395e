-- ===== src/Console/Scrolling.antt =====
-- The display moves up by a row.
use mp.Base.{
  ℕ, zero, suc, ◌+◌, ◌-◌, ◌*◌, ◌/◌, ◌%◌, ◌≤◌, ◌<◌, ◌≡◌, ◌⊎◌, refl, ap, ◌∙◌, true, leb, ltb, ◌==◌,
  if◌then◌else◌, arith, dec_lt, leb-true, leb-false,
}
use mp.Memory.{Mem}
use mp.Screen.{Screen, putc_all, video, get_char, setxy}
use mp.Screen.Cells.{IsPlain, place, cell-place, putc_all-Line, written}
use mp.Terminal.{Terminal, set_cursor}
use mp.Console.{on_screen, redraw, scroll}

-- Rows from `i` on of saved text, one behind another.
abbrev rows_from : (ℕ → ℕ → ℕ) → ℕ → ℕ → ℕ
rows_from h i k = h (i + k / 80) (k % 80)

written-rows :
    (m : Mem) (a n i : ℕ) (h : ℕ → ℕ → ℕ) (m1 : Mem) (b : ℕ)
    → ((c : ℕ) → m1 c ≡ written m a 80 (h i) c)
    → written m1 (a + 160) (80 * n) (rows_from h (i + 1)) b
      ≡ written m a (80 * suc n) (rows_from h i) b
written-rows m a n i h m1 b e = elim (dec_lt b (a + 160)) [
  | yes first ↦
      let row : i + (b - a) / 2 / 80 ≡ i = omega arith in
      let column : (b - a) / 2 % 80 ≡ (b - a) / 2 = omega arith in
      rw (row, column) (ground (arith, e b))
  | no later ↦
      let row : i + (b - a) / 2 / 80 ≡ i + 1 + (b - (a + 160)) / 2 / 80 = omega arith in
      let column : (b - a) / 2 % 80 ≡ (b - (a + 160)) / 2 % 80 = omega arith in
      rw (row, column) (ground (arith, e b))
]

-- Rows of plain characters.
abbrev AllPlain : (ℕ → ℕ → ℕ) → Type 0
AllPlain h = (i j : ℕ) → i < 25 → j < 80 → IsPlain (h i j)

-- What redraw leaves: `n` rows of the saved text from row `i - 1` on.
record Redrawn (n i : ℕ) (h : ℕ → ℕ → ℕ) (t u : Terminal) : Type 0 where
  rows :
      (b : ℕ) → u.screen.mem b ≡ written t.screen.mem (place 0 (i - 1)) (80 * n) (rows_from h i) b

redraw-zero : (i : ℕ) (h : ℕ → ℕ → ℕ) (t : Terminal) → redraw zero i h t ≡ t
unfolding redraw
redraw-zero i h t = refl

redraw-suc :
    (n i : ℕ) (h : ℕ → ℕ → ℕ) (t : Terminal)
    → redraw (suc n) i h t
      ≡ redraw n (i + 1) h (on_screen (set_cursor t 0 (i - 1)) (putc_all 80 (h i)))
unfolding redraw
redraw-suc n i h t = refl

redraw-Redrawn :
    (n i : ℕ) (h : ℕ → ℕ → ℕ) (t : Terminal)
    → AllPlain h
    → 1 ≤ i
    → i + n ≤ 25
    → Redrawn n i h t (redraw n i h t)
unfolding set_cursor setxy
redraw-Redrawn zero i h t plain lo hi = rw (redraw-zero i h t) (record { rows = λ b. ground arith })
redraw-Redrawn (suc n) i h t plain lo hi =
    let s : Screen = record { mem = t.screen.mem; screen_x = 0; screen_y = i - 1 } in
    let line =
      putc_all-Line 80 (h i) s (record { column = omega arith; row = omega arith }) (omega arith)
        (λ j lt. plain i j (omega arith) lt) in
    let rest =
      redraw-Redrawn n (i + 1) h (on_screen (set_cursor t 0 (i - 1)) (putc_all 80 (h i))) plain
        (omega arith) (omega arith) in
    rw (redraw-suc n i h t) (record {
      rows = λ b.
          rest.rows b
          ∙ ap (λ (a : ℕ). written (putc_all 80 (h i) s).mem a (80 * n) (rows_from h (i + 1)) b)
              (omega arith)
          ∙ written-rows t.screen.mem (place 0 (i - 1)) n i h (putc_all 80 (h i) s).mem b
              line.cells;
    })

-- A screen without line ends among its characters.
abbrev pub IsClean : Screen → Type 0
IsClean s = (x y : ℕ) → x < 80 → y < 25 → IsPlain (s.mem (place x y))

-- The display one row up: every row but the last two is the one below it, row 23 is blank, row 24
-- and the memory outside the display stay, and the cursor is at the start of row 23.
pub record MovedUp (s r : Screen) : Type 0 where
  pub above : (x y : ℕ) → x < 80 → y < 23 → r.mem (place x y) ≡ s.mem (place x (y + 1))
  pub blank : (x : ℕ) → x < 80 → r.mem (place x 23) ≡ 32
  pub rest : (b : ℕ) → (b < video) ⊎ (place 0 24 ≤ b) → r.mem b ≡ s.mem b
  pub column : r.screen_x ≡ 0
  pub row : r.screen_y ≡ 23

abbrev saved_text : Screen → ℕ → ℕ → ℕ
saved_text s i j = if leb 24 i then 32 else get_char s j i

get_char-place : (s : Screen) (x y : ℕ) → x < 80 → y < 25 → get_char s x y ≡ s.mem (place x y)
unfolding get_char
get_char-place s x y hx hy = ap s.mem (cell-place x y hx hy)

saved_text-row : (s : Screen) (i j : ℕ) → i < 24 → j < 80 → saved_text s i j ≡ s.mem (place j i)
saved_text-row s i j hi hj =
    rw (leb-false 24 i (omega arith)) (get_char-place s j i hj (omega arith))

saved_text-AllPlain : (s : Screen) → IsClean s → AllPlain (saved_text s)
saved_text-AllPlain s clean i j hi hj = elim (dec_lt i 24) [
  | yes lt ↦ rw (saved_text-row s i j lt hj) (clean j i hj hi)
  | no ge ↦ rw (leb-true 24 i (omega arith)) (λ e. omega arith, λ e. omega arith)
]

written-at :
    (m : Mem) (h : ℕ → ℕ → ℕ) (x y : ℕ)
    → x < 80
    → y < 24
    → written m video 1920 (rows_from h 1) (place x y) ≡ h (1 + y) x
written-at m h x y hx hy =
    let row : 1 + (place x y - video) / 2 / 80 ≡ 1 + y = omega arith in
    let column : (place x y - video) / 2 % 80 ≡ x = omega arith in
    let even : ((place x y - video) % 2 == 0) ≡ true = ground arith in
    let low : leb video (place x y) ≡ true = ground arith in
    let high : ltb (place x y) (video + 1920 * 2) ≡ true = ground arith in
    rw (low, high, even, row, column) refl

-- On a screen without line ends among its characters, the scrolling that write_helper does when the
-- cursor is on the last row makes every row but the last two the one below it and row 23 blank,
-- leaves row 24 and the memory outside the display, and puts the cursor at the start of row 23.
pub scroll-MovedUp : (t : Terminal) → IsClean t.screen → MovedUp t.screen (scroll t).screen
unfolding scroll set_cursor setxy
scroll-MovedUp t clean =
    let h = saved_text t.screen in
    let done =
      redraw-Redrawn 24 1 h t (saved_text-AllPlain t.screen clean) (omega arith) (omega arith) in
    record {
      above = λ x y hx hy.
          done.rows (place x y)
          ∙ written-at t.screen.mem h x y hx (omega arith)
          ∙ saved_text-row t.screen (1 + y) x (omega arith) hx
          ∙ ap (λ (i : ℕ). t.screen.mem (place x i)) (omega arith);
      blank =
          λ x hx. done.rows (place x 23) ∙ written-at t.screen.mem h x 23 hx (omega arith) ∙ refl;
      rest = λ b out. done.rows b ∙ ground arith;
      column = refl;
      row = refl;
    }
