-- ===== src/Screen/Cells.antt =====
-- Where the characters of a line come to stand.
use mp.Base.{
  ℕ, zero, suc, ◌+◌, ◌-◌, ◌*◌, ◌/◌, ◌%◌, ◌≤◌, ◌<◌, ◌≡◌, ◌≢◌, refl, ap, ◌∙◌, leb, ltb, ◌==◌, ◌&&◌,
  if◌then◌else◌, arith, u32, ℕ_discrete,
}
use mp.Memory.{Mem, store}
use mp.Screen.{putc_all, Screen, video, attrib, cell, putc, next_x, next_y, clear, clear_from}

pub record IsOnScreen (s : Screen) : Type 0 where
  pub column : s.screen_x < 80
  pub row : s.screen_y < 25

-- A character that moves no line.
abbrev pub IsPlain : ℕ → Type 0
IsPlain c = (c ≢ 10) × (c ≢ 13)

-- The address of a cell that is on the screen.
abbrev pub place : ℕ → ℕ → ℕ
place x y = video + (80 * y + x) * 2

pub cell-place : (x y : ℕ) → x < 80 → y < 25 → cell x y ≡ place x y
cell-place x y hx hy = omega arith

next_x-column : (x : ℕ) → x < 80 → next_x x ≡ (x + 1) % 80
unfolding next_x
next_x-column x h = ground arith

next_y-row : (x y : ℕ) → x < 80 → y < 25 → next_y x y ≡ y
unfolding next_y
next_y-row x y hx hy = ground arith

putc-branch :
    (s : Screen) (c : ℕ)
    → IsPlain c
    → putc s c ≡ (
        let a = cell s.screen_x s.screen_y in
        record {
          mem = store (store s.mem a c) (u32 (a + 1)) attrib;
          screen_x = next_x s.screen_x;
          screen_y = next_y (next_x s.screen_x) s.screen_y;
        })
unfolding putc
putc-branch s c plain = ground arith

pub putc-plain :
    (s : Screen) (c : ℕ)
    → IsOnScreen s
    → IsPlain c
    → putc s c ≡ record {
      mem = store (store s.mem (place s.screen_x s.screen_y) c) (place s.screen_x s.screen_y + 1) 7;
      screen_x = (s.screen_x + 1) % 80;
      screen_y = s.screen_y;
    }
putc-plain s c on plain =
    let e = cell-place s.screen_x s.screen_y on.column on.row in
    let attribute : u32 (place s.screen_x s.screen_y + 1) ≡ place s.screen_x s.screen_y + 1 =
      omega (arith, on.column, on.row) in
    let column = next_x-column s.screen_x on.column in
    putc-branch s c plain
    ∙ rw (e, attribute, column, next_y-row ((s.screen_x + 1) % 80) s.screen_y (omega arith) on.row)
        refl

-- Memory after `n` characters from address `a` on.
abbrev pub written : Mem → ℕ → ℕ → (ℕ → ℕ) → Mem
written m a n str b =
    if leb a b && ltb b (a + n * 2)
    then (if (b - a) % 2 == 0 then str ((b - a) / 2) else attrib)
    else m b

written-suc :
    (m : Mem) (a n : ℕ) (str : ℕ → ℕ) (b : ℕ)
    → written (store (store m a (str 0)) (a + 1) 7) (a + 2) n (λ i. str (i + 1)) b
      ≡ written m a (suc n) str b
written-suc m a n str b = ground arith

written-zero :
    (m : Mem) (a a' n : ℕ) (str : ℕ → ℕ) (b : ℕ)
    → n ≡ 0
    → written m a n str b ≡ written m a' n str b
written-zero m a a' n str b e = rw e (ground arith)

-- The piece of a line: the characters stand side by side with the standard attribute, nothing else
-- changes, and the cursor stands behind them, or at the start of the same line.
pub record Line (n : ℕ) (str : ℕ → ℕ) (s r : Screen) : Type 0 where
  pub cells : (b : ℕ) → r.mem b ≡ written s.mem (place s.screen_x s.screen_y) n str b
  pub column : r.screen_x ≡ (s.screen_x + n) % 80
  pub row : r.screen_y ≡ s.screen_y

abbrev stepped : Screen → ℕ → Screen
stepped s c = record {
  mem = store (store s.mem (place s.screen_x s.screen_y) c) (place s.screen_x s.screen_y + 1) 7;
  screen_x = (s.screen_x + 1) % 80;
  screen_y = s.screen_y;
}

pub putc_all-suc :
    (n : ℕ) (str : ℕ → ℕ) (s : Screen)
    → putc_all (suc n) str s ≡ putc_all n (λ i. str (i + 1)) (putc s (str 0))
unfolding putc_all
putc_all-suc n str s = refl

Line-suc :
    (n : ℕ) (str : ℕ → ℕ) (s r : Screen)
    → IsOnScreen s
    → s.screen_x + suc n ≤ 80
    → Line n (λ i. str (i + 1)) (stepped s (str 0)) r
    → Line (suc n) str s r
Line-suc n str s r on fits l = record {
  cells = λ b. l.cells b ∙ elim (ℕ_discrete n 0) [
    | yes e ↦
        written-zero m1 (place ((s.screen_x + 1) % 80) s.screen_y) (a + 2) n (λ i. str (i + 1)) b e
        ∙ written-suc s.mem a n str b
    | no more ↦
        let next : place ((s.screen_x + 1) % 80) s.screen_y ≡ a + 2 = omega (arith, on.column) in
        ap (λ (t : ℕ). written m1 t n (λ i. str (i + 1)) b) next ∙ written-suc s.mem a n str b
  ];
  column = l.column ∙ ground (arith, on.column);
  row = l.row;
}
  where
    a : ℕ
    a = place s.screen_x s.screen_y

    m1 : Mem
    m1 = store (store s.mem a (str 0)) (a + 1) 7

pub putc_all-Line :
    (n : ℕ) (str : ℕ → ℕ) (s : Screen)
    → IsOnScreen s
    → s.screen_x + n ≤ 80
    → ((i : ℕ) → i < n → IsPlain (str i))
    → Line n str s (putc_all n str s)
putc_all-Line zero str s on fits plain =
    unfold putc_all in
    record { cells = λ b. ground arith; column = ground (arith, on.column); row = refl }
putc_all-Line (suc n) str s on fits plain =
    rw (putc_all-suc n str s, putc-plain s (str 0) on (plain 0 (omega arith)))
      (Line-suc n str s _ on fits (
        putc_all-Line n (λ i. str (i + 1)) (stepped s (str 0))
          (record { column = omega arith; row = on.row }) (omega (arith, on.column))
          (λ i h. plain (i + 1) (omega arith))))

clear_from-written :
    (left i : ℕ) (m : Mem) (b : ℕ)
    → clear_from left i m b ≡ written m (video + i * 2) left (λ j. 32) b
unfolding clear_from
clear_from-written zero i m b = ground arith
clear_from-written (suc left) i m b = ground (
  arith,
  clear_from-written left (i + 1) (store (store m (video + i * 2) 32) (video + i * 2 + 1) attrib) b,
)

-- clear leaves a blank with the standard attribute in each of the 2000 cells; it changes no other
-- byte, and leaves the cursor where it is.
pub clear-blank :
    (s : Screen)
    → ((b : ℕ) → (clear s).mem b ≡ written s.mem video 2000 (λ j. 32) b)
      × ((clear s).screen_x ≡ s.screen_x)
      × ((clear s).screen_y ≡ s.screen_y)
unfolding clear
clear-blank s = (λ b. clear_from-written 2000 0 s.mem b, refl, refl)
