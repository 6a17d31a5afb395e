-- ===== src/Console/Display.antt =====
-- What a program's text does to the display, in rows and columns: write_helper of
-- student-distrib/terminal.c against a description of a terminal.
use mp.Base.{
  ℕ, ◌⊎◌, zero, suc, ◌+◌, ◌%◌, ◌^◌, ◌≤◌, ◌<◌, ◌≡◌, ◌≢◌, refl, subst, ap, ◌∙◌, true, false, not,
  ◌&&◌, ◌||◌, ltb, ◌==◌, if◌then◌else◌, add32, is_neg, arith, List, [], ◌∷◌, ◌++◌, dec_lt,
  ℕ_discrete, inl, inr, Bool-cases,
}
use mp.Memory.{Mem, store}
use mp.FileSystem.{bytes_at}
use mp.Programs.Pieces.{bytes_at-same}
use mp.Io.{cli}
use mp.Screen.{Screen, putc, video, setxy}
use mp.Screen.Cells.{IsOnScreen, IsPlain, place, putc-plain}
use mp.Terminal.{Terminal, set_cursor, emit}
use mp.Console.{on_screen, scroll, is_last_row, write_char, write_from, write_helper}
use mp.Console.Scrolling.{IsClean, scroll-MovedUp}

-- The characters by column and row, and the cursor.
pub record Display : Type 0 where
  pub char : ℕ → ℕ → ℕ
  pub column : ℕ
  pub row : ℕ

-- The text moves up: rows 0 to 22 are the ones below, row 23 is blank, and the cursor stands at its
-- start; row 24 stays.
abbrev pub moved : Display → Display
moved d = record {
  char = λ x y. if ltb y 23 then d.char x (y + 1) else if y == 23 then 32 else d.char x y;
  column = 0;
  row = 23;
}

-- It does so when the cursor is on the last row.
abbrev pub made_room : Display → Display
made_room d = if ltb d.row 24 then d else moved d

-- A character at the cursor; it wraps round within its row. Line ends and carriage returns go to the
-- next row, and a NUL does nothing.
abbrev pub placed : Display → ℕ → Display
placed d c =
    if c == 0
    then d
    else if c == 10 || c == 13
    then record d { column = 0; row = d.row + 1 }
    else record {
      char = λ x y. if x == d.column && y == d.row then c else d.char x y;
      column = (d.column + 1) % 80;
      row = d.row;
    }

abbrev pub advance : Display → ℕ → Display
advance d c = placed (made_room d) c

-- A text.
abbrev pub advance_all : Display → List ℕ → Display
advance_all d [] = d
advance_all d (c ∷ l) = advance_all (advance d c) l

-- The screen shows `d`, with the cursor on it and no line end among the characters.
pub record Looks (d : Display) (s : Screen) : Type 0 where
  pub shown : (x y : ℕ) → x < 80 → y < 25 → s.mem (place x y) ≡ d.char x y
  pub column : s.screen_x ≡ d.column
  pub row : s.screen_y ≡ d.row
  pub inside : IsOnScreen s
  pub clean : IsClean s

-- Bytes that are not of the display.
abbrev pub SameBeside : Mem → Mem → Type 0
SameBeside m m' = (b : ℕ) → (b < video) ⊎ (video + 4000 ≤ b) → m' b ≡ m b

is_last_row-on : (y : ℕ) → y < 25 → is_last_row y ≡ not (ltb y 24)
unfolding is_last_row
is_last_row-on y h = ground arith

-- What a round of write_helper does to the screen.
pub record Shows (d : Display) (s r : Screen) : Type 0 where
  pub looks : Looks d r
  pub beside : SameBeside s.mem r.mem

scroll-Shows :
    (d : Display) (t : Terminal) → Looks d t.screen → Shows (moved d) t.screen (scroll t).screen
scroll-Shows d t h =
    let up = scroll-MovedUp t h.clean in
    let shown : (x y : ℕ)
        → x < 80
        → y < 25
        → (scroll t).screen.mem (place x y) ≡ (moved d).char x y =
      (λ x y hx hy. elim (dec_lt y 23) [
        | yes lt ↦ up.above x y hx lt ∙ h.shown x (y + 1) hx (omega arith) ∙ ground arith
        | no ge ↦ elim (ℕ_discrete y 23) [
          | yes e ↦ ap (λ i. (scroll t).screen.mem (place x i)) e ∙ up.blank x hx ∙ ground arith
          | no ne ↦ up.rest (place x y) (inr (omega arith)) ∙ h.shown x y hx hy ∙ ground arith
        ]
      ]) in
    record {
      looks = record {
        shown = shown;
        column = up.column;
        row = up.row;
        inside = record { column = omega (arith, up.column); row = omega (arith, up.row) };
        clean = λ x y hx hy. elim (dec_lt y 23) [
          | yes lt ↦ rw (up.above x y hx lt) (h.clean x (y + 1) hx (omega arith))
          | no ge ↦ elim (ℕ_discrete y 23) [
            | yes e ↦
                let b = up.blank x hx in rw e ((λ q. omega (arith, q, b), λ q. omega (arith, q, b)))
            | no ne ↦ rw (up.rest (place x y) (inr (omega arith))) (h.clean x y hx hy)
          ]
        ];
      };
      beside = λ b out. up.rest b (elim out [ inl lo ↦ inl lo | inr hi ↦ inr (omega arith) ]);
    }

-- The screen has room for a character.
room-Shows :
    (d : Display) (t : Terminal)
    → Looks d t.screen
    → Shows (made_room d) t.screen (if is_last_row t.screen.screen_y then scroll t else t).screen
room-Shows d t h = elim (dec_lt d.row 24) [
  | yes lt ↦
      let stay : is_last_row t.screen.screen_y ≡ false =
        is_last_row-on t.screen.screen_y h.inside.row ∙ ground (arith, h.row) in
      let same : ltb d.row 24 ≡ true = ground arith in
      rw (stay, same) (record { looks = h; beside = λ b out. refl })
  | no ge ↦
      let up : is_last_row t.screen.screen_y ≡ true =
        is_last_row-on t.screen.screen_y h.inside.row ∙ ground (arith, h.row) in
      let full : ltb d.row 24 ≡ false = ground arith in rw (up, full) (scroll-Shows d t h)
]

made_room-low : (d : Display) → (made_room d).row < 24
made_room-low d = ground arith

putc-end :
    (s : Screen) (c : ℕ)
    → (c ≡ 10) ⊎ (c ≡ 13)
    → putc s c ≡ record { mem = s.mem; screen_x = 0; screen_y = add32 s.screen_y 1 }
unfolding putc
putc-end s c (inl e) = rw e refl
putc-end s c (inr e) = rw e refl

next_row-Shows :
    (d : Display) (s : Screen)
    → Looks d s
    → d.row < 24
    → Shows
        (record d { column = 0; row = d.row + 1 })
        s
        (record { mem = s.mem; screen_x = 0; screen_y = add32 s.screen_y 1 })
next_row-Shows d s h low =
    let down : add32 s.screen_y 1 ≡ d.row + 1 = omega (arith, h.row) in
    record {
      looks = record {
        shown = h.shown;
        column = refl;
        row = down;
        inside = record { column = omega arith; row = omega (arith, down) };
        clean = h.clean;
      };
      beside = λ b out. refl;
    }

-- What a character changes.
stored-at :
    (m : Mem) (c i j x y : ℕ)
    → i < 80
    → x < 80
    → store (store m (place i j) c) (place i j + 1) 7 (place x y)
      ≡ (if x == i && y == j then c else m (place x y))
stored-at m c i j x y hi hx = elim (ℕ_discrete x i) [
  | no ne ↦
      let apart : place x y ≢ place i j = (λ e. omega arith) in
      let odd : place x y ≢ place i j + 1 = (λ e. omega arith) in ground arith
  | yes e ↦ elim (ℕ_discrete y j) [
    | no ne ↦
        let apart : place x y ≢ place i j = (λ q. omega arith) in
        let odd : place x y ≢ place i j + 1 = (λ q. omega arith) in ground arith
    | yes q ↦
        let same : place x y ≡ place i j = omega arith in
        let odd : place x y ≢ place i j + 1 = (λ r. omega arith) in ground arith
  ]
]

plain-Shows :
    (d : Display) (s : Screen) (c : ℕ)
    → Looks d s
    → IsPlain c
    → Shows
        (record {
          char = λ x y. if x == d.column && y == d.row then c else d.char x y;
          column = (d.column + 1) % 80;
          row = d.row;
        })
        s
        (putc s c)
plain-Shows d s c h plain =
    let put = putc-plain s c h.inside plain in
    let at = stored-at s.mem c s.screen_x s.screen_y in
    rw put (record {
      looks = record {
        shown = λ x y hx hy.
            at x y h.inside.column hx ∙ ground (arith, h.shown x y hx hy, h.column, h.row);
        column = ap (λ x. (x + 1) % 80) h.column;
        row = h.row;
        inside = record { column = omega arith; row = h.inside.row };
        clean = λ x y hx hy.
            rw (at x y h.inside.column hx) (elim (Bool-cases (x == s.screen_x && y == s.screen_y)) [
              | inl e ↦ rw e plain
              | inr e ↦ rw e (h.clean x y hx hy)
            ]);
      };
      beside = λ b out. ground (arith, h.inside.column, h.inside.row);
    })

placed-Shows :
    (d : Display) (t : Terminal) (c : ℕ)
    → Looks d t.screen
    → d.row < 24
    → Shows
        (placed d c)
        t.screen
        (if c == 0
          then t
          else if c == 10
          then set_cursor t 0 (add32 t.screen.screen_y 1)
          else on_screen t (λ s. putc s c)).screen
unfolding set_cursor setxy
placed-Shows d t c h low = elim (ℕ_discrete c 0) [
  | yes e ↦ rw e (record { looks = h; beside = λ b out. refl })
  | no some_char ↦
      let not_nul : (c == 0) ≡ false = ground arith in
      rw not_nul (elim (ℕ_discrete c 10) [
        | yes e ↦ rw e (next_row-Shows d t.screen h low)
        | no not_end ↦
            let no_end : (c == 10) ≡ false = ground arith in
            rw no_end (elim (ℕ_discrete c 13) [
              | yes e ↦ rw (putc-end t.screen c (inr e), e) (next_row-Shows d t.screen h low)
              | no not_return ↦
                  let no_return : (c == 13) ≡ false = ground arith in
                  rw no_return (plain-Shows d t.screen c h (not_end, not_return))
            ])
      ])
]

-- A round of write_helper.
write_char-Shows :
    (d : Display) (t : Terminal) (c next : ℕ)
    → Looks d t.screen
    → Shows (advance d c) t.screen (write_char t c next).screen
unfolding write_char
write_char-Shows d t c next h =
    let t1 = if is_last_row t.screen.screen_y then scroll t else t in
    let room = room-Shows d t h in
    let put = placed-Shows (made_room d) t1 c room.looks (made_room-low d) in
    let narrow : (t.screen.screen_x == 80) ≡ false = ground (arith, h.inside.column) in
    rw narrow (record { looks = put.looks; beside = λ b out. put.beside b out ∙ room.beside b out })

-- The text of a program, apart from the display.
write_from-Shows :
    (n k : ℕ) (d : Display) (t : Terminal) (text : ℕ)
    → Looks d t.screen
    → (text + k + n ≤ video) ⊎ (video + 4000 ≤ text)
    → Shows
        (advance_all d (bytes_at n t.screen.mem (text + k)))
        t.screen
        (write_from n k t text).screen
unfolding write_from
write_from-Shows zero k d t text h apart = record { looks = h; beside = λ b out. refl }
write_from-Shows (suc n) k d t text h apart =
    let c = t.screen.mem (text + k) in
    let next = t.screen.mem (text + k + 1) in
    let one = write_char-Shows d t c next h in
    let t1 = write_char t c next in
    let rest =
      write_from-Shows n (k + 1) (advance d c) t1 text one.looks
        (elim apart [ inl lo ↦ inl (omega arith) | inr hi ↦ inr hi ]) in
    let place_next : text + (k + 1) ≡ text + k + 1 = omega arith in
    let same : bytes_at n t1.screen.mem (text + (k + 1)) ≡ bytes_at n t.screen.mem (text + k + 1) =
      bytes_at-same n t1.screen.mem t.screen.mem (text + (k + 1)) (text + k + 1) (λ j lt.
        ap t1.screen.mem (let q : text + (k + 1) + j ≡ text + k + 1 + j = omega arith in q)
        ∙ one.beside (text + k + 1 + j)
            (elim apart [ inl lo ↦ inl (omega arith) | inr hi ↦ inr (omega arith) ])) in
    record {
      looks =
          subst (λ l. Looks (advance_all (advance d c) l) (write_from n (k + 1) t1 text).screen)
            same rest.looks;
      beside = λ b out. rest.beside b out ∙ one.beside b out;
    }

-- From a display with the cursor on it and no line end among its characters, on a text of any count
-- that is not negative, apart from the display: write_helper makes of the display what a terminal
-- makes of the text, character by character, and changes no other memory.
pub write_helper-Shows :
    (d : Display) (t : Terminal) (text n : ℕ)
    → Looks d t.screen
    → text ≢ 0
    → n < 2 ^ 31
    → (text + n ≤ video) ⊎ (video + 4000 ≤ text)
    → Shows (advance_all d (bytes_at n t.screen.mem text)) t.screen (write_helper t text n).0.screen
unfolding write_helper set_cursor setxy
write_helper-Shows d t text n h pointer count apart =
    let bad : (text == 0 || is_neg n) ≡ false = ground arith in
    let at_start : text + 0 ≡ text = omega arith in
    let done =
      write_from-Shows n 0 d (emit t (cli ∷ [])) text h
        (elim apart [ inl lo ↦ inl (omega arith) | inr hi ↦ inr hi ]) in
    let looks =
      subst
        (λ p.
          Looks (advance_all d (bytes_at n t.screen.mem p))
            (write_from n 0 (emit t (cli ∷ [])) text).screen)
        at_start done.looks in
    rw bad (record {
      looks = record {
        shown = looks.shown;
        column = looks.column;
        row = looks.row;
        inside = looks.inside;
        clean = looks.clean;
      };
      beside = done.beside;
    })

pub advance_all-append :
    (d : Display) (l l' : List ℕ) → advance_all d (l ++ l') ≡ advance_all (advance_all d l) l'
advance_all-append d [] l' = refl
advance_all-append d (c ∷ l) l' = advance_all-append (advance d c) l l'

-- A change of memory apart from the display.
pub Looks-beside :
    (d : Display) (s : Screen) (m : Mem)
    → Looks d s
    → ((b : ℕ) → video ≤ b → b < video + 4000 → m b ≡ s.mem b)
    → Looks d (record { mem = m; screen_x = s.screen_x; screen_y = s.screen_y })
Looks-beside d s m h kept = record {
  shown = λ x y hx hy. kept (place x y) (omega arith) (omega arith) ∙ h.shown x y hx hy;
  column = h.column;
  row = h.row;
  inside = record { column = h.inside.column; row = h.inside.row };
  clean = λ x y hx hy. rw (kept (place x y) (omega arith) (omega arith)) (h.clean x y hx hy);
}
