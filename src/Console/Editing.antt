-- ===== src/Console/Editing.antt =====
-- The line that is typed is the line that a program reads.
use mp.Base.{
  ℕ, zero, suc, ◌+◌, ◌-◌, ◌^◌, ◌≤◌, ◌<◌, ◌≡◌, ◌≢◌, ◌⊎◌, inl, inr, refl, sym, subst, ap, ◌∙◌, false,
  ◌&&◌, leb, ◌==◌, if◌then◌else◌, arith, min, Bool-cases, List, [], ◌∷◌, length, some, ℕ_discrete,
  slt, is_neg, sub32,
}
use mp.Memory.{Mem, store}
use mp.Pic
use mp.Screen.{putc, setx, setxy}
use mp.Screen.Cells.{IsOnScreen, place, putc-plain}
use mp.Terminal.{Terminal, returns, set_cursor, emit}
use mp.Terminal.Switching.{state_of}
use mp.Console.{
  on_screen, new_line, is_prompt, erase, type_char, keyboard_read, copy_line, read_helper,
  terminal_read,
}
use mp.Console.Bounds.{move_up-keeps}

-- A line as it is edited, its last character first, and what stands at place `i` of it.
abbrev pub chars : List ℕ → ℕ → ℕ
chars [] i = 0
chars (c ∷ l) i = if i == length l then c else chars l i

-- The keys of an editor of lines: backspace takes the last character away.
abbrev pub edit : List ℕ → ℕ → List ℕ
edit [] k = if k == 8 then [] else k ∷ []
edit (c ∷ l) k = if k == 8 then l else k ∷ c ∷ l

abbrev pub edit_all : List ℕ → List ℕ → List ℕ
edit_all l [] = l
edit_all l (k ∷ ks) = edit_all (edit l k) ks

-- keyboard_read for one key after another.
abbrev pub press_all : Terminal → List ℕ → Terminal
press_all t [] = t
press_all t (k ∷ ks) = press_all (state_of (keyboard_read t k)) ks

abbrev pub IsEditKey : ℕ → Type 0
IsEditKey k = (k ≡ 8) ⊎ ((32 ≤ k) × (k ≤ 126))

abbrev pub AllEditKeys : List ℕ → Type 0
AllEditKeys [] = Unit
AllEditKeys (k ∷ ks) = IsEditKey k × AllEditKeys ks

-- The terminal holds the line `l`, and shows it in row `y` from column `start` on.
pub record Holds (start y : ℕ) (l : List ℕ) (t : Terminal) : Type 0 where
  pub count : t.counter ≡ length l
  pub line : (i : ℕ) → i < length l → t.text_buf i ≡ chars l i
  pub shown : (i : ℕ) → i < length l → t.screen.mem (place (start + i) y) ≡ chars l i
  pub column : t.screen.screen_x ≡ start + length l
  pub row : t.screen.screen_y ≡ y

length-edit : (l : List ℕ) (k : ℕ) → length (edit l k) ≤ suc (length l)
length-edit [] k = ground arith
length-edit (c ∷ l) k = ground arith

-- keyboard_read begins by writing the cursor's place to the hardware.
abbrev parked : Terminal → Terminal
parked t = set_cursor t t.screen.screen_x t.screen.screen_y

module _ (start y : ℕ) (behind_prompt : 7 ≤ start) (on_row : y < 25) where
  module _ (l : List ℕ) (t : Terminal) (h : Holds start y l t) (room : start + length l < 79) where
    here : IsOnScreen t.screen
    here = record { column = omega (arith, h.column); row = omega (arith, h.row) }

    typed-runs : (k : ℕ) → 32 ≤ k → k ≤ 126 → keyboard_read t k ≡ returns (type_char (parked t) k)
    unfolding keyboard_read set_cursor setxy
    typed-runs k lo hi = let low : length l < 127 = omega arith in ground (arith, h.count, h.column)

    typed-Holds : (k : ℕ) → 32 ≤ k → k ≤ 126 → Holds start y (k ∷ l) (type_char (parked t) k)
    unfolding type_char set_cursor setxy
    typed-Holds k lo hi =
        let put = putc-plain t.screen k here (λ e. omega arith, λ e. omega arith) in
        record {
          count = omega (arith, h.count);
          line = λ i lt. ground (arith, h.count, h.line i);
          shown = λ i lt. rw put (ground (arith, h.column, h.row, h.shown i));
          column = rw put (omega (arith, h.column));
          row = rw put (h.row);
        }

    backspace-runs :
        keyboard_read t 8 ≡ returns (erase (parked t) t.screen.screen_x t.screen.screen_y)
    unfolding keyboard_read set_cursor setxy
    backspace-runs = ground (arith, h.column)

  erase-nothing :
      (t : Terminal) (x' y' : ℕ) → t.counter ≡ 0 → erase t x' y' ≡ emit t (Pic.send_eoi 1)
  unfolding erase
  erase-nothing t x' y' e = elim (Bool-cases (is_prompt t x' y')) [
    | inl p ↦ rw (p, e) refl
    | inr p ↦ rw (p, e) refl
  ]

  not-is_prompt : (t : Terminal) (x' y' : ℕ) → x' ≢ 7 → is_prompt t x' y' ≡ false
  unfolding is_prompt
  not-is_prompt t x' y' e = ground arith

  abbrev blanked : Terminal → ℕ → Terminal
  blanked t y' =
      let t1 = on_screen t (λ s. putc (setx s (t.screen.screen_x - 1)) 32) in
      set_cursor
        (record t1 {
          counter = t.counter - 1;
          text_buf = λ i. if i == t.counter - 1 then 0 else t.text_buf i;
        })
        (t.screen.screen_x - 1) y'

  erase-blanks :
      (t : Terminal) (y' : ℕ)
      → t.counter ≢ 0
      → 7 < t.screen.screen_x
      → t.screen.screen_x < 2 ^ 32
      → erase t t.screen.screen_x y' ≡ blanked t y'
  unfolding erase
  erase-blanks t y' some_char far small =
      let down : sub32 t.screen.screen_x 1 ≡ t.screen.screen_x - 1 = omega arith in
      let zero_test : (t.counter == 0) ≡ false = ground arith in
      rw (not-is_prompt t t.screen.screen_x y' (omega arith), zero_test, down) refl

  erased-Holds :
      (c : ℕ) (l : List ℕ) (t : Terminal)
      → Holds start y (c ∷ l) t
      → start + length (c ∷ l) < 79
      → Holds start y l (blanked t t.screen.screen_y)
  unfolding set_cursor setxy setx
  erased-Holds c l t h room =
      let put =
        putc-plain (record t.screen { screen_x = t.screen.screen_x - 1 }) 32
          (record { column = omega (arith, h.column); row = omega (arith, h.row) })
          (λ e. omega arith, λ e. omega arith) in
      record {
        count = omega (arith, h.count);
        line = λ i lt. ground (arith, h.count, h.line i);
        shown = λ i lt. rw put (ground (arith, h.column, h.row, h.shown i));
        column = omega (arith, h.column);
        row = h.row;
      }

  parked-Holds : (l : List ℕ) (t : Terminal) → Holds start y l t → Holds start y l (parked t)
  unfolding set_cursor setxy
  parked-Holds l t h = record {
    count = h.count;
    line = h.line;
    shown = h.shown;
    column = h.column;
    row = h.row;
  }

  abbrev Answers : List ℕ → Terminal → ℕ → Type 0
  Answers l t k = (u : Terminal) × (keyboard_read t k ≡ returns u) × Holds start y (edit l k) u

  backspace-Answers :
      (l : List ℕ) (t : Terminal) → Holds start y l t → start + length l < 79 → Answers l t 8
  unfolding set_cursor setxy
  backspace-Answers [] t h room = (
    emit (parked t) (Pic.send_eoi 1),
    backspace-runs [] t h room
        ∙ ap returns (erase-nothing (parked t) t.screen.screen_x t.screen.screen_y h.count),
    let p = parked-Holds [] t h in
        record { count = p.count; line = p.line; shown = p.shown; column = p.column; row = p.row },
  )
  backspace-Answers (c ∷ l) t h room = (
    blanked (parked t) t.screen.screen_y,
    backspace-runs (c ∷ l) t h room
        ∙ ap returns (
            erase-blanks (parked t) t.screen.screen_y (omega (arith, h.count))
              (omega (arith, h.column)) (omega (arith, h.column))),
    erased-Holds c l (parked t) (parked-Holds (c ∷ l) t h) room,
  )

  char-edits : (l : List ℕ) (k : ℕ) → 32 ≤ k → edit l k ≡ k ∷ l
  char-edits [] k lo = ground arith
  char-edits (c ∷ l) k lo = ground arith

  -- One key.
  key-Answers :
      (k : ℕ) (l : List ℕ) (t : Terminal)
      → IsEditKey k
      → Holds start y l t
      → start + length l < 79
      → Answers l t k
  key-Answers k l t (inl e) h room = subst (Answers l t) (sym e) (backspace-Answers l t h room)
  key-Answers k l t (inr (lo, hi)) h room = (
    type_char (parked t) k,
    typed-runs l t h room k lo hi,
    subst (λ e. Holds start y e (type_char (parked t) k)) (sym (char-edits l k lo))
        (typed-Holds l t h room k lo hi),
  )

  -- Keys one after another, as the handler takes them.
  keys-Holds :
      (ks l : List ℕ) (t : Terminal)
      → AllEditKeys ks
      → Holds start y l t
      → start + length l + length ks < 80
      → Holds start y (edit_all l ks) (press_all t ks)
  keys-Holds [] l t keys h room = h
  keys-Holds (k ∷ ks) l t keys h room =
      let one = key-Answers k l t keys.0 h (omega arith) in
      rw one.1 (keys-Holds ks (edit l k) one.0 keys.1 one.2 (omega (arith, length-edit l k)))

abbrev IsText : List ℕ → Type 0
IsText l = (i : ℕ) → i < length l → 32 ≤ chars l i

edit-IsText : (l : List ℕ) (k : ℕ) → IsText l → IsEditKey k → IsText (edit l k)
edit-IsText [] k text key i h = ground arith
edit-IsText (c ∷ l) k text key i h = ground (arith, text i)

edit_all-IsText : (ks l : List ℕ) → IsText l → AllEditKeys ks → IsText (edit_all l ks)
edit_all-IsText [] l text keys = text
edit_all-IsText (k ∷ ks) l text keys =
    edit_all-IsText ks (edit l k) (edit-IsText l k text keys.0) keys.1

length-edit_all : (ks l : List ℕ) → length (edit_all l ks) ≤ length l + length ks
length-edit_all [] l = omega arith
length-edit_all (k ∷ ks) l = omega (arith, length-edit_all ks (edit l k), length-edit l k)

-- read_helper copies up to the first new line.
copy_line-lem :
    (left i n : ℕ) (text : ℕ → ℕ) (buf : ℕ) (m : Mem)
    → i ≤ n
    → n < i + left
    → ((j : ℕ) → i ≤ j → j < n → text j ≢ 10)
    → text n ≡ 10
    → (r : Mem) × (copy_line left i text buf m ≡ (r, some n))
      × ((b : ℕ) → r b ≡ (if leb (buf + i) b && leb b (buf + n) then text (b - buf) else m b))
unfolding copy_line
copy_line-lem zero i n text buf m lo hi plain over = absurd (omega arith)
copy_line-lem (suc left) i n text buf m lo hi plain over = elim (ℕ_discrete i n) [
  | yes e ↦ (store m (buf + i) (text i), ground (arith, ap text e), λ b. ground arith)
  | no ne ↦
      let rest =
        copy_line-lem left (i + 1) n text buf (store m (buf + i) (text i)) (omega arith)
          (omega arith) (λ j p q. plain j (omega arith) q) over in
      (rest.0, ground (arith, rest.1, plain i), λ b. rest.2 b ∙ ground arith)
]

module _ (start y : ℕ) (behind_prompt : 7 ≤ start) (on_row : y < 25) where
  entered-runs :
      (l : List ℕ) (t : Terminal)
      → keyboard_read t 10 ≡ returns (new_line (parked t) t.screen.screen_y 10)
  unfolding keyboard_read set_cursor setxy
  entered-runs l t = elim (Bool-cases (slt t.screen.screen_x 79)) [
    | inl e ↦ ground arith
    | inr e ↦ ground arith
  ]

  -- After the return key the buffer holds the line and its end.
  record HoldsLine (l : List ℕ) (t : Terminal) : Type 0 where
    is_entered : t.entered ≡ 1
    emptied : t.counter ≡ 0
    text : (i : ℕ) → i < length l → t.text_buf i ≡ chars l i
    end : t.text_buf (length l) ≡ 10

  entered-HoldsLine :
      (l : List ℕ) (t : Terminal)
      → Holds start y l t
      → HoldsLine l (new_line (parked t) t.screen.screen_y 10)
  unfolding new_line set_cursor
  entered-HoldsLine l t h =
      let kept = move_up-keeps (parked t) t.screen.screen_y in
      record {
        is_entered = refl;
        emptied = refl;
        text = λ i lt. ground (arith, kept.0, h.count, ap (λ (f : ℕ → ℕ). f i) kept.1, h.line i);
        end = ground (arith, kept.0, h.count);
      }

  terminal_read-runs :
      (l : List ℕ) (t : Terminal) (buf len : ℕ) (r : Mem)
      → t.entered ≡ 1
      → len < 2 ^ 31
      → copy_line (min len 128) 0 t.text_buf buf t.screen.mem ≡ (r, some (length l))
      → terminal_read t 0 buf len
        ≡ some (record (on_screen t (λ s. record s { mem = r })) { entered = 0 }, some (length l))
  unfolding terminal_read read_helper
  terminal_read-runs l t buf len r e small copied =
      let positive : is_neg len ≡ false = ground arith in rw (e, positive, copied) refl

  read_helper-HoldsLine :
      (l : List ℕ) (t : Terminal) (buf len : ℕ)
      → HoldsLine l t
      → IsText l
      → length l < 80
      → length l < len
      → len < 2 ^ 31
      → (v : Terminal) × (terminal_read t 0 buf len ≡ some (v, some (length l)))
        × ((i : ℕ) → i < length l → v.screen.mem (buf + i) ≡ chars l i)
        × (v.screen.mem (buf + length l) ≡ 10)
        × (v.entered ≡ 0)
  read_helper-HoldsLine l t buf len h text short fits small =
      let copied =
        copy_line-lem (min len 128) 0 (length l) t.text_buf buf t.screen.mem (omega arith)
          (omega arith) (λ j p q e. omega (arith, h.text j q, text j q)) h.end in
      (
        record (on_screen t (λ s. record s { mem = copied.0 })) { entered = 0 },
        terminal_read-runs l t buf len copied.0 h.is_entered small copied.1,
        λ i lt. copied.2 (buf + i) ∙ ground (arith, h.text i),
        copied.2 (buf + length l) ∙ ground (arith, h.end),
        refl,
      )

  -- From an empty line behind a prompt of at least seven columns, after keys that are printable
  -- characters or backspaces, not so many that the row would be full if all of them were
  -- characters, and the return key: terminal_read, with room for the line that is left and its end,
  -- gives the program the line as a line editor makes it of these keys, then the new line, and
  -- returns the line's length.
  pub terminal_read-typed :
      (t : Terminal) (ks : List ℕ) (buf len : ℕ)
      → Holds start y [] t
      → AllEditKeys ks
      → start + length ks < 80
      → length (edit_all [] ks) < len
      → len < 2 ^ 31
      → let l = edit_all [] ks in
        (v : Terminal) × (terminal_read (state_of (keyboard_read (press_all t ks) 10)) 0 buf len
          ≡ some (v, some (length l)))
        × ((i : ℕ) → i < length l → v.screen.mem (buf + i) ≡ chars l i)
        × (v.screen.mem (buf + length l) ≡ 10)
        × (v.entered ≡ 0)
  terminal_read-typed t ks buf len h keys room fits small =
      let typed = keys-Holds start y behind_prompt on_row ks [] t keys h (omega arith) in
      rw (entered-runs [] (press_all t ks)) (
        read_helper-HoldsLine (edit_all [] ks) _ buf len
          (entered-HoldsLine (edit_all [] ks) (press_all t ks) typed)
          (edit_all-IsText ks [] (λ i lt. absurd (omega arith)) keys)
          (omega (arith, length-edit_all ks [])) fits small)
