-- ===== src/Console/Blocks.antt =====
-- The writes of student-distrib/terminal.c leave the control block of the process alone.
use mp.Base.{
  ℕ, zero, suc, ◌+◌, ◌≡◌, refl, ◌∙◌, Bool, true, false, not, is_neg, add32, ◌&&◌, ◌||◌, [], ◌∷◌,
  ◌==◌, if◌then◌else◌, leb, Bool-cases, inl, inr,
}
use mp.Kernel.{Pcb}
use mp.Terminal.{Terminal, set_cursor, emit}
use mp.Screen.{Screen, putc, get_char}
use mp.Io.{cli}
use mp.Console.{
  on_screen, terminal_write, write_helper, write_from, write_char, scroll, redraw, is_last_row,
}

-- The terminal's operations leave the control block alone.
redraw-pcblock : (n i : ℕ) (h : ℕ → ℕ → ℕ) (t : Terminal) → (redraw n i h t).pcblock ≡ t.pcblock
unfolding redraw set_cursor
redraw-pcblock zero i h t = refl
redraw-pcblock (suc n) i h t = redraw-pcblock n (i + 1) h _

pub record HasBlock (p : Pcb) (t : Terminal) : Type 0 where
  pub block : t.pcblock ≡ p

branch_block :
    (p : Pcb) (b : Bool) (x y : Terminal)
    → HasBlock p x
    → HasBlock p y
    → HasBlock p (if b then x else y)
branch_block p true x y h g = h
branch_block p false x y h g = g

cursor-HasBlock : (p : Pcb) (t : Terminal) (x y : ℕ) → HasBlock p t → HasBlock p (set_cursor t x y)
unfolding set_cursor
cursor-HasBlock p t x y h = record { block = h.block }

screen-HasBlock :
    (p : Pcb) (t : Terminal) (f : Screen → Screen) → HasBlock p t → HasBlock p (on_screen t f)
screen-HasBlock p t f h = record { block = h.block }

scroll-HasBlock : (p : Pcb) (t : Terminal) → HasBlock p t → HasBlock p (scroll t)
unfolding scroll
scroll-HasBlock p t h = cursor-HasBlock p _ 0 23 (record {
  block = redraw-pcblock 24 1 (λ i j. if leb 24 i then 32 else get_char t.screen j i) t ∙ h.block;
})

write_char-HasBlock :
    (p : Pcb) (t : Terminal) (c next : ℕ) → HasBlock p t → HasBlock p (write_char t c next)
unfolding write_char
write_char-HasBlock p t c next h =
    let t1 = if is_last_row t.screen.screen_y then scroll t else t in
    let h1 : HasBlock p t1 =
      branch_block p (is_last_row t.screen.screen_y) (scroll t) t (scroll-HasBlock p t h) h in
    let t3 = set_cursor t1 0 (add32 t1.screen.screen_y 1) in
    let t4 = on_screen t1 (λ s. putc s c) in
    let t2 = if c == 0 then t1 else if c == 10 then t3 else t4 in
    let h2 : HasBlock p t2 = branch_block p (c == 0) t1 (if c == 10 then t3 else t4) h1 (
      branch_block p (c == 10) t3 t4 (cursor-HasBlock p t1 0 (add32 t1.screen.screen_y 1) h1)
        (screen-HasBlock p t1 (λ s. putc s c) h1)) in
    branch_block p ((t.screen.screen_x == 80) && not (next == 10)) (on_screen t2 (λ s. putc s 10))
      t2 (screen-HasBlock p t2 (λ s. putc s 10) h2) h2

write_from-HasBlock :
    (p : Pcb) (n k : ℕ) (t : Terminal) (text : ℕ)
    → HasBlock p t
    → HasBlock p (write_from n k t text)
unfolding write_from
write_from-HasBlock p zero k t text h = h
write_from-HasBlock p (suc n) k t text h =
    write_from-HasBlock p n (k + 1) _ text (write_char-HasBlock p t _ _ h)

pub terminal_write-HasBlock :
    (t : Terminal) (fd buf len : ℕ) → HasBlock t.pcblock (terminal_write t fd buf len).0
unfolding terminal_write write_helper
terminal_write-HasBlock t fd buf len = elim (Bool-cases (fd == 0)) [
  | inl in_ ↦ rw in_ (record { block = refl })
  | inr out ↦ rw out (elim (Bool-cases ((buf == 0) || is_neg len)) [
    | inl bad ↦ rw bad (record { block = refl })
    | inr good ↦ rw good (record {
      block =
          (cursor-HasBlock t.pcblock _ _ _ (
            write_from-HasBlock t.pcblock len 0 (emit t (cli ∷ [])) buf
              (record { block = refl }))).block;
    })
  ])
]
