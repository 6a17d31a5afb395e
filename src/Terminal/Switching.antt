-- ===== src/Terminal/Switching.antt =====
-- A terminal that is left and shown again is as it was.
use mp.Base.{ℕ, ◌+◌, ◌-◌, ◌≤◌, ◌<◌, ◌≡◌, ◌≢◌, ◌⊎◌, inl, inr, refl, ap, ◌∙◌, true, ltb-true, arith}
use mp.Memory.{Mem, memcpy, copied}
use mp.Memory.Copy.{memcpy-copied, IsUpward}
use mp.Screen.{Screen, clear, setxy}
use mp.Screen.Cells.{clear-blank}
use mp.Terminal.{
  Terminal, kept_of, Saved, Outcome, returns, runs_shell, terminal_switch, save_terminal,
  show_terminal, start_terminal, set_cursor, term_at, v_mem_addr, is_terminal, buf_max,
}

abbrev pub IsTerminal : ℕ → Type 0
IsTerminal c = (1 ≤ c) × (c ≤ 3)

-- A byte outside the 4 KB at an address.
abbrev pub IsOutside : ℕ → ℕ → Type 0
IsOutside a b = (b < a) ⊎ (a + 4096 ≤ b)

block_copied :
    (m : Mem) (d s k : ℕ) → IsUpward d s 4096 → k < 4096 → memcpy m d s 4096 (d + k) ≡ m (s + k)
unfolding copied
block_copied m d s k up h = memcpy-copied m d s 4096 (d + k) up ∙ ground arith

block_kept : (m : Mem) (d s b : ℕ) → IsUpward d s 4096 → IsOutside d b → memcpy m d s 4096 b ≡ m b
unfolding copied
block_kept m d s b up out = memcpy-copied m d s 4096 b up ∙ ground arith

IsTerminal-test : (c : ℕ) → IsTerminal c → is_terminal c ≡ true
IsTerminal-test c h = ground arith

term_at_range : (c : ℕ) → (0x0060_0000 ≤ term_at c) × (term_at c ≤ 0x0060_8000)
term_at_range c = ground arith

term_at_apart :
    (c n : ℕ)
    → IsTerminal c
    → IsTerminal n
    → c ≢ n
    → (term_at c + 4096 ≤ term_at n) ⊎ (term_at n + 4096 ≤ term_at c)
term_at_apart c n hc hn ne = ground arith

saved_self : (t : Terminal) → (save_terminal t).terminals (t.cur_terminal - 1) ≡ kept_of t
unfolding save_terminal
saved_self t = ground arith

saved-other :
    (t : Terminal) (i : ℕ) → i ≢ t.cur_terminal - 1 → (save_terminal t).terminals i ≡ t.terminals i
unfolding save_terminal
saved-other t i h = ground arith

saved-mem :
    (t : Terminal)
    → IsTerminal t.cur_terminal
    → (save_terminal t).screen.mem ≡ memcpy t.screen.mem (term_at t.cur_terminal) v_mem_addr 4096
unfolding save_terminal
saved-mem t h = rw (IsTerminal-test t.cur_terminal h) refl

shown-mem :
    (t : Terminal) (c : ℕ)
    → IsTerminal c
    → (show_terminal t c).screen.mem ≡ memcpy t.screen.mem v_mem_addr (term_at c) 4096
unfolding show_terminal set_cursor setxy
shown-mem t c h = rw (IsTerminal-test c h) refl

clear-kept : (s : Screen) (b : ℕ) → IsOutside v_mem_addr b → (clear s).mem b ≡ s.mem b
clear-kept s b h = (clear-blank s).0 b ∙ ground arith

-- The terminal that is left, with a clear screen, and the one that comes.
abbrev left : Terminal → ℕ → Terminal
left t n =
    let t1 = save_terminal t in
    record (set_cursor (record t1 { screen = clear t1.screen }) 0 0) { cur_terminal = n }

left-mem : (t : Terminal) (n : ℕ) → (left t n).screen.mem ≡ (clear (save_terminal t).screen).mem
unfolding set_cursor setxy
left-mem t n = refl

-- What the saved block of the terminal that is left holds.
left-here :
    (t : Terminal) (n k : ℕ)
    → IsTerminal t.cur_terminal
    → k < 4096
    → (left t n).screen.mem (term_at t.cur_terminal + k) ≡ t.screen.mem (v_mem_addr + k)
left-here t n k h lt =
    let r = term_at_range t.cur_terminal in
    let place = term_at t.cur_terminal + k in
    rw (left-mem t n) (
      clear-kept (save_terminal t).screen place (inr (omega arith))
      ∙ rw (saved-mem t h)
          (block_copied t.screen.mem (term_at t.cur_terminal) v_mem_addr k (inl (omega arith)) lt))

-- A block of another terminal is kept.
left-kept :
    (t : Terminal) (n c k : ℕ)
    → IsTerminal t.cur_terminal
    → IsTerminal c
    → c ≢ t.cur_terminal
    → k < 4096
    → (left t n).screen.mem (term_at c + k) ≡ t.screen.mem (term_at c + k)
left-kept t n c k h hc ne lt =
    let r = term_at_range c in
    let q = term_at_range t.cur_terminal in
    let apart = term_at_apart c t.cur_terminal hc h ne in
    rw (left-mem t n) (
      clear-kept (save_terminal t).screen (term_at c + k) (inr (omega arith))
      ∙ rw (saved-mem t h) (
          block_kept t.screen.mem (term_at t.cur_terminal) v_mem_addr (term_at c + k)
            (inl (omega arith)) (omega arith)))

-- The state in which terminal_switch returns or calls execute.
abbrev pub state_of : Outcome → Terminal
state_of (returns t) = t
state_of (runs_shell t) = t

module _ (t : Terminal) (n : ℕ) (current : IsTerminal t.cur_terminal) (next : IsTerminal n)
    (ne : t.cur_terminal ≢ n) where
  unfoldable pub away : Terminal
  away = state_of (terminal_switch t n)

  away-mem : (b : ℕ) → IsOutside v_mem_addr b → away.screen.mem b ≡ (left t n).screen.mem b
  unfolding away terminal_switch start_terminal
  away-mem b out = ground (
    arith,
    shown-mem (left t n) n next,
    block_kept (left t n).screen.mem v_mem_addr (term_at n) b,
  )

  away-terminals : away.terminals ≡ (save_terminal t).terminals
  unfolding away terminal_switch start_terminal show_terminal set_cursor
  away-terminals = ground arith

  pub away-current : away.cur_terminal ≡ n
  unfolding away terminal_switch start_terminal show_terminal set_cursor
  away-current = ground arith

  away-block :
      (k : ℕ)
      → k < 4096
      → away.screen.mem (term_at t.cur_terminal + k) ≡ t.screen.mem (v_mem_addr + k)
  away-block k lt =
      let r = term_at_range t.cur_terminal in
      away-mem (term_at t.cur_terminal + k) (inr (omega arith)) ∙ left-here t n k current lt

  -- A terminal that was started before: terminal_switch shows it at once.
  abbrev pub IsStarted : Terminal → ℕ → Type 0
  IsStarted u c = (c ≡ 2 → u.term2_flag ≢ 0) × (c ≡ 3 → u.term3_flag ≢ 0)

  -- What a terminal keeps: its screen, its cursor, its line, its process. The count of the
  -- characters in the line is not kept: it stays that of the terminal on display before.
  pub record ShownAgain (u v : Terminal) : Type 0 where
    pub cells : (k : ℕ) → k < 4096 → v.screen.mem (v_mem_addr + k) ≡ t.screen.mem (v_mem_addr + k)
    pub column : v.screen.screen_x ≡ t.screen.screen_x
    pub row : v.screen.screen_y ≡ t.screen.screen_y
    pub line : (i : ℕ) → i < buf_max → v.text_buf i ≡ t.text_buf i
    pub directory : v.cr3 ≡ t.cr3
    pub stack : v.esp ≡ t.esp
    pub displayed : v.cur_terminal ≡ t.cur_terminal
    pub stale_count : v.counter ≡ u.counter

  module _ (u : Terminal) (started : IsStarted u t.cur_terminal) (there : u.cur_terminal ≡ n)
      (kept : u.terminals (t.cur_terminal - 1) ≡ away.terminals (t.cur_terminal - 1))
      (block : (k : ℕ)
        → k < 4096
        → u.screen.mem (term_at t.cur_terminal + k)
          ≡ away.screen.mem (term_at t.cur_terminal + k)) where
    back : Terminal
    back = show_terminal (left u t.cur_terminal) t.cur_terminal

    switch-runs : terminal_switch u t.cur_terminal ≡ returns back
    unfolding terminal_switch back
    switch-runs = ground (arith, started.0, started.1)

    left-terminals : (left u t.cur_terminal).terminals (t.cur_terminal - 1) ≡ kept_of t
    unfolding set_cursor
    left-terminals =
        saved-other u (t.cur_terminal - 1) (omega arith)
        ∙ kept
        ∙ ap (λ (f : ℕ → Saved). f (t.cur_terminal - 1)) away-terminals
        ∙ saved_self t

    back-cells :
        (k : ℕ) → k < 4096 → back.screen.mem (v_mem_addr + k) ≡ t.screen.mem (v_mem_addr + k)
    unfolding back
    back-cells k lt =
        ap (λ (m : Mem). m (v_mem_addr + k))
          (shown-mem (left u t.cur_terminal) t.cur_terminal current)
        ∙ block_copied (left u t.cur_terminal).screen.mem v_mem_addr (term_at t.cur_terminal) k
            (inr (omega (arith, term_at_range t.cur_terminal))) lt
        ∙ left-kept u t.cur_terminal t.cur_terminal k (omega arith) current (omega arith) lt
        ∙ block k lt
        ∙ away-block k lt

    back-kept :
        (back.screen.screen_x ≡ (kept_of t).pos_x)
        × (back.screen.screen_y ≡ (kept_of t).pos_y)
        × ((i : ℕ) → i < buf_max → back.text_buf i ≡ (kept_of t).t_linebuffer i)
        × (back.cr3 ≡ (kept_of t).cr3)
        × (back.esp ≡ (kept_of t).esp)
        × (back.cur_terminal ≡ t.cur_terminal)
        × (back.counter ≡ u.counter)
    unfolding back show_terminal set_cursor setxy save_terminal
    back-kept = (
      ap (λ (s : Saved). s.pos_x) left-terminals,
      ap (λ (s : Saved). s.pos_y) left-terminals,
      λ i h. rw (ltb-true i buf_max h) (ap (λ (s : Saved). s.t_linebuffer i) left-terminals),
      ap (λ (s : Saved). s.cr3) left-terminals,
      ap (λ (s : Saved). s.esp) left-terminals,
      refl,
      refl,
    )

    -- A terminal that is left for another one, and shown again after any number of steps that do
    -- not touch what was kept of it, shows its screen again, with its cursor, its line and its
    -- process. The count of characters in the line is that of the other terminal.
    pub terminal_switch-ShownAgain :
        (v : Terminal) × (terminal_switch u t.cur_terminal ≡ returns v) × ShownAgain u v
    unfolding kept_of
    terminal_switch-ShownAgain =
        let k = back-kept in
        (
          back,
          switch-runs,
          record {
            cells = back-cells;
            column = k.0;
            row = k.1;
            line = λ i h. k.2 i h ∙ ground arith;
            directory = k.3;
            stack = k.4;
            displayed = k.5;
            stale_count = k.6;
          },
        )
