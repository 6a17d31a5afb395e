-- ===== src/Commands/Parsing.antt =====
-- A command and one argument, separated by one space.
use mp.Base.{
  ℕ, zero, suc, ◌+◌, ◌-◌, ◌≤◌, ◌<◌, ◌≡◌, ◌≢◌, refl, sym, ap, subst, ◌∙◌, some, ◌==◌, ltb,
  if◌then◌else◌, min, arith, u8,
}
use mp.Memory.Text.{EndsAt}
use mp.Memory.Text.Laws.{strlen-EndsAt}
use mp.Commands.{Parse, separate, separate_from, cleared_names, parse_line, parse_cmd}

separate_from-suc :
    (m i : ℕ) (input : ℕ → ℕ) (p : Parse)
    → separate_from (suc m) i input p ≡ separate input (i + m) (separate_from m i input p)
unfolding separate_from
separate_from-suc zero i input p = ap (λ t. separate input t p) (omega arith)
separate_from-suc (suc m) i input p =
    separate_from-suc m (i + 1) input (separate input i p)
    ∙ ap (λ t. separate input t (separate_from m (i + 1) input (separate input i p))) (omega arith)

separate_from-zero : (i : ℕ) (input : ℕ → ℕ) (p : Parse) → p ≡ separate_from zero i input p
unfolding separate_from
separate_from-zero i input p = refl

separate_from-last :
    (m : ℕ) (input : ℕ → ℕ) (p : Parse)
    → separate_from (suc m) 0 input p ≡ separate input m (separate_from m 0 input p)
separate_from-last m input p =
    separate_from-suc m 0 input p
    ∙ ap (λ t. separate input t (separate_from m 0 input p)) (omega arith)

-- A line of two words: `a` characters, a space, `b` characters, and the end.
pub record IsLine (input : ℕ → ℕ) (a b : ℕ) : Type 0 where
  pub ends : EndsAt input (a + 1 + b)
  pub some_cmd : 1 ≤ a
  pub cmd_fits : a ≤ 40
  pub arg_fits : b ≤ 40
  pub cmd_plain : (i : ℕ) → i < a → input i ≢ 32
  pub space : input a ≡ 32
  pub arg_plain : (i : ℕ) → a < i → i < a + 1 + b → input i ≢ 32

-- The bytes after `m` characters of it.
abbrev split : (ℕ → ℕ) → (ℕ → ℕ) → ℕ → ℕ → ℕ → ℕ
split input fields a m c =
    if ltb c 40
    then (if ltb c (min m a) then input c else 0)
    else if ltb c 80
    then (if ltb (c - 40) (m - (a + 1)) then input (a + 1 + (c - 40)) else 0)
    else fields c

record Separated (input fields : ℕ → ℕ) (a m : ℕ) (p : Parse) : Type 0 where
  bytes : (c : ℕ) → p.fields c ≡ split input fields a m c
  cmd : p.cmd_size ≡ min m a
  arg : p.arg_size ≡ m - (a + 1)
  switch : p.switch_flag ≡ (if ltb m a then 0 else 1)

module _ (input fields : ℕ → ℕ) (a b : ℕ) (line : IsLine input a b) where
  separate-Separated :
      (m : ℕ) (p : Parse)
      → m < a + 1 + b
      → Separated input fields a m p
      → Separated input fields a (suc m) (separate input m p)
  unfolding separate
  separate-Separated m p h s = record {
    bytes = λ c. ground (
      arith,
      s.bytes c,
      s.cmd,
      s.arg,
      s.switch,
      line.cmd_plain m,
      line.arg_plain m,
      line.space,
      line.cmd_fits,
      line.arg_fits,
      line.some_cmd,
    );
    cmd =
        ground (arith, s.cmd, s.switch, line.cmd_plain m, line.space, line.cmd_fits, line.arg_fits);
    arg =
        ground (arith, s.arg, s.switch, line.arg_plain m, line.space, line.cmd_fits, line.arg_fits);
    switch = ground (arith, s.switch, line.cmd_plain (m + 1), line.space, line.some_cmd);
  }

  abbrev start : Parse
  start = record { fields = cleared_names fields; cmd_size = 0; arg_size = 0; switch_flag = 0 }

  start-Separated : Separated input fields a 0 start
  unfolding cleared_names
  start-Separated = record {
    bytes = λ c. ground arith;
    cmd = ground arith;
    arg = ground arith;
    switch = ground (arith, line.some_cmd);
  }

  separate_from-Separated :
      (m : ℕ) → m ≤ a + 1 + b → Separated input fields a m (separate_from m 0 input start)
  separate_from-Separated zero h =
      subst (Separated input fields a 0) (separate_from-zero 0 input start) start-Separated
  separate_from-Separated (suc m) h =
      subst (Separated input fields a (suc m)) (sym (separate_from-last m input start)) (
        separate-Separated m (separate_from m 0 input start) (omega arith)
          (separate_from-Separated m (omega arith)))

  parse_line-bytes :
      (c : ℕ)
      → parse_line (a + 1 + b) input fields c
        ≡ (if c == 80 then b else split input fields a (a + 1 + b) c)
  unfolding parse_line
  parse_line-bytes c =
      let done = separate_from-Separated (a + 1 + b) (omega arith) in
      ground (arith, done.bytes c, done.arg, line.cmd_plain 0, line.some_cmd)

  -- On a line of a command of 1 to 40 characters, one space and an argument of at most 40, with
  -- fuel above its length, parse_cmd returns; `cmd_name` is the command and `arg_name` the argument,
  -- each followed by zeros, `data_arg_size` is the argument's length, and no byte behind changes.
  pub parse_cmd-line :
      (fuel : ℕ)
      → a + 1 + b < fuel
      → (f : ℕ → ℕ) × (parse_cmd fuel input fields ≡ some f)
        × ((c : ℕ) → c < 40 → f c ≡ (if ltb c a then input c else 0))
        × ((c : ℕ) → c < 40 → f (40 + c) ≡ (if ltb c b then input (a + 1 + c) else 0))
        × (f 80 ≡ b)
        × ((c : ℕ) → 80 < c → f c ≡ fields c)
  unfolding parse_cmd
  parse_cmd-line fuel h = (
    parse_line (a + 1 + b) input fields,
    rw (parse_cmd, strlen-EndsAt fuel input (a + 1 + b) line.ends h)
        (ap (λ n. some (parse_line n input fields))
          (small (a + 1 + b) (omega (arith, line.cmd_fits, line.arg_fits)))),
    λ c lt. ground (arith, parse_line-bytes c),
    λ c lt. ground (arith, parse_line-bytes (40 + c)),
    ground (arith, parse_line-bytes 80),
    λ c lt. ground (arith, parse_line-bytes c),
  )
    where
      small : (n : ℕ) → n < 256 → u8 n ≡ n
      small n lt = omega arith
