-- ===== src/Commands/Tests.antt =====
-- A command line on concrete bytes.
use mp.Base.{
  ◌+◌, ltb, if◌then◌else◌, ℕ, zero, suc, ◌∷◌, [], get_or, ◌≡◌, ◌≢◌, ◌<◌, refl, arith, some,
}
use mp.Commands.{parse_cmd}
use mp.Commands.Parsing.{IsLine, parse_cmd-line}

-- `cat f0`
abbrev cat_f0 : ℕ → ℕ
cat_f0 i = get_or (99 ∷ 97 ∷ 116 ∷ 32 ∷ 102 ∷ 48 ∷ 0 ∷ []) i 0

cat_f0-IsLine : IsLine cat_f0 3 2
cat_f0-IsLine = record {
  ends = record { nul = refl; before = live };
  some_cmd = omega arith;
  cmd_fits = omega arith;
  arg_fits = omega arith;
  cmd_plain = plain;
  space = refl;
  arg_plain = later;
}
  where
    live : (i : ℕ) → i < 6 → cat_f0 i ≢ 0
    live zero h e = omega arith
    live (suc zero) h e = omega arith
    live (suc (suc zero)) h e = omega arith
    live (suc (suc (suc zero))) h e = omega arith
    live (suc (suc (suc (suc zero)))) h e = omega arith
    live (suc (suc (suc (suc (suc zero))))) h e = omega arith
    live (suc (suc (suc (suc (suc (suc i)))))) h e = omega arith

    plain : (i : ℕ) → i < 3 → cat_f0 i ≢ 32
    plain zero h e = omega arith
    plain (suc zero) h e = omega arith
    plain (suc (suc zero)) h e = omega arith
    plain (suc (suc (suc i))) h e = omega arith

    later : (i : ℕ) → 3 < i → i < 6 → cat_f0 i ≢ 32
    later zero lo h e = omega arith
    later (suc zero) lo h e = omega arith
    later (suc (suc zero)) lo h e = omega arith
    later (suc (suc (suc zero))) lo h e = omega arith
    later (suc (suc (suc (suc zero)))) lo h e = omega arith
    later (suc (suc (suc (suc (suc zero))))) lo h e = omega arith
    later (suc (suc (suc (suc (suc (suc i)))))) lo h e = omega arith

parse_cmd-line_example :
    (f : ℕ → ℕ) × (parse_cmd 128 cat_f0 (λ c. 7) ≡ some f)
    × ((c : ℕ) → c < 40 → f c ≡ (if ltb c 3 then cat_f0 c else 0))
    × ((c : ℕ) → c < 40 → f (40 + c) ≡ (if ltb c 2 then cat_f0 (3 + 1 + c) else 0))
    × (f 80 ≡ 2)
    × ((c : ℕ) → 80 < c → f c ≡ 7)
parse_cmd-line_example = parse_cmd-line cat_f0 (λ c. 7) 3 2 cat_f0-IsLine 128 (omega arith)
