-- ===== src/Commands.antt =====
-- student-distrib/systemcalls.c: parse_cmd, which splits a command line. The fields
-- `cmd_name`, `arg_name` and `data_arg_size` of the packed struct pcb_t stand behind one another:
-- they are 81 bytes, by their offset from `cmd_name`, so that a store past the end of one is seen.
pub mod Parsing
mod Tests
use mp.Base.{
  ℕ, zero, suc, ◌+◌, ◌-◌, ◌%◌, ◌^◌, Bool, true, false, not, ◌&&◌, ◌||◌, Option, none, some, ◌==◌,
  ltb, leb, if◌then◌else◌, u8, is_neg, minus_one,
}
use mp.Memory.{Mem, store, memcpy}
use mp.Memory.Text.{strlen}

abbrev pub cmd_len : ℕ
cmd_len = 40

-- The local variables of parse_cmd, with the bytes of the control block.
pub record Parse : Type 0 where
  pub fields : ℕ → ℕ
  pub cmd_size : ℕ
  pub arg_size : ℕ
  pub switch_flag : ℕ

abbrev pub byte_stored : (ℕ → ℕ) → ℕ → ℕ → ℕ → ℕ
byte_stored f a v b = if b == a then v else f b

-- A round of the loop that separates the command from the argument.
unfoldable pub separate : (ℕ → ℕ) → ℕ → Parse → Parse
separate input i p =
    let in_cmd = (p.switch_flag == 0) && not (input i == 32) in
    let in_arg = (p.switch_flag == 1) && not (input i == 32) in
    let f1 = if in_cmd then byte_stored p.fields p.cmd_size (input i) else p.fields in
    let f2 = if in_arg then byte_stored f1 (cmd_len + p.arg_size) (input i) else f1 in
    record {
      fields = f2;
      cmd_size = if in_cmd then u8 (p.cmd_size + 1) else p.cmd_size;
      arg_size = if in_arg then u8 (p.arg_size + 1) else p.arg_size;
      switch_flag = if (p.switch_flag == 0) && input (i + 1) == 32 then 1 else p.switch_flag;
    }

unfoldable pub separate_from : ℕ → ℕ → (ℕ → ℕ) → Parse → Parse
separate_from zero i input p = p
separate_from (suc left) i input p = separate_from left (i + 1) input (separate input i p)

-- The loop that counts spaces, which looks at the whole line.
unfoldable pub count_spaces : ℕ → ℕ → (ℕ → ℕ) → ℕ → ℕ
count_spaces zero i input space_offset = space_offset
count_spaces (suc left) i input space_offset =
    count_spaces left (i + 1) input (if input i == 32 then u8 (space_offset + 1) else space_offset)

-- The first loop: the two names are cleared.
unfoldable pub cleared_names : (ℕ → ℕ) → ℕ → ℕ
cleared_names fields b = if ltb b (cmd_len + cmd_len) then 0 else fields b

-- parse_cmd behind its call of strlen: the bytes of the control block.
unfoldable pub parse_line : ℕ → (ℕ → ℕ) → (ℕ → ℕ) → ℕ → ℕ
parse_line input_length input fields =
    let start : Parse = record {
      fields = cleared_names fields;
      cmd_size = 0;
      arg_size = 0;
      switch_flag = 0;
    } in
    let offset = if input 0 == 32 then count_spaces input_length 0 input 0 else 0 in
    let p = separate_from (input_length - offset) offset input start in
    byte_stored p.fields (cmd_len + cmd_len) p.arg_size

-- parse_cmd. `none` means that strlen ran out of fuel.
unfoldable pub parse_cmd : ℕ → (ℕ → ℕ) → (ℕ → ℕ) → Option (ℕ → ℕ)
parse_cmd fuel input fields = elim (strlen fuel input) [
  | none ↦ none
  | some len ↦ some (parse_line (u8 len) input fields)
]
