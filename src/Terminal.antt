-- ===== src/Terminal.antt =====
-- student-distrib/terminal.c: the cursor, the three terminals and the switch between them.
pub mod Switching
pub mod Tests
use mp.Base.{
  ℕ, zero, suc, ◌+◌, ◌-◌, ◌*◌, ◌/◌, ◌%◌, ◌^◌, Bool, true, false, ◌&&◌, List, [], ◌∷◌, ◌++◌, ltb,
  ◌==◌, if◌then◌else◌, add32, sub32, mul32, u32, minus_one, bit_and,
}
use mp.Memory.{Mem, memcpy}
use mp.Io.{Io, outb}
use mp.Pic
use mp.Pic.{Pic}
use mp.Kernel.{Pcb, FileStruct, PageDirectory, kernel_directory, task_directory}
use mp.Screen.{Screen, setxy, clear}

-- terminal_t; `counter` and `ebp` are never written or read.
pub record Saved : Type 0 where
  pub t_linebuffer : ℕ → ℕ
  pub pos_x : ℕ
  pub pos_y : ℕ
  pub esp : ℕ
  pub kernel_esp : ℕ
  pub cr3 : PageDirectory
  pub file_struct : List FileStruct

-- The variables of terminal.c, with those of the kernel that it uses; the screen holds the memory.
pub record Terminal : Type 0 where
  pub screen : Screen
  pub text_buf : ℕ → ℕ
  pub counter : ℕ
  pub entered : ℕ
  pub cur_terminal : ℕ
  pub term2_flag : ℕ
  pub term3_flag : ℕ
  pub term2_press : ℕ
  pub term3_press : ℕ
  pub terminals : ℕ → Saved
  pub pcblock : Pcb
  -- The copies of the control blocks below the kernel stacks, by process.
  pub saved : ℕ → Pcb
  pub esp : ℕ
  pub cr3 : PageDirectory
  -- `tss.ss0` and `tss.esp0`
  pub tss_ss0 : ℕ
  pub tss_esp0 : ℕ
  pub pic : Pic
  pub io : List Io

abbrev pub buf_max : ℕ
buf_max = 128

abbrev pub emit : Terminal → List Io → Terminal
emit t ios = record t { io = t.io ++ ios }

unfoldable pub set_cursor : Terminal → ℕ → ℕ → Terminal
set_cursor t x y =
    let position = add32 (mul32 y 80) x in
    record t {
      screen = setxy t.screen x y;
      io =
          t.io
          ++ (outb 0x0f 0x3d4
              ∷ outb (bit_and position 0xff) 0x3d5
              ∷ outb 0x0e 0x3d4
              ∷ outb (bit_and (position / 2 ^ 8) 0xff) 0x3d5
              ∷ []);
    }

-- The loop that stores zeros in `text_buf`.
abbrev pub empty_buf : (ℕ → ℕ) → ℕ → ℕ
empty_buf buf i = if ltb i buf_max then 0 else buf i

-- The loops that copy a line buffer.
abbrev pub copy_buf : (ℕ → ℕ) → (ℕ → ℕ) → ℕ → ℕ
copy_buf dest src i = if ltb i buf_max then src i else dest i

unfoldable pub terminal_open : Terminal → ℕ × Terminal
terminal_open t =
    let t1 = set_cursor (record t { text_buf = empty_buf t.text_buf; counter = 0 }) 0 0 in
    let (pic, ios) = Pic.enable_irq t.pic 1 in
    (0, emit (record t1 { term2_press = 0; term3_press = 0; pic = pic }) ios)

unfoldable pub terminal_close : Terminal → ℕ × Terminal
terminal_close t =
    let (pic, ios) = Pic.disable_irq t.pic 1 in (minus_one, emit (record t { pic = pic }) ios)

unfoldable pub get_pid_from_cr3 : PageDirectory → ℕ
get_pid_from_cr3 kernel_directory = 0
get_pid_from_cr3 (task_directory n) = n

abbrev pub v_mem_addr : ℕ
v_mem_addr = 0x000b_8000

-- Where the screen of a terminal is kept. In `(uint32_t*)TERM2` the cast takes the first summand of
-- the macro only, so that the second counts words.
abbrev pub term_at : ℕ → ℕ
term_at n = if n == 1 then 0x0060_0000 else if n == 2 then 0x0060_4000 else 0x0060_8000

abbrev pub is_terminal : ℕ → Bool
is_terminal n = ltb 0 n && ltb n 4

unfoldable pub multi_init : Mem → Mem
multi_init m =
    memcpy (memcpy (memcpy m (term_at 1) v_mem_addr 4096) (term_at 2) v_mem_addr 4096) (term_at 3)
      v_mem_addr 4096

-- How terminal_switch ends: it returns, or it calls execute with `shell`.
pub data Outcome : Type 0 where
  returns runs_shell : Terminal → Outcome

-- What terminal_switch writes into the struct of the terminal on display.
unfoldable pub kept_of : Terminal → Saved
kept_of t = record {
  t_linebuffer = copy_buf (t.terminals (t.cur_terminal - 1)).t_linebuffer t.text_buf;
  pos_x = t.screen.screen_x;
  pos_y = t.screen.screen_y;
  esp = t.esp;
  kernel_esp = t.tss_esp0;
  cr3 = t.cr3;
  file_struct = (t.saved (get_pid_from_cr3 t.cr3)).file_struct;
}

-- The part of terminal_switch that saves the terminal on display.
unfoldable pub save_terminal : Terminal → Terminal
save_terminal t =
    let m = t.screen.mem in
    record t {
      terminals = λ i. if i == t.cur_terminal - 1 then kept_of t else t.terminals i;
      screen = record t.screen {
        mem =
            if is_terminal t.cur_terminal
            then memcpy m (term_at t.cur_terminal) v_mem_addr 4096
            else m;
      };
    }

-- The start of a terminal that was not shown before, up to its call of execute.
unfoldable pub start_terminal : Terminal → Terminal
start_terminal t = emit (record t { text_buf = empty_buf t.text_buf; counter = 0 }) (Pic.send_eoi 1)

-- The last part: the terminal `t_num` is put back.
unfoldable pub show_terminal : Terminal → ℕ → Terminal
show_terminal t t_num =
    let kept = t.terminals (t_num - 1) in
    let m = t.screen.mem in
    let t1 = record t {
      term2_press = 0;
      term3_press = 0;
      screen = record t.screen {
        mem = if is_terminal t_num then memcpy m v_mem_addr (term_at t_num) 4096 else m;
      };
    } in
    let t2 = set_cursor t1 kept.pos_x kept.pos_y in
    let pid = get_pid_from_cr3 kept.cr3 in
    emit
      (record t2 {
        text_buf = copy_buf t2.text_buf kept.t_linebuffer;
        pcblock = record (t2.saved pid) { file_struct = kept.file_struct };
        tss_ss0 = 0x18;
        tss_esp0 = sub32 (sub32 0x0080_0000 (mul32 0x2000 (sub32 pid 1))) 4;
        cr3 = kept.cr3;
        esp = kept.esp;
      })
      (Pic.send_eoi 1)

unfoldable pub terminal_switch : Terminal → ℕ → Outcome
terminal_switch t t_num =
    let t1 = save_terminal t in
    let t2 = record (set_cursor (record t1 { screen = clear t1.screen }) 0 0) {
      cur_terminal = t_num;
    } in
    if t.cur_terminal == t_num
    then returns t
    else if t_num == 2 && t.term2_flag == 0
    then runs_shell (start_terminal (record t2 { term2_flag = 1 }))
    else if t_num == 3 && t.term3_flag == 0
    then runs_shell (start_terminal (record t2 { term3_flag = 1 }))
    else returns (show_terminal t2 t_num)
