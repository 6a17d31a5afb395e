-- ===== src/Calls/Printing.antt =====
-- Programs whose output the kernel puts on the display: write of student-distrib/systemcalls.c with
-- write_helper of terminal.c.

use mp.Base.{
  ℕ, ◌+◌, ◌^◌, ◌≤◌, ◌<◌, ◌≡◌, ◌≢◌, ◌⊎◌, inl, inr, refl, sym, subst, ap, ◌∙◌, arith, false, ◌==◌,
  ◌||◌, Option, some, none, List, minus_one, is_neg, ◌∷◌, [], Bool-cases,
}
use mp.Kernel.{terminal_fops, filesystem_fops, file_of}
use mp.FileSystem.{bytes_at}
use mp.FileSystem.Data.Rounds.{Avoids}
use mp.Io.{cli}
use mp.Terminal.{Terminal, emit}
use mp.Screen.{video}
use mp.Console.{write_helper, terminal_write, scrolls_from}
use mp.Console.Display.{
  Display, Looks, SameBeside, advance_all, advance_all-append, write_helper-Shows, Looks-beside,
}
use mp.Console.Blocks.{terminal_write-HasBlock}
use mp.Machine.{Machine, screen_of, terminal_of, with_terminal}
use mp.Calls.{Answer, returns, write}
use mp.Calls.Dispatch.{write-filesystem}
use mp.Calls.System.{kernel_os, returned}
use mp.Programs.Pieces.{Prints}

-- A value of the source, or one that it never sets.
abbrev pub IsAnswer : Option ℕ → Type 0
IsAnswer v = (v ≡ none) ⊎ (v ≡ some 26)

write_helper-IsAnswer :
    (t : Terminal) (text n : ℕ) → text ≢ 0 → n < 2 ^ 31 → IsAnswer (write_helper t text n).1
unfolding write_helper
write_helper-IsAnswer t text n pointer count =
    let bad : (text == 0 || is_neg n) ≡ false = ground arith in
    rw bad (elim (Bool-cases (scrolls_from n 0 (emit t (cli ∷ [])) text)) [
      | inl e ↦ rw e (inr refl)
      | inr e ↦ rw e (inl refl)
    ])

-- What write of a text leaves.
pub record Written (d : Display) (m : Machine) (buf n : ℕ) (out : Answer) : Type 0 where
  pub value : Option ℕ
  pub result : Machine
  pub answer : out ≡ returns value result
  pub set_value : IsAnswer value
  pub looks : Looks (advance_all d (bytes_at n m.system.kernel.mem buf)) (screen_of result)
  pub beside : SameBeside m.system.kernel.mem result.system.kernel.mem
  pub block : result.system.kernel.pcblock ≡ m.system.kernel.pcblock
  pub filesystem : result.system.kernel.filesystem ≡ m.system.kernel.filesystem

pub write-Shows :
    (prev_val : ℕ) (d : Display) (m : Machine) (fd buf n : ℕ)
    → Looks d (screen_of m)
    → buf ≢ 0
    → 1 ≤ fd
    → fd < 8
    → (file_of m.system.kernel.pcblock fd).flags ≢ 0
    → ((file_of m.system.kernel.pcblock fd).fops_ptr ≡ filesystem_fops)
      ⊎ ((file_of m.system.kernel.pcblock fd).fops_ptr ≡ terminal_fops)
    → n < 2 ^ 31
    → (buf + n ≤ video) ⊎ (video + 4000 ≤ buf)
    → Written d m buf n (write prev_val m fd buf n)
write-Shows prev_val d m fd buf n h pointer lo hi opened driver count apart =
    let t = terminal_of m in
    let shows = write_helper-Shows d t buf n h pointer count apart in
    let helper : terminal_write t fd buf n ≡ write_helper t buf n =
      (let out : (fd == 0) ≡ false = ground arith in unfold terminal_write in rw out refl) in
    record {
      value = (write_helper t buf n).1;
      result = with_terminal m (write_helper t buf n).0;
      answer =
          write-filesystem prev_val m fd buf n pointer hi opened driver count
          ∙ ap (λ p. returns p.1 (with_terminal m p.0)) helper;
      set_value = write_helper-IsAnswer t buf n pointer count;
      looks = Looks-beside _ _ (write_helper t buf n).0.screen.mem shows.looks (λ b lo hi. refl);
      beside = shows.beside;
      block = rw (sym helper) ((terminal_write-HasBlock t fd buf n).block);
      filesystem = refl;
    }

-- What the program finds as the value.
abbrev value_of : ℕ → Option ℕ → ℕ
value_of stale none = stale
value_of stale (some v) = v

returned-value_of :
    (stale : ℕ) (v : Option ℕ) (m : Machine)
    → returned stale (returns v m) ≡ some (value_of stale v, m)
unfolding returned
returned-value_of stale none m = refl
returned-value_of stale (some v) m = refl

value_of-well :
    (stale : ℕ) (v : Option ℕ) → stale ≢ minus_one → IsAnswer v → value_of stale v ≢ minus_one
value_of-well stale v well (inl e) = rw e well
value_of-well stale v well (inr e) = rw e (λ q. omega (arith, q))

-- The kernel while a program runs that has a state of its own, `Has m pos`, and prints: descriptor 1 is
-- the terminal, and the display is what `out` makes of `d`.
pub record PrintsAt (Has : Machine → ℕ → Type 0) (d : Display) (m : Machine) (pos : ℕ)
    (out : List ℕ) : Type 0 where
  pub has : Has m pos
  pub looks : Looks (advance_all d out) (screen_of m)
  pub opened : (file_of m.system.kernel.pcblock 1).flags ≢ 0
  pub driver : (file_of m.system.kernel.pcblock 1).fops_ptr ≡ terminal_fops

-- Output leaves that state alone.
pub record Stays (Has : Machine → ℕ → Type 0) : Type 0 where
  pub stays :
      (m m' : Machine) (pos : ℕ)
      → m'.system.kernel.pcblock ≡ m.system.kernel.pcblock
      → m'.system.kernel.filesystem ≡ m.system.kernel.filesystem
      → SameBeside m.system.kernel.mem m'.system.kernel.mem
      → Has m pos
      → Has m' pos

module _ (Has : Machine → ℕ → Type 0) (keeps : Stays Has) (buf most : ℕ) (pointer : buf ≢ 0)
    (small : most < 2 ^ 31) (buf_apart : Avoids buf most video (video + 4000)) (stale : ℕ)
    (well : stale ≢ minus_one) (d : Display) (fuel rounds prev_b prev_a : ℕ)
    (runs : Machine → ℕ → Option (ℕ × Machine)) where
  abbrev prints :
      (m : Machine) (pos n : ℕ) (out : List ℕ)
      → PrintsAt Has d m pos out
      → n ≤ most
      → Written (advance_all d out) m buf n (write prev_a m 1 buf n)
  prints m pos n out here le =
      write-Shows prev_a (advance_all d out) m 1 buf n here.looks pointer (omega arith)
        (omega arith) here.opened (inr here.driver) (omega arith)
        (elim buf_apart [ inl below ↦ inl (omega arith) | inr above ↦ inr above ])

  -- The kernel writes what a program prints on the display.
  pub kernel_os-Prints :
      Prints (kernel_os stale fuel rounds prev_b prev_a runs) buf most (PrintsAt Has d)
  kernel_os-Prints = record {
    writes = λ m pos n out here lo le.
        let done = prints m pos n out here le in
        (
          value_of stale done.value,
          done.result,
          ap (returned stale) done.answer ∙ returned-value_of stale done.value done.result,
          value_of-well stale done.value well done.set_value,
          record {
            has = keeps.stays m done.result pos done.block done.filesystem done.beside here.has;
            looks =
                subst (λ e. Looks e (screen_of done.result))
                  (sym (advance_all-append d out (bytes_at n m.system.kernel.mem buf))) done.looks;
            opened = subst (λ p. (file_of p 1).flags ≢ 0) (sym done.block) here.opened;
            driver = ap (λ p. (file_of p 1).fops_ptr) done.block ∙ here.driver;
          },
        );
  }
