-- ===== src/Idt/Exceptions.antt =====
-- student-distrib/idt.c: the handlers of the exceptions. Each prints a message and loops for ever;
-- all but ignore_int turn the interrupts off before.
use Prim.Native.Char.{code}
use Prim.Native.String.{String}
use mp.Base.{ℕ, Option, none, some, List, [], ◌∷◌}
use mp.Io.{Io, cli}
use mp.Screen.{Screen, print_text}
use mp.Idt.{
  Handler, divide_by_0, debug, non_mask_intr, breakpoint, overflow, out_of_bounds, invalid_op,
  no_coprocessor, double_fault, coprocessor_segment_overrun, bad_tss, no_segment, stack_fault,
  general_protection, page_fault, coprocessor_fault, alignment_check, machine_check,
  simd_coprocessor_error, ignore_int, keyboard_handler, rtc_handler, syscall_handler,
}

abbrev codes : String → List ℕ
codes String.[] = []
codes (String.◌∷◌ c s) = code c ∷ codes s

-- The message of a handler; the three entry points in assembly have none.
abbrev pub message : Handler → Option String
message divide_by_0 = some "divide_by_0 error exception"
message debug = some "debug error exception"
message non_mask_intr = some "non_mask_intr exception"
message breakpoint = some "breakpoint exception"
message overflow = some "overflow exception"
message out_of_bounds = some "out_of_bounds exception"
message invalid_op = some "invalid_op exception"
message no_coprocessor = some "no_coprocessor exception"
message double_fault = some "double_fault exception"
message coprocessor_segment_overrun = some "coprocessor_segment_overrun exception"
message bad_tss = some "bad_TSS exception"
message no_segment = some "no_segment exception"
message stack_fault = some "stack_fault exception"
message general_protection = some "general_protection exception"
message page_fault = some "page_fault exception\n"
message coprocessor_fault = some "coprocessor_fault exception"
message alignment_check = some "alignment_check exception"
message machine_check = some "machine_check exception"
message simd_coprocessor_error = some "simd_coprocessor_error exception"
message ignore_int = some "ignored exceptions. "
message keyboard_handler = none
message rtc_handler = none
message syscall_handler = none

-- What the handler does before its loop: the screen in which the kernel stays, and `cli`.
unfoldable pub handle : Handler → Screen → Option (Screen × List Io)
handle h s = elim (message h) [
  | none ↦ none
  | some text ↦ some (print_text s (codes text), elim h [ ignore_int ↦ [] | _ ↦ cli ∷ [] ])
]
