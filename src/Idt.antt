-- ===== src/Idt.antt =====
-- student-distrib/idt.c and the descriptors of x86_desc.h: the gates of the interrupt descriptor
-- table.
pub mod Gates
pub mod Exceptions
mod Tests
use mp.Base.{ℕ, zero, suc, ◌+◌, ◌*◌, ◌/◌, ◌^◌, List, [], ◌∷◌, bit_and, ◌==◌, if◌then◌else◌}
use mp.Io.{Io, cli}

-- idt_desc_t, the fields of the struct in order.
pub record IdtDesc : Type 0 where
  pub offset_15_00 : ℕ
  pub seg_selector : ℕ
  pub reserved4 : ℕ
  pub reserved3 : ℕ
  pub reserved2 : ℕ
  pub reserved1 : ℕ
  pub size : ℕ
  pub reserved0 : ℕ
  pub dpl : ℕ
  pub present : ℕ
  pub offset_31_16 : ℕ

abbrev pub Table : Type 0
Table = ℕ → IdtDesc

abbrev pub kernel_cs : ℕ
kernel_cs = 0x10

-- SET_IDT_ENTRY
unfoldable pub set_idt_entry : IdtDesc → ℕ → IdtDesc
set_idt_entry d handler = record d {
  offset_31_16 = bit_and handler 0xffff_0000 / 2 ^ 16;
  offset_15_00 = bit_and handler 0xffff;
}

-- What the three functions have in common; they differ in `reserved3` and `dpl`.
unfoldable pub gate : ℕ → ℕ → IdtDesc → ℕ → IdtDesc
unfolding set_idt_entry
gate reserved3 dpl d address =
    set_idt_entry
      (record d {
        seg_selector = kernel_cs;
        reserved4 = bit_and d.reserved4 0x1f;
        reserved3 = reserved3;
        reserved2 = 1;
        reserved1 = 1;
        size = 1;
        reserved0 = 0;
        dpl = dpl;
        present = 1;
      })
      address

unfoldable pub set_trap_gate : Table → ℕ → ℕ → Table
set_trap_gate idt num address i = if i == num then gate 1 0 (idt i) address else idt i

unfoldable pub set_intr_gate : Table → ℕ → ℕ → Table
set_intr_gate idt num address i = if i == num then gate 0 0 (idt i) address else idt i

unfoldable pub set_system_gate : Table → ℕ → ℕ → Table
set_system_gate idt num address i = if i == num then gate 1 3 (idt i) address else idt i

-- The handlers: the functions of idt.c, and the three entry points in assembly.
pub data Handler : Type 0 where
  divide_by_0 debug non_mask_intr breakpoint overflow out_of_bounds invalid_op no_coprocessor :
      Handler
  double_fault coprocessor_segment_overrun bad_tss no_segment stack_fault : Handler
  general_protection page_fault coprocessor_fault alignment_check machine_check : Handler
  simd_coprocessor_error ignore_int keyboard_handler rtc_handler syscall_handler : Handler

-- The loops of init_idt.
pub set_trap_gates : ℕ → ℕ → ℕ → Table → Table
set_trap_gates zero i address idt = idt
set_trap_gates (suc left) i address idt =
    set_trap_gates left (i + 1) address (set_trap_gate idt i address)

pub set_intr_gates : ℕ → ℕ → ℕ → Table → Table
set_intr_gates zero i address idt = idt
set_intr_gates (suc left) i address idt =
    set_intr_gates left (i + 1) address (set_intr_gate idt i address)

-- The part of init_idt before its loops; `at` gives the handlers' addresses.
unfoldable pub set_exceptions : (Handler → ℕ) → Table → Table
set_exceptions at t0 =
    let t1 = set_trap_gate t0 0 (at divide_by_0) in
    let t2 = set_trap_gate t1 1 (at debug) in
    let t3 = set_intr_gate t2 2 (at non_mask_intr) in
    let t4 = set_system_gate t3 3 (at breakpoint) in
    let t5 = set_system_gate t4 4 (at overflow) in
    let t6 = set_system_gate t5 5 (at out_of_bounds) in
    let t7 = set_trap_gate t6 6 (at invalid_op) in
    let t8 = set_trap_gate t7 7 (at no_coprocessor) in
    let t9 = set_trap_gate t8 8 (at double_fault) in
    let t10 = set_trap_gate t9 9 (at coprocessor_segment_overrun) in
    let t11 = set_trap_gate t10 10 (at bad_tss) in
    let t12 = set_trap_gate t11 11 (at no_segment) in
    let t13 = set_trap_gate t12 12 (at stack_fault) in
    let t14 = set_trap_gate t13 13 (at general_protection) in
    let t15 = set_intr_gate t14 14 (at page_fault) in
    let t16 = set_trap_gate t15 15 (at coprocessor_fault) in
    let t17 = set_trap_gate t16 16 (at alignment_check) in
    let t18 = set_trap_gate t17 17 (at machine_check) in
    set_trap_gate t18 18 (at simd_coprocessor_error)

unfoldable pub init_idt : (Handler → ℕ) → Table → Table
init_idt at t0 =
    let t1 = set_trap_gates 13 19 (at ignore_int) (set_exceptions at t0) in
    let t2 = set_intr_gates 224 32 (at ignore_int) t1 in
    let t3 = set_intr_gate t2 33 (at keyboard_handler) in
    let t4 = set_intr_gate t3 40 (at rtc_handler) in set_system_gate t4 128 (at syscall_handler)

-- What the processor reads of a gate: byte 5, with the type, the privilege and the present bit; and
-- the address of the handler.
unfoldable pub access_byte : IdtDesc → ℕ
access_byte d =
    d.reserved3
    + d.reserved2 * 2
    + d.reserved1 * 4
    + d.size * 8
    + d.reserved0 * 16
    + d.dpl * 32
    + d.present * 128

unfoldable pub handler_address : IdtDesc → ℕ
handler_address d = d.offset_31_16 * 2 ^ 16 + d.offset_15_00
