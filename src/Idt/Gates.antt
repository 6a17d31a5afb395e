-- ===== src/Idt/Gates.antt =====
-- What the processor finds in each gate after init_idt.
use mp.Base.{
  ℕ, zero, suc, ◌+◌, ◌*◌, ◌/◌, ◌^◌, ◌≤◌, ◌<◌, ◌≡◌, ◌≢◌, refl, sym, ◌∙◌, ◌&&◌, leb, ltb, ◌==◌,
  if◌then◌else◌, arith, ℕ_discrete, subst, bit_and, bit_and-half_word, bit_and-half_up, List, [],
  ◌∷◌, get_or, get_or-past, dec_le,
}
use mp.Idt.{
  IdtDesc, Table, Handler, gate, set_trap_gate, set_intr_gate, set_system_gate, set_trap_gates,
  set_intr_gates, set_exceptions, init_idt, access_byte, handler_address, divide_by_0, debug,
  non_mask_intr, breakpoint, overflow, out_of_bounds, invalid_op, no_coprocessor, double_fault,
  coprocessor_segment_overrun, bad_tss, no_segment, stack_fault, general_protection, page_fault,
  coprocessor_fault, alignment_check, machine_check, simd_coprocessor_error, ignore_int,
  keyboard_handler, rtc_handler, syscall_handler,
}

-- The type of a gate: a trap gate, an interrupt gate, or a trap gate that user programs may call.
pub data Kind : Type 0 where
  trap interrupt system : Kind

-- Byte 5 of a gate: present, privilege 0 or 3, 32 bits, and the type.
abbrev pub access_of : Kind → ℕ
access_of trap = 0x8f
access_of interrupt = 0x8e
access_of system = 0xef

pub record IsGate (kind : Kind) (address : ℕ) (d : IdtDesc) : Type 0 where
  pub selector : d.seg_selector ≡ 0x10
  pub access : access_byte d ≡ access_of kind
  pub handler : handler_address d ≡ address

offset_halves :
    (a : ℕ) → a < 2 ^ 32 → bit_and a 0xffff_0000 / 2 ^ 16 * 2 ^ 16 + bit_and a 0xffff ≡ a
offset_halves a h =
    omega (arith, bit_and-half_word a, bit_and-half_up a 0xffff, bit_and-half_word (a / 65536))

module _ (d : IdtDesc) (a : ℕ) (h : a < 2 ^ 32) where
  trap-IsGate : IsGate trap a (gate 1 0 d a)
  unfolding gate access_byte handler_address
  trap-IsGate = record { selector = refl; access = refl; handler = offset_halves a h }

  interrupt-IsGate : IsGate interrupt a (gate 0 0 d a)
  unfolding gate access_byte handler_address
  interrupt-IsGate = record { selector = refl; access = refl; handler = offset_halves a h }

  system-IsGate : IsGate system a (gate 1 3 d a)
  unfolding gate access_byte handler_address
  system-IsGate = record { selector = refl; access = refl; handler = offset_halves a h }

-- The handlers of the first 19 vectors, in order.
abbrev pub exceptions : List (Kind × Handler)
exceptions =
    (trap, divide_by_0)
    ∷ (trap, debug)
    ∷ (interrupt, non_mask_intr)
    ∷ (system, breakpoint)
    ∷ (system, overflow)
    ∷ (system, out_of_bounds)
    ∷ (trap, invalid_op)
    ∷ (trap, no_coprocessor)
    ∷ (trap, double_fault)
    ∷ (trap, coprocessor_segment_overrun)
    ∷ (trap, bad_tss)
    ∷ (trap, no_segment)
    ∷ (trap, stack_fault)
    ∷ (trap, general_protection)
    ∷ (interrupt, page_fault)
    ∷ (trap, coprocessor_fault)
    ∷ (trap, alignment_check)
    ∷ (trap, machine_check)
    ∷ (trap, simd_coprocessor_error)
    ∷ []

-- The gate of each vector.
abbrev pub expected : ℕ → Kind × Handler
expected v =
    if v == 33
    then (interrupt, keyboard_handler)
    else if v == 40
    then (interrupt, rtc_handler)
    else if v == 128
    then (system, syscall_handler)
    else get_or exceptions v (if ltb v 32 then trap else interrupt, ignore_int)

set_trap_gates_lem :
    (n i a : ℕ) (t : Table) (j : ℕ)
    → set_trap_gates n i a t j ≡ (if leb i j && ltb j (i + n) then gate 1 0 (t j) a else t j)
unfolding set_trap_gates set_trap_gate
set_trap_gates_lem zero i a t j = ground arith
set_trap_gates_lem (suc n) i a t j =
    ground (arith, set_trap_gates_lem n (i + 1) a (set_trap_gate t i a) j)

set_intr_gates_lem :
    (n i a : ℕ) (t : Table) (j : ℕ)
    → set_intr_gates n i a t j ≡ (if leb i j && ltb j (i + n) then gate 0 0 (t j) a else t j)
unfolding set_intr_gates set_intr_gate
set_intr_gates_lem zero i a t j = ground arith
set_intr_gates_lem (suc n) i a t j =
    ground (arith, set_intr_gates_lem n (i + 1) a (set_intr_gate t i a) j)

-- A statement about each number below a bound, as a tuple.
abbrev AllBelow : ℕ → (ℕ → Type 0) → Type 0
AllBelow zero P = Unit
AllBelow (suc n) P = AllBelow n P × P n

AllBelow-at : (n : ℕ) (P : ℕ → Type 0) → AllBelow n P → (v : ℕ) → v < n → P v
AllBelow-at zero P all v h = absurd (omega arith)
AllBelow-at (suc n) P all v h = elim (ℕ_discrete v n) [
  | yes e ↦ subst P (sym e) all.1
  | no ne ↦ AllBelow-at n P all.0 v (omega arith)
]

module _ (at : Handler → ℕ) (small : (h : Handler) → at h < 2 ^ 32) (t : Table) where
  abbrev pub HasGate : Table → ℕ → Type 0
  HasGate idt v = IsGate (expected v).0 (at (expected v).1) (idt v)

  trap-set : (v : ℕ) (h : Handler) → IsGate trap (at h) (gate 1 0 (t v) (at h))
  trap-set v h = trap-IsGate (t v) (at h) (small h)

  interrupt-set : (v : ℕ) (h : Handler) → IsGate interrupt (at h) (gate 0 0 (t v) (at h))
  interrupt-set v h = interrupt-IsGate (t v) (at h) (small h)

  system-set : (v : ℕ) (h : Handler) → IsGate system (at h) (gate 1 3 (t v) (at h))
  system-set v h = system-IsGate (t v) (at h) (small h)

  exceptions-HasGate : AllBelow 19 (HasGate (set_exceptions at t))
  unfolding set_exceptions set_trap_gate set_intr_gate set_system_gate
  exceptions-HasGate = (
    (
      (
        (
          (
            (
              (
                (
                  (
                    (
                      (
                        (
                          (
                            (
                              (
                                (
                                  (
                                    ((tt, trap-set 0 divide_by_0), trap-set 1 debug),
                                    interrupt-set 2 non_mask_intr,
                                  ),
                                  system-set 3 breakpoint,
                                ),
                                system-set 4 overflow,
                              ),
                              system-set 5 out_of_bounds,
                            ),
                            trap-set 6 invalid_op,
                          ),
                          trap-set 7 no_coprocessor,
                        ),
                        trap-set 8 double_fault,
                      ),
                      trap-set 9 coprocessor_segment_overrun,
                    ),
                    trap-set 10 bad_tss,
                  ),
                  trap-set 11 no_segment,
                ),
                trap-set 12 stack_fault,
              ),
              trap-set 13 general_protection,
            ),
            interrupt-set 14 page_fault,
          ),
          trap-set 15 coprocessor_fault,
        ),
        trap-set 16 alignment_check,
      ),
      trap-set 17 machine_check,
    ),
    trap-set 18 simd_coprocessor_error,
  )

  abbrev filled : Table
  filled = set_trap_gates 13 19 (at ignore_int) (set_exceptions at t)

  by_parts :
      (idt : Table) {v : ℕ} {d : IdtDesc} (kh : Kind × Handler)
      → expected v ≡ kh
      → idt v ≡ d
      → IsGate kh.0 (at kh.1) d
      → HasGate idt v
  by_parts idt {v} {d} kh e ed g =
      subst (λ (x : Kind × Handler). IsGate x.0 (at x.1) (idt v)) (sym e)
        (subst (IsGate kh.0 (at kh.1)) (sym ed) g)

  expected-far :
      (v : ℕ)
      → 19 ≤ v
      → v ≢ 33
      → v ≢ 40
      → v ≢ 128
      → expected v ≡ (if ltb v 32 then trap else interrupt, ignore_int)
  expected-far v h n33 n40 n128 =
      ground (arith, get_or-past exceptions v (if ltb v 32 then trap else interrupt, ignore_int) h)

  untouched :
      (v : ℕ)
      → v ≢ 33
      → v ≢ 40
      → v ≢ 128
      → init_idt at t v ≡ set_intr_gates 224 32 (at ignore_int) filled v
  unfolding init_idt set_intr_gate set_system_gate
  untouched v n33 n40 n128 = ground arith

  below_32 : (v : ℕ) → v ≢ 33 → v ≢ 40 → v ≢ 128 → v < 32 → init_idt at t v ≡ filled v
  below_32 v n33 n40 n128 h =
      untouched v n33 n40 n128 ∙ ground (arith, set_intr_gates_lem 224 32 (at ignore_int) filled v)

  other_gates : (v : ℕ) → v < 256 → v ≢ 33 → v ≢ 40 → v ≢ 128 → HasGate (init_idt at t) v
  other_gates v h n33 n40 n128 = elim (dec_le 32 v) [
    | yes h32 ↦
        by_parts (init_idt at t) (interrupt, ignore_int)
          (ground (arith, expected-far v (omega arith) n33 n40 n128))
          (ground
            (arith, untouched v n33 n40 n128, set_intr_gates_lem 224 32 (at ignore_int) filled v))
          (interrupt-IsGate (filled v) (at ignore_int) (small ignore_int))
    | no n32 ↦ elim (dec_le 19 v) [
      | yes h19 ↦
          by_parts (init_idt at t) (trap, ignore_int)
            (ground (arith, expected-far v h19 n33 n40 n128))
            (below_32 v n33 n40 n128 (omega arith)
              ∙ ground (arith, set_trap_gates_lem 13 19 (at ignore_int) (set_exceptions at t) v))
            (trap-IsGate (set_exceptions at t v) (at ignore_int) (small ignore_int))
      | no n19 ↦
          by_parts (init_idt at t) (expected v) refl
            (below_32 v n33 n40 n128 (omega arith)
              ∙ ground (arith, set_trap_gates_lem 13 19 (at ignore_int) (set_exceptions at t) v))
            (AllBelow-at 19 (HasGate (set_exceptions at t)) exceptions-HasGate v (omega arith))
    ]
  ]

  -- After init_idt, whatever the table held before and wherever in the 32-bit address space the
  -- handlers are, each of the 256 gates is present, names the kernel's code segment, has the type
  -- and the privilege that `expected` gives for it, and leads to the handler given there.
  pub init_idt-IsGate : (v : ℕ) → v < 256 → HasGate (init_idt at t) v
  unfolding init_idt set_intr_gate set_system_gate
  init_idt-IsGate v h = elim (ℕ_discrete v 128) [
    | yes e ↦
        subst (HasGate (init_idt at t)) (sym e)
          (system-IsGate _ (at syscall_handler) (small syscall_handler))
    | no n128 ↦ elim (ℕ_discrete v 40) [
      | yes e ↦
          subst (HasGate (init_idt at t)) (sym e)
            (interrupt-IsGate _ (at rtc_handler) (small rtc_handler))
      | no n40 ↦ elim (ℕ_discrete v 33) [
        | yes e ↦
            subst (HasGate (init_idt at t)) (sym e)
              (interrupt-IsGate _ (at keyboard_handler) (small keyboard_handler))
        | no n33 ↦ other_gates v h n33 n40 n128
      ]
    ]
  ]
