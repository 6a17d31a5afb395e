-- ===== src/Idt/Tests.antt =====
-- Runs of the definitions of Idt, and the theorems applied to concrete inputs.
use mp.Base.{ℕ, ◌<◌, ◌^◌, arith}
use mp.Idt.{Table, Handler, init_idt}
use mp.Idt.Gates.{IsGate, expected, init_idt-IsGate}

-- A table of zeros.
abbrev zeros : Table
zeros _ = record {
  offset_15_00 = 0;
  seg_selector = 0;
  reserved4 = 0;
  reserved3 = 0;
  reserved2 = 0;
  reserved1 = 0;
  size = 0;
  reserved0 = 0;
  dpl = 0;
  present = 0;
  offset_31_16 = 0;
}

abbrev addresses : Handler → ℕ
addresses _ = 0x0040_1000

small : (h : Handler) → addresses h < 2 ^ 32
small h = omega arith

init_idt-IsGate_example :
    IsGate (expected 128).0 (addresses (expected 128).1) (init_idt addresses zeros 128)
init_idt-IsGate_example = init_idt-IsGate addresses small zeros 128 (omega arith)
