-- ===== src/Boot/Descriptors.antt =====
-- The segment descriptors of student-distrib/x86_desc.h, and those that kernel.c puts into the
-- global descriptor table.
use mp.Base.{ℕ, ◌+◌, ◌*◌, ◌/◌, ◌^◌, bit_and}

-- seg_desc_t, by its fields.
pub record SegDesc : Type 0 where
  pub seg_lim_15_00 : ℕ
  pub base_15_00 : ℕ
  pub base_23_16 : ℕ
  pub type : ℕ
  pub sys : ℕ
  pub dpl : ℕ
  pub present : ℕ
  pub seg_lim_19_16 : ℕ
  pub avail : ℕ
  pub reserved : ℕ
  pub opsize : ℕ
  pub granularity : ℕ
  pub base_31_24 : ℕ

-- SET_LDT_PARAMS
unfoldable pub set_ldt_params : SegDesc → ℕ → ℕ → SegDesc
set_ldt_params d addr lim = record d {
  base_31_24 = bit_and addr 0xff00_0000 / 2 ^ 24;
  base_23_16 = bit_and addr 0x00ff_0000 / 2 ^ 16;
  base_15_00 = bit_and addr 0xffff;
  seg_lim_19_16 = bit_and lim 0x000f_0000 / 2 ^ 16;
  seg_lim_15_00 = bit_and lim 0xffff;
}

-- SET_TSS_PARAMS
unfoldable pub set_tss_params : SegDesc → ℕ → ℕ → SegDesc
set_tss_params d addr lim = record d {
  base_31_24 = bit_and addr 0xff00_0000 / 2 ^ 24;
  base_23_16 = bit_and addr 0x00ff_0000 / 2 ^ 16;
  base_15_00 = bit_and addr 0xffff;
  seg_lim_19_16 = bit_and lim 0x000f_0000 / 2 ^ 16;
  seg_lim_15_00 = bit_and lim 0xffff;
}

-- The local `the_ldt_desc`; what `d` holds at first is all overwritten.
unfoldable pub ldt_entry : SegDesc → ℕ → ℕ → SegDesc
ldt_entry d ldt ldt_size =
    set_ldt_params
      (record d {
        granularity = 0;
        opsize = 1;
        reserved = 0;
        avail = 0;
        present = 1;
        dpl = 0;
        sys = 0;
        type = 2;
      })
      ldt ldt_size

abbrev tss_bytes : ℕ
tss_bytes = 104

-- The local `the_tss_desc`.
unfoldable pub tss_entry : SegDesc → ℕ → ℕ → SegDesc
tss_entry d tss tss_size =
    set_tss_params
      (record d {
        granularity = 0;
        opsize = 0;
        reserved = 0;
        avail = 0;
        seg_lim_19_16 = bit_and tss_bytes 0x000f_0000;
        present = 1;
        dpl = 0;
        sys = 0;
        type = 9;
        seg_lim_15_00 = bit_and tss_bytes 0xffff;
      })
      tss tss_size

-- What the processor reads of a descriptor: where the segment begins, its last offset, and byte 5.
unfoldable pub base : SegDesc → ℕ
base d = d.base_31_24 * 2 ^ 24 + d.base_23_16 * 2 ^ 16 + d.base_15_00

unfoldable pub limit : SegDesc → ℕ
limit d = d.seg_lim_19_16 * 2 ^ 16 + d.seg_lim_15_00

unfoldable pub access : SegDesc → ℕ
access d = d.type + d.sys * 16 + d.dpl * 32 + d.present * 128
