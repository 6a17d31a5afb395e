-- ===== src/Boot/Segments.antt =====
-- What the processor reads of the two descriptors that kernel.c constructs.
use mp.Base.{
  ℕ, ◌+◌, ◌*◌, ◌/◌, ◌<◌, ◌^◌, ◌≡◌, refl, arith, bit_and, bit_and-byte, bit_and-byte_up,
  bit_and-fifteen, bit_and-half_up, bit_and-half_word,
}
use mp.Boot.Descriptors.{
  SegDesc, base, limit, access, ldt_entry, tss_entry, set_ldt_params, set_tss_params,
}

-- A base of 32 bits, from its pieces of 8, 8 and 16 bits.
base_pieces :
    (a : ℕ)
    → a < 2 ^ 32
    → bit_and a 0xff00_0000 / 2 ^ 24 * 2 ^ 24
        + bit_and a 0x00ff_0000 / 2 ^ 16 * 2 ^ 16
        + bit_and a 0xffff
      ≡ a
base_pieces a h = omega (
  arith,
  bit_and-half_word a,
  bit_and-half_up a 0xff,
  bit_and-byte (a / 65536),
  bit_and-half_up a 0xff00,
  bit_and-byte_up (a / 65536) 0xff,
  bit_and-byte (a / 65536 / 256),
)

limit_pieces : (a : ℕ) → a < 2 ^ 20 → bit_and a 0x000f_0000 / 2 ^ 16 * 2 ^ 16 + bit_and a 0xffff ≡ a
limit_pieces a h =
    omega (arith, bit_and-half_word a, bit_and-half_up a 15, bit_and-fifteen (a / 65536))

module _ (d : SegDesc) (addr lim : ℕ) where
  pub ldt_entry-base : addr < 2 ^ 32 → base (ldt_entry d addr lim) ≡ addr
  unfolding base ldt_entry set_ldt_params
  ldt_entry-base h = base_pieces addr h

  pub ldt_entry-limit : lim < 2 ^ 20 → limit (ldt_entry d addr lim) ≡ lim
  unfolding limit ldt_entry set_ldt_params
  ldt_entry-limit h = limit_pieces lim h

  pub ldt_entry-access : access (ldt_entry d addr lim) ≡ 0x82
  unfolding access ldt_entry set_ldt_params
  ldt_entry-access = refl

  pub tss_entry-base : addr < 2 ^ 32 → base (tss_entry d addr lim) ≡ addr
  unfolding base tss_entry set_tss_params
  tss_entry-base h = base_pieces addr h

  pub tss_entry-limit : lim < 2 ^ 20 → limit (tss_entry d addr lim) ≡ lim
  unfolding limit tss_entry set_tss_params
  tss_entry-limit h = limit_pieces lim h

  pub tss_entry-access : access (tss_entry d addr lim) ≡ 0x89
  unfolding access tss_entry set_tss_params
  tss_entry-access = refl
