-- ===== src/Memory.antt =====
-- Byte-addressed memory and the block operations of student-distrib/lib.c. A `Mem` gives the byte
-- at each address; pointers are addresses, and no block is taken to wrap round the address space.
pub mod Copy
pub mod Fill
pub mod Text
mod Tests
use mp.Base.{
  ℕ, zero, suc, ◌+◌, ◌-◌, ◌*◌, ◌/◌, ◌%◌, ◌^◌, bit_and, bit_or, Bool, true, false, ltb, leb, ◌==◌,
  if◌then◌else◌,
}

abbrev pub Mem : Type 0
Mem = ℕ → ℕ

abbrev pub store : Mem → ℕ → ℕ → Mem
store m a v b = if b == a then v else m b

-- The little-endian `uint32_t` at an address.
abbrev pub load32 : Mem → ℕ → ℕ
load32 m a = m a + m (a + 1) * 2 ^ 8 + m (a + 2) * 2 ^ 16 + m (a + 3) * 2 ^ 24

-- `movsl` moves four bytes; all are read before one is written.
abbrev move_word : Mem → ℕ → ℕ → Mem
move_word m s d =
    store (store (store (store m d (m s)) (d + 1) (m (s + 1))) (d + 2) (m (s + 2))) (d + 3)
      (m (s + 3))

-- `rep movsl` with `n` in %ecx, from `s` in %esi to `d` in %edi.
unfoldable pub copy_words : ℕ → Mem → ℕ → ℕ → Mem
copy_words zero m s d = m
copy_words (suc n) m s d = copy_words n (move_word m s d) (s + 4) (d + 4)

-- The loop at .memcpy_bottom, and `rep movsb` going up.
unfoldable pub copy_bytes : ℕ → Mem → ℕ → ℕ → Mem
copy_bytes zero m s d = m
copy_bytes (suc n) m s d = copy_bytes n (store m d (m s)) (s + 1) (d + 1)

-- From .memcpy_aligned on: whole words, then what is left over.
unfoldable pub copy_aligned : ℕ → Mem → ℕ → ℕ → Mem
copy_aligned n m s d = copy_bytes (n % 4) (copy_words (n / 4) m s d) (s + n / 4 * 4) (d + n / 4 * 4)

-- The loop at .memcpy_top: single bytes up to an aligned destination.
unfoldable pub copy_top : ℕ → Mem → ℕ → ℕ → Mem
copy_top zero m s d = m
copy_top (suc n) m s d = elim (d % 4 == 0) [
  | true ↦ copy_aligned (suc n) m s d
  | false ↦ copy_top n (store m d (m s)) (s + 1) (d + 1)
]

unfoldable pub memcpy : Mem → ℕ → ℕ → ℕ → Mem
memcpy m dest src n = copy_top n m src dest

-- `rep movsb` going down, with the direction flag set: the last byte first.
pub copy_down : ℕ → Mem → ℕ → ℕ → Mem
copy_down zero m s d = m
copy_down (suc n) m s d = copy_down n (store m (d + n) (m (s + n))) s d

unfoldable pub memmove : Mem → ℕ → ℕ → ℕ → Mem
memmove m dest src n = if leb dest src then copy_bytes n m src dest else copy_down n m src dest

-- What a copy of `n` bytes means, whatever the overlap: the old bytes of the source.
unfoldable pub copied : Mem → ℕ → ℕ → ℕ → Mem
copied m dest src n b =
    if leb dest b then (if ltb b (dest + n) then m (src + (b - dest)) else m b) else m b

-- `stosb`, `stosw` and `stosl` store the low one, two or four bytes of %eax.
abbrev pub byte_of : ℕ → ℕ → ℕ
byte_of eax k = eax / 2 ^ (8 * k) % 2 ^ 8

-- `rep stosl` with `n` in %ecx.
pub fill_words : ℕ → Mem → ℕ → ℕ → Mem
fill_words zero m d eax = m
fill_words (suc n) m d eax =
    fill_words n
      (store
        (store (store (store m d (byte_of eax 0)) (d + 1) (byte_of eax 1)) (d + 2) (byte_of eax 2))
        (d + 3) (byte_of eax 3))
      (d + 4) eax

-- `rep stosw`.
pub fill_halves : ℕ → Mem → ℕ → ℕ → Mem
fill_halves zero m d eax = m
fill_halves (suc n) m d eax =
    fill_halves n (store (store m d (byte_of eax 0)) (d + 1) (byte_of eax 1)) (d + 2) eax

-- The loop at .memset_bottom.
pub fill_bytes : ℕ → Mem → ℕ → ℕ → Mem
fill_bytes zero m d eax = m
fill_bytes (suc n) m d eax = fill_bytes n (store m d (byte_of eax 0)) (d + 1) eax

-- From .memset_aligned on.
pub fill_aligned : ℕ → Mem → ℕ → ℕ → Mem
fill_aligned n m d eax = fill_bytes (n % 4) (fill_words (n / 4) m d eax) (d + n / 4 * 4) eax

-- The loop at .memset_top.
pub fill_top : ℕ → Mem → ℕ → ℕ → Mem
fill_top zero m d eax = m
fill_top (suc n) m d eax = elim (d % 4 == 0) [
  | true ↦ fill_aligned (suc n) m d eax
  | false ↦ fill_top n (store m d (byte_of eax 0)) (d + 1) eax
]

-- `c << 24 | c << 16 | c << 8 | c`
pub repeat_byte : ℕ → ℕ
repeat_byte c = bit_or (bit_or (bit_or (c * 2 ^ 24) (c * 2 ^ 16)) (c * 2 ^ 8)) c

unfoldable pub memset : Mem → ℕ → ℕ → ℕ → Mem
memset m s c n = fill_top n m s (repeat_byte (bit_and c 0xff))

unfoldable pub memset_word : Mem → ℕ → ℕ → ℕ → Mem
memset_word m s c n = fill_halves n m s c

unfoldable pub memset_dword : Mem → ℕ → ℕ → ℕ → Mem
memset_dword m s c n = fill_words n m s c

-- `n` bytes from `dest` on are those of the pattern `eax`, read round and round with period `w`.
unfoldable pub filled : Mem → ℕ → ℕ → ℕ → ℕ → Mem
filled m dest w eax n b =
    if leb dest b then (if ltb b (dest + n) then byte_of eax ((b - dest) % w) else m b) else m b
