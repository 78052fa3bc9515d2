-- ===== src/Crc.antt =====
-- engine/lsmtree/src/util/crc32c.cc: the CRC of the reflected Castagnoli polynomial, bit by bit.
use mizu.Base.{ℕ, zero, suc, ◌-◌, ◌/◌, ◌%◌, [], ◌∷◌, bit_xor, ◌==◌, if◌then◌else◌, arith}
use mizu.Base.Order.{Bytes}
use mizu.Coding.{IsU32}

abbrev pub polynomial : ℕ
polynomial = 0x82f63b78

-- `rounds` rounds of `for (bit = 0; bit < 8; ++bit)`; `crc & 1` is `crc % 2` and `crc >> 1` halves.
unfoldable pub crc_bits : ℕ → ℕ → ℕ
crc_bits zero crc = crc
crc_bits (suc rounds) crc =
    crc_bits rounds (if crc % 2 == 1 then bit_xor (crc / 2) polynomial else crc / 2)

unfoldable pub crc_bytes : Bytes → ℕ → ℕ
unfolding crc_bits
crc_bytes [] crc = crc
crc_bytes (character ∷ input) crc = crc_bytes input (crc_bits 8 (bit_xor crc character))

-- `~crc` of a 32-bit word.
unfoldable pub crc32c : Bytes → ℕ
unfolding crc_bytes
crc32c input = 0xffffffff - crc_bytes input 0xffffffff

pub crc32c-IsU32 : (input : Bytes) → IsU32 (crc32c input)
unfolding crc32c
crc32c-IsU32 input = omega arith
