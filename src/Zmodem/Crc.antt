-- ===== src/Zmodem/Crc.antt =====
-- The checksums of zmodem_proto.go: CRC-16/XMODEM as the code computes it bit by bit, and the
-- CRC-32 of Go's hash/crc32 with the IEEE polynomial, which the code calls.
use go_serial_cli.Common.{
  ℕ, zero, suc, ◌-◌, ◌*◌, ◌/◌, ◌%◌, ◌^◌, ◌<◌, ◌≡◌, refl, bit_and, bit_xor, Bytes, [], ◌∷◌, ◌==◌,
  if◌then◌else◌, arith,
}
use go_serial_cli.Common.Bits.{bit_xor-lt}
use mathlib.Core.List.{foldl}

-- `crc <<= 1`, with the polynomial where the top bit falls out, on a uint16
unfoldable pub crc16_round : ℕ → ℕ
crc16_round crc =
    if bit_and crc 0x8000 == 0 then crc * 2 % 65536 else bit_xor (crc * 2 % 65536) 0x1021

unfoldable pub crc16_rounds : ℕ → ℕ → ℕ
unfolding crc16_round
crc16_rounds zero crc = crc
crc16_rounds (suc i) crc = crc16_rounds i (crc16_round crc)

unfoldable pub crc16_update : ℕ → ℕ → ℕ
unfolding crc16_rounds
crc16_update crc b = crc16_rounds 8 (bit_xor crc (b * 256 % 65536))

unfoldable pub crc16_x_modem : Bytes → ℕ
unfolding crc16_update
crc16_x_modem data_bytes = foldl crc16_update 0 data_bytes

crc16_round-lt : (crc : ℕ) → crc16_round crc < 65536
unfolding crc16_round
crc16_round-lt crc =
    ground (arith, bit_xor-lt 16 (crc * 2 % 65536) 0x1021 (omega arith) (omega arith))

crc16_rounds-lt : (i crc : ℕ) → crc < 65536 → crc16_rounds i crc < 65536
unfolding crc16_rounds
crc16_rounds-lt zero crc h = h
crc16_rounds-lt (suc i) crc h = crc16_rounds-lt i (crc16_round crc) (crc16_round-lt crc)

-- A uint16 stays a uint16: no bit leaves the word unnoticed.
pub crc16_update-lt : (crc b : ℕ) → crc < 65536 → crc16_update crc b < 65536
unfolding crc16_update
crc16_update-lt crc b h = crc16_rounds-lt 8 _ (bit_xor-lt 16 crc (b * 256 % 65536) h (omega arith))

crc16_fold-lt : (bs : Bytes) (crc : ℕ) → crc < 65536 → foldl crc16_update crc bs < 65536
crc16_fold-lt [] crc h = h
crc16_fold-lt (b ∷ bs) crc h = crc16_fold-lt bs (crc16_update crc b) (crc16_update-lt crc b h)

pub crc16_x_modem-lt : (bs : Bytes) → crc16_x_modem bs < 65536
unfolding crc16_x_modem
crc16_x_modem-lt bs = crc16_fold-lt bs 0 (omega arith)

-- hash/crc32: the reflected polynomial 0xedb88320, with the register inverted at both ends.
crc32_round : ℕ → ℕ
crc32_round crc = if bit_and crc 1 == 0 then crc / 2 else bit_xor (crc / 2) 0xedb88320

crc32_rounds : ℕ → ℕ → ℕ
unfolding crc32_round
crc32_rounds zero crc = crc
crc32_rounds (suc i) crc = crc32_rounds i (crc32_round crc)

crc32_byte : ℕ → ℕ → ℕ
unfolding crc32_rounds
crc32_byte crc b = crc32_rounds 8 (bit_xor crc b)

unfoldable pub crc32_update : ℕ → Bytes → ℕ
unfolding crc32_byte
crc32_update crc bs = 0xffffffff - foldl crc32_byte (0xffffffff - crc) bs

unfoldable pub checksum_ieee : Bytes → ℕ
unfolding crc32_update
checksum_ieee bs = crc32_update 0 bs

pub crc32_update-lt : (crc : ℕ) (bs : Bytes) → crc32_update crc bs < 2 ^ 32
unfolding crc32_update
crc32_update-lt crc bs = omega arith

pub checksum_ieee-lt : (bs : Bytes) → checksum_ieee bs < 2 ^ 32
unfolding checksum_ieee
checksum_ieee-lt bs = crc32_update-lt 0 bs

-- The published check values of the two checksums.
crc16_check :
    crc16_x_modem (0x31 ∷ 0x32 ∷ 0x33 ∷ 0x34 ∷ 0x35 ∷ 0x36 ∷ 0x37 ∷ 0x38 ∷ 0x39 ∷ []) ≡ 0x31c3
unfolding crc16_x_modem
crc16_check = refl

crc32_check :
    checksum_ieee (0x31 ∷ 0x32 ∷ 0x33 ∷ 0x34 ∷ 0x35 ∷ 0x36 ∷ 0x37 ∷ 0x38 ∷ 0x39 ∷ []) ≡ 0xcbf43926
unfolding checksum_ieee
crc32_check = refl
