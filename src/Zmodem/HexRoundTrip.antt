-- ===== src/Zmodem/HexRoundTrip.antt =====
-- The digits of a hex header: `decodeHexHeaderDigits` against `encodeHexHeader`.
use go_serial_cli.Common.{
  ℕ, zero, suc, ◌+◌, ◌*◌, ◌/◌, ◌%◌, ◌^◌, ◌<◌, ◌≡◌, refl, ◌∙◌, Bool, true, false, ◌&&◌, ◌==◌, leb,
  ==_iff, if◌then◌else◌, bit_and, bit_or, Bytes, IsByte, [], ◌∷◌, ◌++◌, map, Option, none, some,
  length, All, arith, Bool-cases, inl, inr,
}
use go_serial_cli.Common.Bits.{all_below, all_below_sound, bit_or_shifted}
use go_serial_cli.Common.Options.{>>=-eq-some}
use go_serial_cli.Zmodem.Crc.{crc16_x_modem, crc16_x_modem-lt}
use go_serial_cli.Zmodem.Header.{Header, IsHeader, raw, z_hex}
use go_serial_cli.Zmodem.Encode.{
  hex_digit, hex_digits_of, big_endian16, z_hex_value, decode_pairs, checked_header16,
  decode_hex_header_digits,
}

abbrev same_value : Option ℕ → ℕ → Bool
same_value none b = false
same_value (some a) b = a == b

same_value-eq : (o : Option ℕ) (b : ℕ) → same_value o b ≡ true → o ≡ some b
same_value-eq none b h = cc
same_value-eq (some a) b h = ground arith

-- The two digits of a byte are read back, and put together again.
pub digit_values :
    (b : ℕ)
    → IsByte b
    → (z_hex_value (bit_and (hex_digit (b / 16)) 0x7f) ≡ some (b / 16))
      × (z_hex_value (bit_and (hex_digit (bit_and b 0x0f)) 0x7f) ≡ some (bit_and b 0x0f))
      × (bit_or (b / 16 * 16 % 256) (bit_and b 0x0f) ≡ b)
unfolding all_below z_hex_value hex_digit
digit_values b h = (
  same_value-eq _ _ (
      all_below_sound 256
        (λ c. same_value (z_hex_value (bit_and (hex_digit (c / 16)) 0x7f)) (c / 16)) b refl h),
  same_value-eq _ _ (
      all_below_sound 256
        (λ c. same_value (z_hex_value (bit_and (hex_digit (bit_and c 0x0f)) 0x7f)) (bit_and c 0x0f))
        b refl h),
  (==_iff _ _).0
      (all_below_sound 256 (λ c. bit_or (c / 16 * 16 % 256) (bit_and c 0x0f) == c) b refl h),
)

pub decode_pairs-hex_digits_of :
    (bs : Bytes) → All IsByte bs → decode_pairs (hex_digits_of bs) ≡ some bs
unfolding decode_pairs hex_digits_of
decode_pairs-hex_digits_of [] h = refl
decode_pairs-hex_digits_of (b ∷ bs) h =
    let (hi, lo, joined) = digit_values b h.0 in
    rw (hi, lo, decode_pairs-hex_digits_of bs h.1, joined)

-- The two bytes of a checksum are put together again.
pub big_endian16_joined :
    (crc : ℕ) → crc < 65536 → bit_or (crc / 256 % 256 * 256 % 65536) (crc % 256) ≡ crc
big_endian16_joined crc h =
    let e : crc / 256 % 256 * 256 % 65536 ≡ crc / 256 * 2 ^ 8 = omega arith in
    rw (e, bit_or_shifted 8 (crc / 256) (crc % 256) (omega arith)) (omega arith)

length-hex_digits_of : (bs : Bytes) → length (hex_digits_of bs) ≡ 2 * length bs
unfolding hex_digits_of
length-hex_digits_of [] = refl
length-hex_digits_of (b ∷ bs) = omega (arith, length-hex_digits_of bs)

abbrev pub hex_payload : Header → Bytes
hex_payload h = hex_digits_of (raw h ++ big_endian16 (crc16_x_modem (raw h)))

pub length-hex_payload : (h : Header) → length (hex_payload h) ≡ 14
length-hex_payload h = length-hex_digits_of (raw h ++ big_endian16 (crc16_x_modem (raw h)))

pub checked_header16_lem :
    (format : ℕ) (h : Header)
    → checked_header16 format (raw h ++ big_endian16 (crc16_x_modem (raw h)))
      ≡ some (record h { format = format })
unfolding checked_header16
checked_header16_lem format h =
    let joined = big_endian16_joined _ (crc16_x_modem-lt (raw h)) in
    rw (joined, (==_iff (crc16_x_modem (raw h)) (crc16_x_modem (raw h))).1 refl)

-- The 14 digits that `encodeHexHeader` writes for a header decode to that header, its format set
-- to ZHEX.
pub decode_hex_header_digits-encode :
    (h : Header)
    → IsHeader h
    → decode_hex_header_digits (hex_payload h) ≡ some (record h { format = z_hex })
unfolding decode_hex_header_digits
decode_hex_header_digits-encode h v =
    let bytes : All IsByte (raw h ++ big_endian16 (crc16_x_modem (raw h))) = omega arith in
    rw (length-hex_payload h, decode_pairs-hex_digits_of _ bytes) (checked_header16_lem z_hex h)

-- A digit as the encoder would write it: the parity bit cleared, in lower case.
abbrev pub canonical_digit : ℕ → ℕ
canonical_digit d = let c = bit_and d 0x7f in if leb b'A' c && leb c b'F' then c + 32 else c

abbrev digit_agrees : Option ℕ → ℕ → Bool
digit_agrees none d = true
digit_agrees (some v) d = hex_digit v == canonical_digit d && leb v 15

digit_agrees-some :
    (o : Option ℕ) (d : ℕ) {v : ℕ}
    → o ≡ some v
    → digit_agrees o d ≡ true
    → (hex_digit v ≡ canonical_digit d) × (v < 16)
digit_agrees-some none d e h = cc
digit_agrees-some (some w) d e h = ground arith

digit_canonical :
    (d v : ℕ)
    → IsByte d
    → z_hex_value (bit_and d 0x7f) ≡ some v
    → (hex_digit v ≡ canonical_digit d) × (v < 16)
unfolding all_below z_hex_value hex_digit
digit_canonical d v h e =
    digit_agrees-some (z_hex_value (bit_and d 0x7f)) d e
      (all_below_sound 256 (λ c. digit_agrees (z_hex_value (bit_and c 0x7f)) c) d refl h)

low_nibble : (b : ℕ) → IsByte b → bit_and b 0x0f ≡ b % 16
unfolding all_below
low_nibble b h = (==_iff _ _).0 (all_below_sound 256 (λ c. bit_and c 0x0f == c % 16) b refl h)

joined_nibbles :
    (hi lo : ℕ)
    → hi < 16
    → lo < 16
    → IsByte (bit_or (hi * 16 % 256) lo)
      × (bit_or (hi * 16 % 256) lo / 16 ≡ hi)
      × (bit_and (bit_or (hi * 16 % 256) lo) 0x0f ≡ lo)
joined_nibbles hi lo p q =
    let e : hi * 16 % 256 ≡ hi * 2 ^ 4 = omega arith in
    let b : bit_or (hi * 16 % 256) lo ≡ hi * 16 + lo =
      rw (e, bit_or_shifted 4 hi lo q) (omega arith) in
    rw b (omega arith, omega arith, low_nibble (hi * 16 + lo) (omega arith) ∙ omega arith)

decode_pairs-canonical :
    (n : ℕ) (ds bs : Bytes)
    → length ds ≡ 2 * n
    → All IsByte ds
    → decode_pairs ds ≡ some bs
    → (map canonical_digit ds ≡ hex_digits_of bs) × All IsByte bs
unfolding decode_pairs hex_digits_of
decode_pairs-canonical n [] [] l h e = (refl, tt)
decode_pairs-canonical n [] (b ∷ bs) l h e = absurd (cc)
decode_pairs-canonical n (d ∷ []) bs l h e = absurd (omega arith)
decode_pairs-canonical zero (d1 ∷ d2 ∷ ds) bs l h e = absurd (omega arith)
decode_pairs-canonical (suc n) (d1 ∷ d2 ∷ ds) bs l h e =
    let (hi, e1, r1) = >>=-eq-some (z_hex_value (bit_and d1 0x7f)) _ e in
    let (lo, e2, r2) = >>=-eq-some (z_hex_value (bit_and d2 0x7f)) _ r1 in
    let (rest, e3, r3) = >>=-eq-some (decode_pairs ds) _ r2 in
    let whole : bit_or (hi * 16 % 256) lo ∷ rest ≡ bs = cc in
    let (same, bytes) = decode_pairs-canonical n ds rest (omega arith) h.1.1 e3 in
    let (c1, l1) = digit_canonical d1 hi h.0 e1 in
    let (c2, l2) = digit_canonical d2 lo h.1.0 e2 in
    let (byte, high, low) = joined_nibbles hi lo l1 l2 in
    rw (← whole) (rw (high, low, c1, c2, same) refl, (byte, bytes))

split_big_endian16 :
    (hi lo crc : ℕ)
    → IsByte hi
    → IsByte lo
    → crc ≡ bit_or (hi * 256 % 65536) lo
    → hi ∷ lo ∷ [] ≡ big_endian16 crc
split_big_endian16 hi lo crc p q e =
    let shifted : hi * 256 % 65536 ≡ hi * 2 ^ 8 = omega arith in
    let sum : crc ≡ hi * 256 + lo = e ∙ rw (shifted, bit_or_shifted 8 hi lo q) (omega arith) in
    let e1 : crc / 256 % 256 ≡ hi = omega arith in
    let e2 : crc % 256 ≡ lo = omega arith in rw (e1, e2)

-- A header passes the test only behind its own checksum.
pub checked_header16_sound :
    (format : ℕ) (bs : Bytes) (h : Header)
    → All IsByte bs
    → checked_header16 format bs ≡ some h
    → IsHeader h × (h.format ≡ format) × (bs ≡ raw h ++ big_endian16 (crc16_x_modem (raw h)))
unfolding checked_header16
checked_header16_sound format (t ∷ a ∷ b ∷ c ∷ d ∷ hi ∷ lo ∷ []) h v e =
    elim (Bool-cases (crc16_x_modem (t ∷ a ∷ b ∷ c ∷ d ∷ []) == bit_or (hi * 256 % 65536) lo)) [
      | inl good ↦
          let bytes =
            split_big_endian16 hi lo _ (omega arith) (omega arith) ((==_iff _ _).0 good) in
          ground (arith, bytes)
      | inr bad ↦ cc (rw bad at e)
    ]
checked_header16_sound format _ h v e = cc

-- Digits are accepted only if they spell a header and its checksum: read without case and parity
-- they are the digits that `encodeHexHeader` writes for the header returned.
pub decode_hex_header_digits_sound :
    (ds : Bytes) (h : Header)
    → All IsByte ds
    → decode_hex_header_digits ds ≡ some h
    → IsHeader h × (h.format ≡ z_hex) × (map canonical_digit ds ≡ hex_payload h)
unfolding decode_hex_header_digits
decode_hex_header_digits_sound ds h v e = elim (Bool-cases (length ds == 14)) [
  | inl long ↦
      let (bs, e1, e2) = >>=-eq-some (decode_pairs ds) (checked_header16 z_hex) (rw long at e) in
      let (same, bytes) = decode_pairs-canonical 7 ds bs ((==_iff (length ds) 14).0 long) v e1 in
      let (valid, format, whole) = checked_header16_sound z_hex bs h bytes e2 in
      (valid, format, same ∙ rw whole refl)
  | inr short ↦ cc (rw short at e)
]
