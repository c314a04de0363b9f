-- ===== src/Zmodem/EscapeRoundTrip.antt =====
-- Escaping and unescaping: `zUnescapeN` reads back what `zEscaper.putAll` wrote.
use go_serial_cli.Common.{
  ℕ, suc, ◌+◌, ◌≡◌, refl, ap, ◌∙◌, Bool, true, false, ◌&&◌, ◌==◌, if◌then◌else◌, bit_xor, Bytes,
  IsByte, [], ◌∷◌, ◌++◌, Option, none, some, length, length-append, append-nil, append_assoc, All,
  arith, Bool-cases, inl, inr,
}
use go_serial_cli.Common.Bits.{all_below, all_below_sound}
use go_serial_cli.Zmodem.Header.{z_dle}
use go_serial_cli.Zmodem.Escape.{Escaper, needs_when, needs, after_at, escaped_byte, escaped}
use go_serial_cli.Zmodem.Unescape.{
  PlainByte, plain_byte, EscapedByte, escaped_byte_kind, escape_value, finish_escape, is_xon_xoff,
  found, unescape_from, unescape_behind, unescape_n,
}

abbrev is_value : PlainByte → Bool
is_value PlainByte.value = true
is_value _ = false

abbrev is_last : EscapedByte → Bool
is_last EscapedByte.last = true
is_last _ = false

abbrev gives : Option ℕ → ℕ → Bool
gives none b = false
gives (some a) b = a == b

-- A byte sent plain is a value, and a byte sent escaped is the value behind the ZDLE.
byte_ok : Bool → Bool → Bool → ℕ → Bool
byte_ok ctl at ctl_ignore b =
    if needs_when ctl at b
    then is_last (escaped_byte_kind ctl_ignore (bit_xor b 0x40))
      && gives (escape_value (bit_xor b 0x40)) b
    else is_value (plain_byte ctl_ignore b)

-- A receiver drops control bytes only if the sender was asked to escape them.
abbrev pub Compatible : Bool → Bool → Type 0
Compatible ctl_ignore ctl = ctl_ignore ≡ true → ctl ≡ true

byte_ok_lem :
    (ctl at ctl_ignore : Bool) (b : ℕ)
    → Compatible ctl_ignore ctl
    → IsByte b
    → byte_ok ctl at ctl_ignore b ≡ true
unfolding all_below byte_ok needs_when escaped_byte_kind escape_value plain_byte is_xon_xoff
byte_ok_lem true true true b k h = all_below_sound 256 (byte_ok true true true) b refl h
byte_ok_lem true true false b k h = all_below_sound 256 (byte_ok true true false) b refl h
byte_ok_lem true false true b k h = all_below_sound 256 (byte_ok true false true) b refl h
byte_ok_lem true false false b k h = all_below_sound 256 (byte_ok true false false) b refl h
byte_ok_lem false true true b k h = absurd (cc (k refl))
byte_ok_lem false true false b k h = all_below_sound 256 (byte_ok false true false) b refl h
byte_ok_lem false false true b k h = absurd (cc (k refl))
byte_ok_lem false false false b k h = all_below_sound 256 (byte_ok false false false) b refl h

pub dle_escapes : (ctl_ignore : Bool) → plain_byte ctl_ignore z_dle ≡ PlainByte.escape
unfolding plain_byte
dle_escapes ctl_ignore = refl

-- One round of each loop, by the kind of the byte.
module _ (ctl_ignore : Bool) (n : ℕ) (vals : Bytes) (i c : ℕ) (rest : Bytes) where
  unescape_from-value :
      plain_byte ctl_ignore c ≡ PlainByte.value
      → unescape_from ctl_ignore (suc n) vals i (c ∷ rest)
        ≡ unescape_from ctl_ignore n (vals ++ (c ∷ [])) (i + 1) rest
  unfolding unescape_from
  unescape_from-value h = rw (h, unescape_from)

  unescape_from-escape :
      plain_byte ctl_ignore c ≡ PlainByte.escape
      → unescape_from ctl_ignore (suc n) vals i (c ∷ rest)
        ≡ unescape_behind ctl_ignore n vals 1 (i + 1) rest
  unfolding unescape_from
  unescape_from-escape h = rw (h, unescape_from)

  unescape_behind-last :
      {v : ℕ}
      → escaped_byte_kind ctl_ignore c ≡ EscapedByte.last
      → escape_value c ≡ some v
      → unescape_behind ctl_ignore n vals 1 i (c ∷ rest)
        ≡ unescape_from ctl_ignore n (vals ++ (v ∷ [])) (i + 1) rest
  unfolding unescape_behind finish_escape
  unescape_behind-last h k = rw (h, k, unescape_behind)

module _ (ctl_ignore : Bool) (e : Escaper) (b : ℕ) (compatible : Compatible ctl_ignore e.ctl)
    (byte : IsByte b) where
  pub plain_value : needs e b ≡ false → plain_byte ctl_ignore b ≡ PlainByte.value
  unfolding byte_ok needs
  plain_value s = ground (arith, byte_ok_lem e.ctl (after_at e) ctl_ignore b compatible byte)

  escaped_last :
      needs e b ≡ true
      → (escaped_byte_kind ctl_ignore (bit_xor b 0x40) ≡ EscapedByte.last)
        × (escape_value (bit_xor b 0x40) ≡ some b)
  unfolding byte_ok needs
  escaped_last s = ground (arith, byte_ok_lem e.ctl (after_at e) ctl_ignore b compatible byte)

  -- One byte that `put` sends is one value that `zUnescapeN` reads.
  unescape_from_byte :
      (n : ℕ) (vals : Bytes) (i : ℕ) (rest : Bytes)
      → unescape_from ctl_ignore (suc n) vals i (escaped_byte e b ++ rest)
        ≡ unescape_from ctl_ignore n (vals ++ (b ∷ [])) (i + length (escaped_byte e b)) rest
  unescape_from_byte n vals i rest = elim (Bool-cases (needs e b)) [
    | inl s ↦
        let (kind, value) = escaped_last s in
        rw s (
          unescape_from-escape ctl_ignore n vals i z_dle _ (dle_escapes ctl_ignore)
          ∙ unescape_behind-last ctl_ignore n vals (i + 1) (bit_xor b 0x40) rest kind value
          ∙ ap (λ (k : ℕ). unescape_from ctl_ignore n (vals ++ (b ∷ [])) k rest) (omega arith))
    | inr s ↦ rw s (unescape_from-value ctl_ignore n vals i b rest (plain_value s))
  ]

-- However many values are wanted, what `putAll` wrote is read back and nothing behind it is read.
unescape_from-escaped :
    (ctl_ignore : Bool) (e : Escaper) (bs vals : Bytes) (i : ℕ) (rest : Bytes)
    → Compatible ctl_ignore e.ctl
    → All IsByte bs
    → unescape_from ctl_ignore (length bs) vals i (escaped e bs ++ rest)
      ≡ record { vals = vals ++ bs; used = i + length (escaped e bs); status = found }
unfolding escaped unescape_from
unescape_from-escaped ctl_ignore e [] vals i rest k h = ground (arith, append-nil vals)
unescape_from-escaped ctl_ignore e (b ∷ bs) vals i rest k h =
    let e' : Escaper = record e { last = b } in
    let first = escaped_byte e b in
    rw (append_assoc first (escaped e' bs) rest) (
      unescape_from_byte ctl_ignore e b k h.0 (length bs) vals i (escaped e' bs ++ rest)
      ∙ unescape_from-escaped ctl_ignore e' bs (vals ++ (b ∷ [])) (i + length first) rest k h.1
      ∙ ground (arith, append_assoc vals (b ∷ []) bs, length-append first (escaped e' bs)))

-- `zUnescapeN` asked for as many values as `putAll` was given returns them, and uses exactly the
-- bytes that `putAll` wrote, whatever follows.
pub unescape_n-escaped :
    (ctl_ignore : Bool) (e : Escaper) (bs rest : Bytes)
    → Compatible ctl_ignore e.ctl
    → All IsByte bs
    → unescape_n (escaped e bs ++ rest) (length bs) ctl_ignore
      ≡ record { vals = bs; used = length (escaped e bs); status = found }
unfolding unescape_n
unescape_n-escaped ctl_ignore e bs rest k h =
    unescape_from-escaped ctl_ignore e bs [] 0 rest k h ∙ ground arith
