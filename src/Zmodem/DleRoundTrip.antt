-- ===== src/Zmodem/DleRoundTrip.antt =====
-- `zdlread` reads what the escaper wrote for one byte, and the frame ends.
use go_serial_cli.Common.{
  ℕ, suc, ◌+◌, ◌≡◌, refl, ◌∙◌, Bool, true, false, ◌==◌, if◌then◌else◌, bit_xor, Bytes, IsByte, ◌∷◌,
  ◌++◌, none, arith, Bool-cases, inl, inr, ◌⊎◌,
}
use go_serial_cli.Common.Bits.{all_below, all_below_sound}
use go_serial_cli.Zmodem.Header.{z_dle, z_crce, z_crcg, z_crcq, z_crcw}
use go_serial_cli.Zmodem.Escape.{Escaper, needs, needs_when, after_at, escaped_byte}
use go_serial_cli.Zmodem.Unescape.{PlainByte, plain_byte, is_xon_xoff}
use go_serial_cli.Zmodem.EscapeRoundTrip.{Compatible, plain_value, dle_escapes}
use go_serial_cli.Zmodem.Link.{
  ok, Link, read_byte, DleByte, again, invalid, result, dle_byte, zdlread_behind, zdlread_from,
  zdlread,
}
use go_serial_cli.Zmodem.LinkRead.{stream, Delivers, Delivers-trans, read_byte-Delivers}

abbrev is_result : DleByte → ℕ → Bool
is_result (result v) b = v == b
is_result _ b = false

is_result-eq : (d : DleByte) (b : ℕ) → is_result d b ≡ true → d ≡ result b
is_result-eq (result v) b h = ground arith
is_result-eq (again n) b h = cc
is_result-eq DleByte.cancelled b h = cc
is_result-eq invalid b h = cc

dle_ok : Bool → Bool → Bool → ℕ → Bool
dle_ok ctl at ctl_ignore b =
    if needs_when ctl at b then is_result (dle_byte ctl_ignore 1 (bit_xor b 0x40)) b else true

dle_ok_lem : (ctl at ctl_ignore : Bool) (b : ℕ) → IsByte b → dle_ok ctl at ctl_ignore b ≡ true
unfolding all_below dle_ok needs_when dle_byte is_xon_xoff
dle_ok_lem true true true b h = all_below_sound 256 (dle_ok true true true) b refl h
dle_ok_lem true true false b h = all_below_sound 256 (dle_ok true true false) b refl h
dle_ok_lem true false true b h = all_below_sound 256 (dle_ok true false true) b refl h
dle_ok_lem true false false b h = all_below_sound 256 (dle_ok true false false) b refl h
dle_ok_lem false true true b h = all_below_sound 256 (dle_ok false true true) b refl h
dle_ok_lem false true false b h = all_below_sound 256 (dle_ok false true false) b refl h
dle_ok_lem false false true b h = all_below_sound 256 (dle_ok false false true) b refl h
dle_ok_lem false false false b h = all_below_sound 256 (dle_ok false false false) b refl h

escaped_result :
    (ctl_ignore : Bool) (e : Escaper) (b : ℕ)
    → IsByte b
    → needs e b ≡ true
    → dle_byte ctl_ignore 1 (bit_xor b 0x40) ≡ result b
unfolding dle_ok needs
escaped_result ctl_ignore e b h s =
    is_result-eq _ b (ground (arith, dle_ok_lem e.ctl (after_at e) ctl_ignore b h))

-- One round of each loop of `zdlread`.
module _ (fuel : ℕ) (l : Link) (c : ℕ) (l' : Link) (read : read_byte l ≡ (ok c, l')) where
  zdlread_from-value :
      plain_byte l'.ctl_ignore c ≡ PlainByte.value → zdlread_from (suc fuel) l ≡ (ok c, l')
  unfolding zdlread_from
  zdlread_from-value h = ground arith

  zdlread_from-escape :
      plain_byte l'.ctl_ignore c ≡ PlainByte.escape
      → zdlread_from (suc fuel) l ≡ zdlread_behind fuel 1 l'
  unfolding zdlread_from
  zdlread_from-escape h = ground arith

  zdlread_behind-result :
      {v : ℕ} → dle_byte l'.ctl_ignore 1 c ≡ result v → zdlread_behind (suc fuel) 1 l ≡ (ok v, l')
  unfolding zdlread_behind
  zdlread_behind-result h = ground arith

-- `zdlread` at a ZDLE and the byte behind it.
pub zdlread-dle :
    (l : Link) (c v : ℕ) (s : Bytes)
    → l.rx_err ≡ none
    → dle_byte l.ctl_ignore 1 c ≡ result v
    → stream l ≡ z_dle ∷ c ∷ s
    → (l' : Link) × (zdlread l ≡ (ok v, l')) × Delivers l s l'
unfolding zdlread
zdlread-dle l c v s q h st =
    let (l1, r1, d1) = read_byte-Delivers l z_dle (c ∷ s) q st in
    let (l2, r2, d2) = read_byte-Delivers l1 c s d1.no_error d1.rest in
    (
      l2,
      zdlread_from-escape _ l z_dle l1 r1 (dle_escapes l1.ctl_ignore)
          ∙ zdlread_behind-result _ l1 c l2 r2 (rw (d2.same_ctl, d1.same_ctl) h),
      Delivers-trans l l1 l2 _ s d1 d2,
    )

zdlread-plain :
    (l : Link) (b : ℕ) (s : Bytes)
    → l.rx_err ≡ none
    → plain_byte l.ctl_ignore b ≡ PlainByte.value
    → stream l ≡ b ∷ s
    → (l' : Link) × (zdlread l ≡ (ok b, l')) × Delivers l s l'
unfolding zdlread
zdlread-plain l b s q h st =
    let (l1, r1, d1) = read_byte-Delivers l b s q st in
    (l1, zdlread_from-value _ l b l1 r1 (rw d1.same_ctl h), d1)

-- An escaped byte at the front of the stream is read as its value.
pub zdlread-escaped_byte :
    (l : Link) (e : Escaper) (b : ℕ) (s : Bytes)
    → IsByte b
    → l.rx_err ≡ none
    → Compatible l.ctl_ignore e.ctl
    → stream l ≡ escaped_byte e b ++ s
    → (l' : Link) × (zdlread l ≡ (ok b, l')) × Delivers l s l'
zdlread-escaped_byte l e b s h q k st = elim (Bool-cases (needs e b)) [
  | inl t ↦ zdlread-dle l (bit_xor b 0x40) b s q (escaped_result l.ctl_ignore e b h t) (rw t at st)
  | inr f ↦ zdlread-plain l b s q (plain_value l.ctl_ignore e b k h f) (rw f at st)
]

abbrev pub IsFrameEnd : ℕ → Type 0
IsFrameEnd c = (c ≡ z_crce) ⊎ (c ≡ z_crcg) ⊎ (c ≡ z_crcq) ⊎ (c ≡ z_crcw)

pub frame_end_result :
    (ctl_ignore : Bool) (c : ℕ) → IsFrameEnd c → dle_byte ctl_ignore 1 c ≡ result (0x100 + c)
unfolding dle_byte is_xon_xoff
frame_end_result ctl_ignore c h = ground arith
