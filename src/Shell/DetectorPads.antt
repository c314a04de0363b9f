-- ===== src/Shell/DetectorPads.antt =====
-- What zDetector of zmodem_shell.go judges to stand at a ZPAD, whatever follows.
use go_serial_cli.Common.{
  ℕ, zero, suc, ◌+◌, ◌-◌, ◌*◌, ◌%◌, bit_or, ◌≤◌, ◌<◌, ◌≡◌, refl, sym, ap, ◌∙◌, Bool, true, false,
  ◌&&◌, ◌==◌, ltb, if◌then◌else◌, Bytes, [], ◌∷◌, ◌++◌, Option, none, some, length, take, All,
  bit_and, Bool-cases, Option-cases, inl, inr, arith, length-append, take-append_front,
  take-append_behind, ◌⊎◌,
}
use go_serial_cli.Common.Options.{◌>>=◌}
use go_serial_cli.Zmodem.Header.{z_pad, z_dle, z_hex}
use go_serial_cli.Zmodem.Encode.{z_hex_value, decode_pairs, decode_hex_header_digits}
use go_serial_cli.Shell.Detector.{
  Verdict, held, passed, found, is_z_hex_digit, all_hex_digits, z_could_be_hex_header,
  starts_transfer, whole_header, judge, judge_behind_pad,
}

-- No digit with its eighth bit set, which the decoder takes for a digit and the detector's test of a
-- part of a header does not.
abbrev pub IsPlain : ℕ → Type 0
IsPlain c = z_hex_value c ≡ none → z_hex_value (bit_and c 0x7f) ≡ none

masked_none : (c : ℕ) → IsPlain c → is_z_hex_digit c ≡ false → z_hex_value (bit_and c 0x7f) ≡ none
unfolding is_z_hex_digit
masked_none c p h = elim (Option-cases (z_hex_value c)) [
  | inl e ↦ p e
  | inr (v, e) ↦ let h' = rw (is_z_hex_digit, e) at h in absurd cc
]

first_false : (b : Bool) → (b && true) ≡ false → b ≡ false
first_false true h = h
first_false false h = refl

rest_false : (a b c : Bool) → a ≡ true → b ≡ true → (a && (b && c)) ≡ false → c ≡ false
rest_false true true c t u h = h
rest_false true false c t u h = absurd cc
rest_false false b c t u h = absurd cc

step_none :
    (hi lo : Option ℕ) (rest : Option Bytes) (f : ℕ → ℕ → Bytes → Bytes)
    → (hi ≡ none) ⊎ ((lo ≡ none) ⊎ (rest ≡ none))
    → (hi >>= (λ a. lo >>= (λ b. rest >>= (λ r. some (f a b r))))) ≡ none
step_none none lo rest f c = refl
step_none (some a) none rest f c = refl
step_none (some a) (some b) none f c = refl
step_none (some a) (some b) (some r) f (inl e) = absurd cc
step_none (some a) (some b) (some r) f (inr (inl e)) = absurd cc
step_none (some a) (some b) (some r) f (inr (inr e)) = absurd cc

decode_pairs_step :
    (x y : ℕ) (rest : Bytes)
    → (z_hex_value (bit_and x 0x7f) ≡ none)
      ⊎ ((z_hex_value (bit_and y 0x7f) ≡ none) ⊎ (decode_pairs rest ≡ none))
    → decode_pairs (x ∷ y ∷ rest) ≡ none
unfolding decode_pairs
decode_pairs_step x y rest c =
    step_none (z_hex_value (bit_and x 0x7f)) (z_hex_value (bit_and y 0x7f)) (decode_pairs rest)
      (λ a b r. bit_or (a * 16 % 256) b ∷ r) c

-- A digit that is none makes the header none.
decode_pairs-none :
    (l more : Bytes) (k : ℕ)
    → All IsPlain l
    → all_hex_digits l ≡ false
    → length (l ++ more) ≡ k * 2
    → decode_pairs (l ++ more) ≡ none
unfolding all_hex_digits
decode_pairs-none [] more k a h e = absurd cc
decode_pairs-none (x ∷ []) [] k a h e = absurd (omega (arith, e))
decode_pairs-none (x ∷ []) (y ∷ more) k (p, a) h e =
    decode_pairs_step x y more (inl (masked_none x p (first_false (is_z_hex_digit x) h)))
decode_pairs-none (x ∷ y ∷ l) more zero a h e = absurd (omega (arith, e))
decode_pairs-none (x ∷ y ∷ l) more (suc k) (p, (q, a)) h e = elim (Bool-cases (is_z_hex_digit x)) [
  | inr f ↦ decode_pairs_step x y (l ++ more) (inl (masked_none x p f))
  | inl t ↦ elim (Bool-cases (is_z_hex_digit y)) [
    | inr f ↦ decode_pairs_step x y (l ++ more) (inr (inl (masked_none y q f)))
    | inl u ↦ decode_pairs_step x y (l ++ more) (
        inr (
          inr (
            decode_pairs-none l more k a (rest_false (is_z_hex_digit x) (is_z_hex_digit y) _ t u h)
              (omega (arith, e)))))
  ]
]

whole_header-append :
    (rest more : Bytes) → 16 ≤ length rest → whole_header (rest ++ more) ≡ whole_header rest
unfolding whole_header
whole_header-append [] more h = absurd (omega (arith, h))
whole_header-append (a ∷ []) more h = absurd (omega (arith, h))
whole_header-append (a ∷ b ∷ ds) more h =
    ap
      (λ d.
        if a == z_dle && b == z_hex then starts_transfer (decode_hex_header_digits d) else passed)
      (take-append_front 14 ds more (omega (arith, h)))

decoded_none :
    (ds more : Bytes)
    → All IsPlain ds
    → all_hex_digits ds ≡ false
    → decode_hex_header_digits (ds ++ more) ≡ none
unfolding decode_hex_header_digits
decoded_none ds more a h = elim (Bool-cases (length (ds ++ more) == 14)) [
  | inr f ↦ rw f refl
  | inl t ↦
      let e : length (ds ++ more) ≡ 7 * 2 = ground (arith, t) in
      rw (t, decode_pairs-none ds more 7 a h e) refl
]

decode-none :
    (ds more : Bytes)
    → All IsPlain ds
    → all_hex_digits ds ≡ false
    → length ds ≤ 14
    → decode_hex_header_digits (take 14 (ds ++ more)) ≡ none
unfolding decode_hex_header_digits
decode-none ds more a h e =
    let m = 14 - length ds in
    let n : 14 ≡ length ds + m = omega (arith, e) in
    let front : take 14 (ds ++ more) ≡ ds ++ take m more =
      ap (λ k. take k (ds ++ more)) n ∙ take-append_behind ds more m in
    ap decode_hex_header_digits front ∙ decoded_none ds (take m more) a h

and_false : (a b c : Bool) → a ≡ false → (a && b && c) ≡ false
and_false true b c h = absurd cc
and_false false b c h = refl

all_hex_digits-append :
    (ds more : Bytes) → all_hex_digits ds ≡ false → all_hex_digits (ds ++ more) ≡ false
unfolding all_hex_digits
all_hex_digits-append [] more h = absurd cc
all_hex_digits-append (d ∷ ds) more h = elim (Bool-cases (is_z_hex_digit d)) [
  | inl t ↦ let h' = rw t at h in rw t (all_hex_digits-append ds more h')
  | inr f ↦ rw f refl
]

all_false :
    (b : Bool) (ds more : Bytes)
    → (b && all_hex_digits ds) ≡ false
    → (b && all_hex_digits (ds ++ more)) ≡ false
all_false true ds more h = all_hex_digits-append ds more h
all_false false ds more h = refl

could_be-append :
    (rest more : Bytes)
    → z_could_be_hex_header rest ≡ false
    → z_could_be_hex_header (rest ++ more) ≡ false
unfolding z_could_be_hex_header
could_be-append [] more h = absurd cc
could_be-append (a ∷ []) [] h = h
could_be-append (a ∷ []) (b ∷ ds) h = and_false (a == z_dle) (b == z_hex) (all_hex_digits ds) h
could_be-append (a ∷ b ∷ ds) more h = all_false (a == z_dle && b == z_hex) ds more h

behind_true : (a b : Bool) → a ≡ true → (a && b) ≡ false → b ≡ false
behind_true true b t h = h
behind_true false b t h = absurd cc

starts_none : starts_transfer none ≡ passed
unfolding starts_transfer
starts_none = refl

not_header-append :
    (rest more : Bytes)
    → All IsPlain rest
    → length rest < 16
    → z_could_be_hex_header rest ≡ false
    → whole_header (rest ++ more) ≡ passed
unfolding whole_header z_could_be_hex_header
not_header-append [] more a e h = absurd cc
not_header-append (x ∷ []) [] a e h = refl
not_header-append (x ∷ []) (y ∷ ds) a e h = rw h refl
not_header-append (x ∷ y ∷ ds) more (p, (q, a)) e h = elim (Bool-cases (x == z_dle && y == z_hex)) [
  | inr f ↦ rw f refl
  | inl t ↦
      let bad : all_hex_digits ds ≡ false =
        behind_true (x == z_dle && y == z_hex) (all_hex_digits ds) t h in
      rw t (ap starts_transfer (decode-none ds more a bad (omega (arith, e))) ∙ starts_none)
]

judge_short :
    (rest : Bytes)
    → ltb (length rest) 16 ≡ true
    → judge rest ≡ (if z_could_be_hex_header rest then held else passed)
unfolding judge
judge_short rest t = rw t refl

judge_long : (rest : Bytes) → ltb (length rest) 16 ≡ false → judge rest ≡ whole_header rest
unfolding judge
judge_long rest f = rw f refl

longer : (rest more : Bytes) → ltb (length rest) 16 ≡ false → ltb (length (rest ++ more)) 16 ≡ false
longer rest more f = ground (arith, f, length-append rest more)

not_held : (b : Bool) → (if b then held else passed) ≡ passed → b ≡ false
not_held true h = absurd cc
not_held false h = refl

not_found : (b : Bool) (t : ℕ) → (if b then held else passed) ≡ found t → ⊥
not_found true t h = cc
not_found false t h = cc

-- What stands at a ZPAD stays the same whatever follows, unless it was held.
judge-passed :
    (rest more : Bytes) → All IsPlain rest → judge rest ≡ passed → judge (rest ++ more) ≡ passed
judge-passed rest more a h = elim (Bool-cases (ltb (length rest) 16)) [
  | inr f ↦
      judge_long (rest ++ more) (longer rest more f)
      ∙ whole_header-append rest more (ground (arith, f))
      ∙ sym (judge_long rest f)
      ∙ h
  | inl t ↦
      let bad = not_held (z_could_be_hex_header rest) (sym (judge_short rest t) ∙ h) in
      elim (Bool-cases (ltb (length (rest ++ more)) 16)) [
        | inl u ↦
            judge_short (rest ++ more) u
            ∙ ap (λ b. if b then held else passed) (could_be-append rest more bad)
        | inr u ↦
            judge_long (rest ++ more) u ∙ not_header-append rest more a (ground (arith, t)) bad
      ]
]

judge-found : (rest more : Bytes) (t : ℕ) → judge rest ≡ found t → judge (rest ++ more) ≡ found t
judge-found rest more k h = elim (Bool-cases (ltb (length rest) 16)) [
  | inr f ↦
      judge_long (rest ++ more) (longer rest more f)
      ∙ whole_header-append rest more (ground (arith, f))
      ∙ sym (judge_long rest f)
      ∙ h
  | inl t ↦ absurd (not_found (z_could_be_hex_header rest) k (sym (judge_short rest t) ∙ h))
]

empty_held : (v : Verdict) → judge [] ≡ v → (v ≡ held → ⊥) → ⊥
unfolding judge z_could_be_hex_header
empty_held v e n = n (sym e)

pub behind_pad_stays :
    (rest more : Bytes)
    → All IsPlain rest
    → (v : Verdict) → judge_behind_pad rest ≡ v
    → (v ≡ held) ⊎ (judge_behind_pad (rest ++ more) ≡ v)
unfolding judge_behind_pad
behind_pad_stays rest more a held e = inl refl
behind_pad_stays [] more a passed e = absurd (empty_held passed e (λ x. absurd cc))
behind_pad_stays [] more a (found t) e = absurd (empty_held (found t) e (λ x. absurd cc))
behind_pad_stays (y ∷ ys) more a passed e = elim (Bool-cases (y == z_pad)) [
  | inl t ↦ let e' = rw t at e in inr (rw t (judge-passed ys more a.1 e'))
  | inr f ↦ let e' = rw f at e in inr (rw f (judge-passed (y ∷ ys) more a e'))
]
behind_pad_stays (y ∷ ys) more a (found k) e = elim (Bool-cases (y == z_pad)) [
  | inl t ↦ let e' = rw t at e in inr (rw t (judge-found ys more k e'))
  | inr f ↦ let e' = rw f at e in inr (rw f (judge-found (y ∷ ys) more k e'))
]
