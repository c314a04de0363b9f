-- ===== src/Zmodem/ScanBounds.antt =====
-- What `zScanHeader` returns on any bytes: its positions lie in the buffer, and it moves on.
use go_serial_cli.Common.{
  ℕ, zero, suc, ◌+◌, ◌-◌, ◌<◌, ◌≤◌, ◌≡◌, refl, Bool, true, not, ◌||◌, ◌==◌, leb, bit_and, Bytes, [],
  ◌∷◌, ◌++◌, length, take, drop, length-drop, arith, Option-cases, inl, inr, if_cases,
}
use go_serial_cli.Zmodem.Header.{z_hex, z_bin, z_bin32, z_dle}
use go_serial_cli.Zmodem.Encode.{decode_hex_header_digits}
use go_serial_cli.Zmodem.Unescape.{
  ScanStatus, need_more, finish_escape, Unescaped, unescape_from, unescape_behind, unescape_n,
}
use go_serial_cli.Zmodem.Scan.{
  Scan, ScanStep, stop, advance, checked_header, line_end, scan_hex, scan_values, scan_bin,
  scan_format, scan_behind_pads, run_length, is_can, is_pad, scan_can, scan_at, scan_loop,
  scan_header,
}

-- No more bytes are used than there are.
mutual
  unfolding unescape_from unescape_behind

  unescape_from_used :
      (ctl_ignore : Bool) (n : ℕ) (vals : Bytes) (i : ℕ) (buf : Bytes)
      → (i ≤ (unescape_from ctl_ignore n vals i buf).used)
        × ((unescape_from ctl_ignore n vals i buf).used ≤ i + length buf)
  unescape_from_used ctl_ignore zero vals i [] = omega arith
  unescape_from_used ctl_ignore zero vals i (c ∷ rest) = omega arith
  unescape_from_used ctl_ignore (suc n) vals i [] = omega arith
  unescape_from_used ctl_ignore (suc n) vals i (c ∷ rest) = ground (
    arith,
    unescape_from_used ctl_ignore n (vals ++ (c ∷ [])) (i + 1) rest,
    unescape_from_used ctl_ignore (suc n) vals (i + 1) rest,
    unescape_behind_used ctl_ignore n vals 1 (i + 1) rest,
  )

  unescape_behind_used :
      (ctl_ignore : Bool) (n : ℕ) (vals : Bytes) (cans i : ℕ) (buf : Bytes)
      → (i ≤ (unescape_behind ctl_ignore n vals cans i buf).used)
        × ((unescape_behind ctl_ignore n vals cans i buf).used ≤ i + length buf)
  unescape_behind_used ctl_ignore n vals cans i [] = omega arith
  unescape_behind_used ctl_ignore n vals cans i (c ∷ rest) =
      elim (Option-cases (finish_escape cans i c)) [
        | inl e ↦ ground (
          arith,
          e,
          unescape_behind_used ctl_ignore n vals (cans + 1) (i + 1) rest,
          unescape_behind_used ctl_ignore n vals cans (i + 1) rest,
        )
        | inr (v, e) ↦ ground (
          arith,
          e,
          unescape_behind_used ctl_ignore n vals (cans + 1) (i + 1) rest,
          unescape_behind_used ctl_ignore n vals cans (i + 1) rest,
          unescape_from_used ctl_ignore n (vals ++ (v ∷ [])) (i + 1) rest,
        )
      ]

unescape_n_used :
    (buf : Bytes) (n : ℕ) (ctl_ignore : Bool) → (unescape_n buf n ctl_ignore).used ≤ length buf
unfolding unescape_n
unescape_n_used buf n ctl_ignore = omega (arith, unescape_from_used ctl_ignore n [] 0 buf)

-- A scan that asks for more bytes stops where a frame may start; any other result takes bytes.
abbrev pub Moves : ScanStatus → ℕ → Type 0
Moves need_more n = n ≡ 0
Moves _ n = 0 < n

abbrev WithinStep : ℕ → ScanStep → Type 0
WithinStep l (stop h n status) = (n ≤ l) × Moves status n
WithinStep l (advance k) = k < l

WithinStep-mono : (l m : ℕ) (s : ScanStep) → l ≤ m → WithinStep l s → WithinStep m s
WithinStep-mono l m (stop h n status) p (q, r) = (omega arith, r)
WithinStep-mono l m (advance k) p q = omega arith

line_end_le : (buf : Bytes) → line_end buf ≤ length buf
unfolding line_end
line_end_le [] = omega arith
line_end_le (c ∷ []) = ground arith
line_end_le (c ∷ d ∷ rest) = ground arith

scan_hex-WithinStep :
    (j : ℕ) (rest : Bytes) → 1 ≤ j → WithinStep (j + length rest) (scan_hex j rest)
unfolding scan_hex
scan_hex-WithinStep j rest h = elim (Option-cases (decode_hex_header_digits (take 14 rest))) [
  | inl e ↦ ground (arith, e)
  | inr (hdr, e) ↦ ground (arith, e, line_end_le (drop 14 rest), length-drop 14 rest)
]

scan_values-WithinStep :
    (j l format : ℕ) (u : Unescaped)
    → 1 ≤ j
    → u.used ≤ l
    → WithinStep (j + l) (scan_values j format u)
unfolding scan_values
scan_values-WithinStep j l format u h k = elim (Option-cases (checked_header format u.vals)) [
  | inl e ↦ ground (arith, e)
  | inr (hdr, e) ↦ ground (arith, e)
]

scan_bin-WithinStep :
    (ctl_ignore : Bool) (j format : ℕ) (rest : Bytes)
    → 1 ≤ j
    → WithinStep (j + length rest) (scan_bin ctl_ignore j format rest)
unfolding scan_bin
scan_bin-WithinStep ctl_ignore j format rest h =
    scan_values-WithinStep j (length rest) format _ h (unescape_n_used rest _ ctl_ignore)

scan_format-WithinStep :
    (ctl_ignore : Bool) (r : ℕ) (rest : Bytes)
    → 1 ≤ r
    → WithinStep (r + 1 + length rest) (scan_format ctl_ignore r rest)
unfolding scan_format
scan_format-WithinStep ctl_ignore r [] h = omega arith
scan_format-WithinStep ctl_ignore r (f ∷ rest) h =
    let here = WithinStep-mono (r + 2 + length rest) (r + 1 + suc (length rest)) in
    if_cases (WithinStep _) (bit_and f 0x7f == z_hex) _ _
      (λ _. here _ (omega arith) (scan_hex-WithinStep (r + 2) rest (omega arith)))
      (λ _.
        if_cases (WithinStep _) (bit_and f 0x7f == z_bin || bit_and f 0x7f == z_bin32) _ _
          (λ _. here _ (omega arith) (scan_bin-WithinStep ctl_ignore (r + 2) _ rest (omega arith)))
          (λ _. omega arith))

scan_behind_pads-WithinStep :
    (ctl_ignore : Bool) (r : ℕ) (rest : Bytes)
    → 1 ≤ r
    → WithinStep (r + length rest) (scan_behind_pads ctl_ignore r rest)
unfolding scan_behind_pads
scan_behind_pads-WithinStep ctl_ignore r [] h = omega arith
scan_behind_pads-WithinStep ctl_ignore r (d ∷ rest) h =
    if_cases (WithinStep _) (not (d == z_dle)) _ _ (λ _. omega arith)
      (λ _.
        WithinStep-mono (r + 1 + length rest) _ _ (omega arith)
          (scan_format-WithinStep ctl_ignore r rest h))

run_length_le : (p : ℕ → Bool) (buf : Bytes) → run_length p buf ≤ length buf
unfolding run_length
run_length_le p [] = omega arith
run_length_le p (c ∷ cs) = ground (arith, run_length_le p cs)

run_length-pos : (p : ℕ → Bool) (c : ℕ) (cs : Bytes) → p c ≡ true → 0 < run_length p (c ∷ cs)
unfolding run_length
run_length-pos p c cs h = rw h (omega arith)

scan_can-WithinStep :
    (c : ℕ) (cs : Bytes) → is_can c ≡ true → WithinStep (length (c ∷ cs)) (scan_can (c ∷ cs))
unfolding scan_can
scan_can-WithinStep c cs h =
    let r = run_length is_can (c ∷ cs) in
    let le = run_length_le is_can (c ∷ cs) in
    let pos = run_length-pos is_can c cs h in
    if_cases (WithinStep _) (leb 5 r) _ _ (λ _. (le, pos))
      (λ _.
        if_cases (WithinStep _) (r == length (c ∷ cs)) _ _ (λ _. omega arith) (λ _. omega arith))

scan_at-WithinStep :
    (ctl_ignore : Bool) (c : ℕ) (cs : Bytes)
    → WithinStep (length (c ∷ cs)) (scan_at ctl_ignore c cs)
unfolding scan_at
scan_at-WithinStep ctl_ignore c cs =
    let r = run_length is_pad (c ∷ cs) in
    if_cases (WithinStep _) (is_can c) _ _ (scan_can-WithinStep c cs) (λ _.
      if_cases (WithinStep _) (not (is_pad c)) _ _ (λ _. omega arith)
        (λ pad.
          WithinStep-mono (r + length (drop r (c ∷ cs))) _ _
            (omega (arith, length-drop r (c ∷ cs), run_length_le is_pad (c ∷ cs)))
            (scan_behind_pads-WithinStep ctl_ignore r _
              (run_length-pos is_pad c cs (ground arith)))))

-- Where a scan that began at `i` with `l` bytes ahead may end.
abbrev Within : ℕ → ℕ → Scan → Type 0
Within i l s =
    (i ≤ s.start) × (s.start ≤ s.end) × (s.end ≤ i + l) × Moves s.status (s.end - s.start)

Within-step :
    (ctl_ignore : Bool) (i c : ℕ) (cs : Bytes) (s : ScanStep)
    → scan_at ctl_ignore c cs ≡ s
    → WithinStep (length (c ∷ cs)) s
    → ((k : ℕ) → Within (i + 1) (length cs) (scan_loop ctl_ignore (i + 1) k cs))
    → Within i (length (c ∷ cs)) (scan_loop ctl_ignore i zero (c ∷ cs))
unfolding scan_loop
Within-step ctl_ignore i c cs (stop h n status) e (le, moves) ih =
    let same : i + n - i ≡ n = omega arith in
    rw (e, scan_loop) (omega arith, omega arith, omega arith, rw same moves)
Within-step ctl_ignore i c cs (advance k) e le ih =
    let (lo, mid, hi, moves) = ih k in rw (e, scan_loop) (omega arith, mid, omega arith, moves)

scan_loop-Within :
    (ctl_ignore : Bool) (i skip : ℕ) (buf : Bytes)
    → Within i (length buf) (scan_loop ctl_ignore i skip buf)
unfolding scan_loop
scan_loop-Within ctl_ignore i skip [] = (omega arith, omega arith, omega arith, omega arith)
scan_loop-Within ctl_ignore i (suc skip) (c ∷ cs) =
    let (lo, mid, hi, moves) = scan_loop-Within ctl_ignore (i + 1) skip cs in
    (omega arith, mid, omega arith, moves)
scan_loop-Within ctl_ignore i zero (c ∷ cs) =
    Within-step ctl_ignore i c cs _ refl (scan_at-WithinStep ctl_ignore c cs)
      (λ k. scan_loop-Within ctl_ignore (i + 1) k cs)

-- On any bytes `start ≤ end ≤ len(buf)`, so no slice of the callers is out of range. A scan that
-- asks for more bytes ends where it starts, and any other takes one byte at least, so the loops
-- that scan again after a bad header come to an end.
pub scan_header_bounds :
    (buf : Bytes) (ctl_ignore : Bool)
    → let s = scan_header buf ctl_ignore in
      (s.start ≤ s.end) × (s.end ≤ length buf) × Moves s.status (s.end - s.start)
unfolding scan_header
scan_header_bounds buf ctl_ignore =
    let (lo, mid, hi, moves) = scan_loop-Within ctl_ignore 0 0 buf in (mid, omega arith, moves)
