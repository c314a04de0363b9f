-- ===== src/Text/OverlayChunks.antt =====
-- What is shown of another sender does not depend on how its bytes were cut: txoverlay.go.
use go_serial_cli.Common.{
  ℕ, ◌≤◌, ◌≡◌, refl, ap, sym, ◌∙◌, true, false, ◌==◌, ltb, if◌then◌else◌, Bytes, [], ◌∷◌, ◌++◌,
  length, All, All-append, append-nil, append_assoc, arith, Bool-cases, if_cases, inl, inr,
}
use go_serial_cli.Text.Overlay.{LineAssembler, emit, feed_lines, feed, tx_overlay_pending_limit}

abbrev pub IsLine : Bytes → Type 0
IsLine line = All (λ c. (c == 0x0a) ≡ false) line

module _ (source : Bytes) where
  feed_lines-other :
      (line : Bytes) (c : ℕ) (rest : Bytes)
      → (c == 0x0a) ≡ false
      → feed_lines source line (c ∷ rest) ≡ feed_lines source (line ++ (c ∷ [])) rest
  unfolding feed_lines
  feed_lines-other line c rest h = rw (h, feed_lines)

  feed_lines-newline :
      (line : Bytes) (c : ℕ) (rest : Bytes)
      → (c == 0x0a) ≡ true
      → feed_lines source line (c ∷ rest)
        ≡ (emit source line ++ (feed_lines source [] rest).0, (feed_lines source [] rest).1)
  unfolding feed_lines
  feed_lines-newline line c rest h = rw (h, feed_lines)

  feed_lines-IsLine : (line fed : Bytes) → IsLine line → IsLine (feed_lines source line fed).1
  unfolding feed_lines
  feed_lines-IsLine line [] h = h
  feed_lines-IsLine line (c ∷ rest) h = elim (Bool-cases (c == 0x0a)) [
    | inl t ↦ rw (feed_lines-newline line c rest t) (feed_lines-IsLine [] rest tt)
    | inr f ↦ rw (feed_lines-other line c rest f) (
        feed_lines-IsLine (line ++ (c ∷ [])) rest
          (All-append (λ d. (d == 0x0a) ≡ false) line (c ∷ []) h (f, tt)))
  ]

  feed_lines_line :
      (line more rest : Bytes)
      → IsLine more
      → feed_lines source line (more ++ rest) ≡ feed_lines source (line ++ more) rest
  feed_lines_line line [] rest h = ap (λ l. feed_lines source l rest) (sym (append-nil line))
  feed_lines_line line (c ∷ more) rest h =
      feed_lines-other line c (more ++ rest) h.0
      ∙ feed_lines_line (line ++ (c ∷ [])) more rest h.1
      ∙ ap (λ l. feed_lines source l rest) (append_assoc line (c ∷ []) more)

  feed_lines-append :
      (line xs ys : Bytes)
      → let first = feed_lines source line xs in
        let second = feed_lines source first.1 ys in
        feed_lines source line (xs ++ ys) ≡ (first.0 ++ second.0, second.1)
  unfolding feed_lines
  feed_lines-append line [] ys = refl
  feed_lines-append line (c ∷ xs) ys = elim (Bool-cases (c == 0x0a)) [
    | inl t ↦
        rw (feed_lines-newline line c xs t, feed_lines-newline line c (xs ++ ys) t)
          (ap (λ (r : Bytes × Bytes). (emit source line ++ r.0, r.1)) (feed_lines-append [] xs ys)
            ∙ ap (λ (l : Bytes). (l, (feed_lines source (feed_lines source [] xs).1 ys).1))
                (sym (append_assoc (emit source line) _ _)))
    | inr f ↦
        rw (feed_lines-other line c xs f, feed_lines-other line c (xs ++ ys) f)
          (feed_lines-append (line ++ (c ∷ [])) xs ys)
  ]

feed_small :
    (now : ℕ) (fed : Bytes) (a : LineAssembler)
    → length (feed_lines a.source [] (a.pending ++ fed)).1 ≤ tx_overlay_pending_limit
    → let r = feed_lines a.source [] (a.pending ++ fed) in
      feed now fed a ≡ (r.0, record a { pending = r.1; last_feed = now })
unfolding feed
feed_small now fed a h =
    let within : ltb tx_overlay_pending_limit (length (feed_lines a.source [] (a.pending ++ fed)).1)
        ≡ false =
      ground arith in
    rw within refl

-- What is printed, on its own, from the lines that are fed.
feed_of : ℕ → Bytes → Bytes → Bytes × Bytes → Bytes × LineAssembler
feed_of now source before r =
    if ltb tx_overlay_pending_limit (length r.1)
    then (
      before ++ (r.0 ++ emit source r.1),
      record { source = source; pending = []; last_feed = now },
    )
    else (before ++ r.0, record { source = source; pending = r.1; last_feed = now })

feed-feed_of :
    (now : ℕ) (before fed : Bytes) (a : LineAssembler)
    → (before ++ (feed now fed a).0, (feed now fed a).1)
      ≡ feed_of now a.source before (feed_lines a.source [] (a.pending ++ fed))
unfolding feed feed_of
feed-feed_of now before fed a =
    if_cases
      (λ (r : Bytes × LineAssembler).
        (before ++ r.0, r.1)
        ≡ feed_of now a.source before (feed_lines a.source [] (a.pending ++ fed)))
      (ltb tx_overlay_pending_limit (length (feed_lines a.source [] (a.pending ++ fed)).1)) _ _
      (λ t. rw t refl) (λ f. rw f refl)

feed_of_shift :
    (now : ℕ) (source before : Bytes) (r : Bytes × Bytes)
    → feed_of now source [] (before ++ r.0, r.1) ≡ feed_of now source before r
unfolding feed_of
feed_of_shift now source before r = elim (Bool-cases (ltb tx_overlay_pending_limit (length r.1))) [
  | inl t ↦ rw t (
      ap (λ (l : Bytes). (l, record { source = source; pending = []; last_feed = now }))
        (append_assoc before r.0 (emit source r.1)))
  | inr f ↦ rw f refl
]

feed_lines_pieces :
    (source pending fed more : Bytes)
    → let first = feed_lines source [] (pending ++ fed) in
      let second = feed_lines source [] (first.1 ++ more) in
      feed_lines source [] (pending ++ (fed ++ more)) ≡ (first.0 ++ second.0, second.1)
feed_lines_pieces source pending fed more =
    let first = feed_lines source [] (pending ++ fed) in
    ap (feed_lines source []) (sym (append_assoc pending fed more))
    ∙ feed_lines-append source [] (pending ++ fed) more
    ∙ ap (λ (r : Bytes × Bytes). (first.0 ++ r.0, r.1))
        (sym (
          feed_lines_line source [] first.1 more (feed_lines-IsLine source [] (pending ++ fed) tt)))

-- Bytes fed in two pieces print what they print fed at once, and leave the same assembler, if the
-- first piece does not leave more than the limit without a newline.
pub feed-append :
    (now later : ℕ) (fed more : Bytes) (a : LineAssembler)
    → length (feed_lines a.source [] (a.pending ++ fed)).1 ≤ tx_overlay_pending_limit
    → let first = feed now fed a in
      let second = feed later more first.1 in
      feed later (fed ++ more) a ≡ (first.0 ++ second.0, second.1)
feed-append now later fed more a h =
    let r = feed_lines a.source [] (a.pending ++ fed) in
    let left = record a { pending = r.1; last_feed = now } in
    feed-feed_of later [] (fed ++ more) a
    ∙ ap (feed_of later a.source []) (feed_lines_pieces a.source a.pending fed more)
    ∙ feed_of_shift later a.source r.0 (feed_lines a.source [] (r.1 ++ more))
    ∙ sym (feed-feed_of later r.0 more left)
    ∙ sym (
        ap
          (λ (f : Bytes × LineAssembler). (f.0 ++ (feed later more f.1).0, (feed later more f.1).1))
          (feed_small now fed a h))

-- Behind `feed` the pending bytes are part of one line and no more than the limit.
pub feed-IsLine :
    (now : ℕ) (fed : Bytes) (a : LineAssembler)
    → let left = (feed now fed a).1 in
      IsLine left.pending × (length left.pending ≤ tx_overlay_pending_limit)
unfolding feed
feed-IsLine now fed a =
    if_cases
      (λ (r : Bytes × LineAssembler).
        IsLine r.1.pending × (length r.1.pending ≤ tx_overlay_pending_limit))
      (ltb tx_overlay_pending_limit (length (feed_lines a.source [] (a.pending ++ fed)).1)) _ _
      (λ t. (tt, omega arith))
      (λ f. (feed_lines-IsLine a.source [] (a.pending ++ fed) tt, ground arith))
