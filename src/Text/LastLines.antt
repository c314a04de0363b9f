-- ===== src/Text/LastLines.antt =====
-- `lastLinesStart` and its callers: LastLineChunks of timed_chunks.go and TailLines of monitor.go.
use go_serial_cli.Common.{
  ℕ, suc, ◌+◌, ◌-◌, ◌≤◌, ◌<◌, ◌≡◌, refl, sym, ap, ◌∙◌, true, false, ◌||◌, ◌==◌, leb, ltb, ltb_iff,
  if◌then◌else◌, min, max, Bytes, List, [], ◌∷◌, ◌++◌, append-nil, length, length-append, take,
  drop, reverse, drop-append_front, drop-append_behind, length-drop, take_all, arith, Bool-cases,
  inl, inr, if_cases,
}
use mathlib.Core.Path.{subst}
use mathlib.Core.List.{reverse_aux, reverse-reverse}
use go_serial_cli.Text.ChunksCover.{drop_nil, join_chunks-append}
use go_serial_cli.Text.Chunks.{
  TimedChunk, slice, join_chunks, last_lines_loop, last_lines_start, tail_lines, slice_chunk,
  slice_chunks, last_line_chunks,
}

unfoldable pub count_newlines : Bytes → ℕ
count_newlines [] = 0
count_newlines (c ∷ cs) = if c == 0x0a then suc (count_newlines cs) else count_newlines cs

count_newlines-reverse_aux :
    (xs ys : Bytes) → count_newlines (reverse_aux xs ys) ≡ count_newlines xs + count_newlines ys
unfolding count_newlines
count_newlines-reverse_aux [] ys = omega arith
count_newlines-reverse_aux (c ∷ xs) ys = ground (arith, count_newlines-reverse_aux xs (c ∷ ys))

drop-reverse_aux : (k : ℕ) (xs ys : Bytes) → drop (length xs + k) (reverse_aux xs ys) ≡ drop k ys
drop-reverse_aux k [] ys = let e : 0 + k ≡ k = omega arith in ap (λ n. drop n ys) e
drop-reverse_aux k (x ∷ xs) ys =
    let e : suc (length xs) + k ≡ length xs + suc k = omega arith in
    ap (λ n. drop n (reverse_aux xs (x ∷ ys))) e ∙ drop-reverse_aux (suc k) xs (x ∷ ys)

count_newline :
    (c : ℕ) (after : Bytes) (lines : ℕ)
    → (c == 0x0a) ≡ true
    → count_newlines after ≡ lines
    → count_newlines (c ∷ after) ≡ lines + 1
unfolding count_newlines
count_newline c after lines t h = ground arith

count_other :
    (c : ℕ) (after : Bytes) (lines : ℕ)
    → (c == 0x0a) ≡ false
    → count_newlines after ≡ lines
    → count_newlines (c ∷ after) ≡ lines
unfolding count_newlines
count_other c after lines t h = ground arith

-- `before` is what the loop has still to look at, from its end, and `after` what it has seen.
last_lines_loop_count :
    (n lines : ℕ) (before after : Bytes)
    → count_newlines after ≡ lines
    → lines ≤ n
    → count_newlines (drop (last_lines_loop n lines before) (reverse_aux before after))
      ≡ min n (count_newlines (reverse_aux before after))
unfolding last_lines_loop
last_lines_loop_count n lines [] after h k = omega arith
last_lines_loop_count n lines (c ∷ before) after h k = elim (Bool-cases (c == 0x0a)) [
  | inr f ↦
      rw (f, last_lines_loop)
        (last_lines_loop_count n lines before (c ∷ after) (count_other c after lines f h) k)
  | inl t ↦ elim (Bool-cases (ltb n (lines + 1))) [
    | inl stop ↦
        rw (t, stop, last_lines_loop)
          (ap count_newlines (drop-reverse_aux 1 before (c ∷ after))
            ∙ omega (
              arith,
              count_newlines-reverse_aux before (c ∷ after),
              count_newline c after lines t h,
              (ltb_iff n (lines + 1)).0 stop,
            ))
    | inr more ↦
        rw (t, more, last_lines_loop)
          (last_lines_loop_count n (lines + 1) before (c ∷ after) (count_newline c after lines t h)
            (ground arith))
  ]
]

-- The tail that TailLines returns holds as many newlines as asked for, or all of them where the
-- data has fewer, if at least one is asked for.
pub count_newlines-tail_lines :
    (n : ℕ) (bytes : Bytes)
    → 0 < n
    → count_newlines (tail_lines bytes n) ≡ min n (count_newlines bytes)
unfolding tail_lines last_lines_start count_newlines
count_newlines-tail_lines n bytes p =
    if_cases (λ k. count_newlines (drop k bytes) ≡ min n (count_newlines bytes)) (n == 0) _ _
      (λ t. absurd (ground arith))
      (λ f.
        subst
          (λ whole.
            count_newlines (drop (last_lines_loop n 0 (reverse bytes)) whole)
            ≡ min n (count_newlines whole))
          (reverse-reverse bytes) (last_lines_loop_count n 0 (reverse bytes) [] refl (omega arith)))

slice_to_end : (a b : ℕ) (l : Bytes) → b ≡ length l → slice a b l ≡ drop a l
unfolding slice
slice_to_end a b l h =
    let e : b - a ≡ length (drop a l) = omega (arith, length-drop a l) in
    ap (λ k. take k (drop a l)) e ∙ take_all (drop a l)

start_zero :
    (bytes : Bytes) (n : ℕ)
    → (n == 0 || last_lines_start bytes n == 0) ≡ true
    → last_lines_start bytes n ≡ 0
unfolding last_lines_start
start_zero bytes n h = ground arith

-- A chunk all of whose bytes lie before the tail leaves nothing, and any other its own tail.
module _ (start end pos : ℕ) (chunk : TimedChunk) (more : Bytes) where
  drop_whole_chunk :
      start - pos ≡ length chunk.contents + (start - (pos + length chunk.contents))
      → drop (start - (pos + length chunk.contents)) more
        ≡ drop (start - pos) (chunk.contents ++ more)
  drop_whole_chunk e = sym (
      ap (λ k. drop k (chunk.contents ++ more)) e
      ∙ drop-append_behind chunk.contents more (start - (pos + length chunk.contents)))

  drop_in_chunk :
      start < pos + length chunk.contents
      → pos + length chunk.contents ≤ end
      → slice (max start pos - pos) (min end (pos + length chunk.contents) - pos) chunk.contents
          ++ drop (start - (pos + length chunk.contents)) more
        ≡ drop (start - pos) (chunk.contents ++ more)
  drop_in_chunk h k =
      let none_left : start - (pos + length chunk.contents) ≡ 0 = omega arith in
      let front : max start pos - pos ≡ start - pos = omega arith in
      rw (none_left, front)
        (ap (λ l. l ++ more) (slice_to_end (start - pos) _ chunk.contents (omega arith))
          ∙ sym (drop-append_front (start - pos) chunk.contents more (omega arith)))

  slice_chunk_lem :
      pos + length chunk.contents ≤ end
      → join_chunks (slice_chunk pos start end chunk)
          ++ drop (start - (pos + length chunk.contents)) more
        ≡ drop (start - pos) (chunk.contents ++ more)
  unfolding slice_chunk join_chunks
  slice_chunk_lem h =
      let Goal = λ (l : List TimedChunk).
        join_chunks l ++ drop (start - (pos + length chunk.contents)) more
        ≡ drop (start - pos) (chunk.contents ++ more) in
      if_cases Goal (leb (pos + length chunk.contents) start || leb end pos) _ _
        (λ t. drop_whole_chunk (ground arith))
        (λ f.
          if_cases Goal (ltb (max start pos) (min end (pos + length chunk.contents))) _ _
            (λ t.
              ap (λ l. l ++ drop (start - (pos + length chunk.contents)) more) (append-nil _)
              ∙ drop_in_chunk (ground arith) h)
            (λ g. drop_whole_chunk (ground arith)))

join_chunks-slice_chunks :
    (start end pos : ℕ) (chunks : List TimedChunk)
    → end ≡ pos + length (join_chunks chunks)
    → join_chunks (slice_chunks pos chunks start end) ≡ drop (start - pos) (join_chunks chunks)
unfolding slice_chunks join_chunks
join_chunks-slice_chunks start end pos [] h = sym (drop_nil (start - pos))
join_chunks-slice_chunks start end pos (chunk ∷ chunks) h =
    let long = length-append chunk.contents (join_chunks chunks) in
    join_chunks-append (slice_chunk pos start end chunk) _
    ∙ ap (◌++◌ (join_chunks (slice_chunk pos start end chunk))) (
        join_chunks-slice_chunks start end (pos + length chunk.contents) chunks
          (omega (arith, long)))
    ∙ slice_chunk_lem start end pos chunk (join_chunks chunks) (omega (arith, long))

-- LastLineChunks keeps of the chunks the bytes that TailLines keeps of their data.
pub join_chunks-last_line_chunks :
    (chunks : List TimedChunk) (n : ℕ)
    → join_chunks (last_line_chunks chunks n) ≡ tail_lines (join_chunks chunks) n
unfolding last_line_chunks tail_lines
join_chunks-last_line_chunks chunks n =
    let bytes = join_chunks chunks in
    let start = last_lines_start bytes n in
    if_cases (λ l. join_chunks l ≡ drop start bytes) (n == 0 || start == 0) _ _
      (λ t. sym (ap (λ k. drop k bytes) (start_zero bytes n t)))
      (λ f.
        let front : start - 0 ≡ start = omega arith in
        join_chunks-slice_chunks start (length bytes) 0 chunks (omega arith)
        ∙ ap (λ k. drop k bytes) front)
