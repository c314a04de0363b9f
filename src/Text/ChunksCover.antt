-- ===== src/Text/ChunksCover.antt =====
-- The chunks that ReadTimedChunks of timed_chunks.go returns put together the bytes that it was
-- given, and WriteChunk keeps the order of the index that this needs.
use go_serial_cli.Common.{
  ℕ, zero, suc, ◌+◌, ◌-◌, ◌≤◌, ◌<◌, ◌≡◌, refl, sym, ap, ◌∙◌, Bool, true, false, ltb, if◌then◌else◌,
  min, max, Bytes, List, [], ◌∷◌, ◌++◌, append-nil, append_assoc, some, length, take, drop,
  take-append-drop, arith, Bool-cases, inl, inr, ◌⊎◌, if_cases,
}
use go_serial_cli.Text.Chunks.{
  TimedChunk, CacheIndexEntry, slice, join_chunks, gap_chunk, entry_outside, overlap_start,
  overlap_end, entry_chunk, next_covered, tail_chunk, cover, whole, whole_if_none,
  read_timed_chunks,
}

-- Each entry has a length and starts where the one before it ends or later.
abbrev pub IsOrdered : ℕ → List CacheIndexEntry → Type 0
IsOrdered p [] = Unit
IsOrdered p (e ∷ es) = (p ≤ e.offset) × (0 < e.size) × IsOrdered (e.offset + e.size) es

pub join_chunks-append :
    (xs ys : List TimedChunk) → join_chunks (xs ++ ys) ≡ join_chunks xs ++ join_chunks ys
unfolding join_chunks
join_chunks-append [] ys = refl
join_chunks-append (x ∷ xs) ys =
    ap (◌++◌ x.contents) (join_chunks-append xs ys)
    ∙ sym (append_assoc x.contents (join_chunks xs) (join_chunks ys))

pub drop_nil : (n : ℕ) → drop {A = ℕ} n [] ≡ []
drop_nil zero = refl
drop_nil (suc n) = refl

pub drop-drop : (a n : ℕ) (l : Bytes) → drop n (drop a l) ≡ drop (a + n) l
drop-drop zero n l = let e : n ≡ 0 + n = omega arith in ap (λ k. drop k l) e
drop-drop (suc a) n [] = drop_nil n ∙ sym (drop_nil (suc a + n))
drop-drop (suc a) n (x ∷ l) =
    let e : suc (a + n) ≡ suc a + n = omega arith in drop-drop a n l ∙ ap (λ k. drop k (x ∷ l)) e

slice_same : {a a' b b' : ℕ} (l : Bytes) → a ≡ a' → b ≡ b' → slice a b l ≡ slice a' b' l
slice_same l e f = rw (e, f)

slice-drop : (a b : ℕ) (l : Bytes) → a ≤ b → slice a b l ++ drop b l ≡ drop a l
unfolding slice
slice-drop a b l h =
    let e : b ≡ a + (b - a) = omega arith in
    ap (λ k. take (b - a) (drop a l) ++ drop k l) e
    ∙ ap (◌++◌ (take (b - a) (drop a l))) (sym (drop-drop a (b - a) l))
    ∙ take-append-drop (b - a) (drop a l)

-- A chunk for the bytes from `a` to `b`, or no chunk where there are none.
join_chunks-slice :
    (test : Bool) (chunk : TimedChunk) (a b : ℕ) (l : Bytes)
    → a ≤ b
    → (test ≡ true → chunk.contents ≡ slice a b l)
    → (test ≡ false → a ≡ b)
    → join_chunks (if test then chunk ∷ [] else []) ++ drop b l ≡ drop a l
unfolding join_chunks
join_chunks-slice true chunk a b l h some_bytes no_bytes =
    ap (λ c. c ++ drop b l) (append-nil chunk.contents ∙ some_bytes refl) ∙ slice-drop a b l h
join_chunks-slice false chunk a b l h some_bytes no_bytes = ap (λ k. drop k l) (sym (no_bytes refl))

module _ (bytes : Bytes) (start end covered : ℕ) (e : CacheIndexEntry) where
  join_chunks-gap_chunk :
      start ≤ covered
      → join_chunks (gap_chunk bytes start covered e) ++ drop (max covered e.offset - start) bytes
        ≡ drop (covered - start) bytes
  unfolding gap_chunk
  join_chunks-gap_chunk h =
      join_chunks-slice (ltb covered e.offset)
        (record {
          at = e.at;
          source = [];
          contents = slice (covered - start) (e.offset - start) bytes;
        })
        (covered - start) (max covered e.offset - start) bytes (omega arith)
        (λ t. ap (λ k. slice (covered - start) (k - start) bytes) (ground arith))
        (λ t. ground arith)

  join_chunks-entry_chunk :
      start ≤ covered
      → (covered ≡ start) ⊎ (covered ≤ e.offset)
      → entry_outside start end e ≡ false
      → 0 < e.size
      → join_chunks (entry_chunk bytes start end e)
          ++ drop (next_covered start end covered e - start) bytes
        ≡ drop (max covered e.offset - start) bytes
  unfolding entry_chunk overlap_start overlap_end next_covered entry_outside
  join_chunks-entry_chunk h at inside size =
      join_chunks-slice (ltb (max start e.offset) (min end (e.offset + e.size)))
        (record {
          at = e.at;
          source = e.source;
          contents = slice (max start e.offset - start) (min end (e.offset + e.size) - start) bytes;
        })
        (max covered e.offset - start) (next_covered start end covered e - start) bytes
        (ground arith) (λ t. slice_same bytes (ground arith) (ground arith)) (λ t. ground arith)

  next_covered_bounds :
      start ≤ covered
      → covered ≤ end
      → entry_outside start end e ≡ false
      → 0 < e.size
      → (start ≤ next_covered start end covered e)
        × (next_covered start end covered e ≤ end)
        × (next_covered start end covered e ≤ e.offset + e.size)
  unfolding overlap_start overlap_end next_covered entry_outside
  next_covered_bounds h k inside size = ground arith

cover_round :
    (bytes : Bytes) (start end covered : ℕ) (e : CacheIndexEntry) (chunks : List TimedChunk)
    → start ≤ covered
    → (covered ≡ start) ⊎ (covered ≤ e.offset)
    → entry_outside start end e ≡ false
    → 0 < e.size
    → join_chunks (chunks ++ (gap_chunk bytes start covered e ++ entry_chunk bytes start end e))
        ++ drop (next_covered start end covered e - start) bytes
      ≡ join_chunks chunks ++ drop (covered - start) bytes
cover_round bytes start end covered e chunks h at inside size =
    let gap = gap_chunk bytes start covered e in
    let piece = entry_chunk bytes start end e in
    let rest = drop (next_covered start end covered e - start) bytes in
    ap (λ l. l ++ rest)
      (join_chunks-append chunks (gap ++ piece)
        ∙ ap (◌++◌ (join_chunks chunks)) (join_chunks-append gap piece))
    ∙ append_assoc (join_chunks chunks) (join_chunks gap ++ join_chunks piece) rest
    ∙ ap (◌++◌ (join_chunks chunks)) (
        append_assoc (join_chunks gap) (join_chunks piece) rest
        ∙ ap (◌++◌ (join_chunks gap))
            (join_chunks-entry_chunk bytes start end covered e h at inside size)
        ∙ join_chunks-gap_chunk bytes start end covered e h)

drop_all : (n : ℕ) (l : Bytes) → length l ≤ n → drop n l ≡ []
drop_all n [] h = drop_nil n
drop_all zero (x ∷ l) h = absurd (omega arith)
drop_all (suc n) (x ∷ l) h = drop_all n l (omega arith)

join_chunks-tail_chunk :
    (now : ℕ) (bytes : Bytes) (start covered : ℕ) (chunks : List TimedChunk)
    → start ≤ covered
    → join_chunks (tail_chunk now bytes start (start + length bytes) covered chunks)
      ≡ join_chunks chunks ++ drop (covered - start) bytes
unfolding tail_chunk join_chunks
join_chunks-tail_chunk now bytes start covered chunks h =
    if_cases (λ l. join_chunks l ≡ join_chunks chunks ++ drop (covered - start) bytes)
      (ltb covered (start + length bytes)) _ _
      (λ t.
        join_chunks-append chunks _
        ∙ ap (◌++◌ (join_chunks chunks)) (append-nil (drop (covered - start) bytes)))
      (λ t. sym (
        ap (◌++◌ (join_chunks chunks)) (drop_all (covered - start) bytes (ground arith))
        ∙ append-nil (join_chunks chunks)))

join_chunks-cover :
    (now : ℕ) (bytes : Bytes) (start p covered : ℕ) (entries : List CacheIndexEntry)
    (chunks : List TimedChunk)
    → IsOrdered p entries
    → start ≤ covered
    → covered ≤ start + length bytes
    → (covered ≡ start) ⊎ (covered ≤ p)
    → join_chunks (cover now bytes start (start + length bytes) entries covered chunks)
      ≡ join_chunks chunks ++ drop (covered - start) bytes
unfolding cover
join_chunks-cover now bytes start p covered [] chunks o h k at =
    join_chunks-tail_chunk now bytes start covered chunks h
join_chunks-cover now bytes start p covered (e ∷ es) chunks o h k at =
    let end = start + length bytes in
    elim (Bool-cases (entry_outside start end e)) [
      | inl t ↦
          rw (t, cover)
            (join_chunks-cover now bytes start (e.offset + e.size) covered es chunks o.2 h k
              (ground arith))
      | inr t ↦
          let near : (covered ≡ start) ⊎ (covered ≤ e.offset) = ground arith in
          let next = next_covered_bounds bytes start end covered e h k t o.1 in
          rw (t, cover)
            (join_chunks-cover now bytes start (e.offset + e.size)
                (next_covered start end covered e) es _ o.2 next.0 next.1 (inr next.2)
              ∙ cover_round bytes start end covered e chunks h near t o.1)
    ]

join_chunks-whole_if_none :
    (now : ℕ) (bytes : Bytes) (chunks : List TimedChunk)
    → join_chunks chunks ≡ bytes
    → join_chunks (whole_if_none now bytes chunks) ≡ bytes
unfolding whole_if_none whole join_chunks
join_chunks-whole_if_none now bytes [] h = append-nil bytes
join_chunks-whole_if_none now bytes (chunk ∷ chunks) h = h

-- The chunks that ReadTimedChunks returns hold the bytes it was given, each once and in their
-- order, wherever in the cache these start, if the entries of the index are in order and have
-- lengths.
pub join_chunks-read_timed_chunks :
    (now start : ℕ) (index : List CacheIndexEntry) (bytes : Bytes)
    → IsOrdered 0 index
    → join_chunks (read_timed_chunks now (some index) start bytes) ≡ bytes
unfolding read_timed_chunks join_chunks whole
join_chunks-read_timed_chunks now start index [] o = refl
join_chunks-read_timed_chunks now start [] (b ∷ rest) o = append-nil (b ∷ rest)
join_chunks-read_timed_chunks now start (e ∷ es) (b ∷ rest) o =
    let none_left : start - start ≡ 0 = omega arith in
    join_chunks-whole_if_none now (b ∷ rest) _ (
      join_chunks-cover now (b ∷ rest) start 0 start (e ∷ es) [] o (omega arith) (omega arith)
        (inl refl)
      ∙ ap (λ n. drop n (b ∷ rest)) none_left)
