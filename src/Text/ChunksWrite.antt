-- ===== src/Text/ChunksWrite.antt =====
-- WriteTimedChunks of timed_chunks.go against the two files: what reaches the cache, and the
-- order of the index.
use go_serial_cli.Common.{
  ℕ, ◌+◌, ◌≤◌, ◌<◌, ◌≡◌, ◌≢◌, refl, sym, ap, ◌∙◌, not, ◌||◌, ◌==◌, if◌then◌else◌, min, Bytes, List,
  [], ◌∷◌, ◌++◌, append-nil, append_assoc, none, some, length, length-append, length-take, take,
  arith, Bool-cases, List-cases, take_all, take-append_front, take-append_behind, inl, inr,
  if_cases,
}
use go_serial_cli.Text.Chunks.{
  TimedChunk, CacheIndexEntry, TimedCache, Disk, Written, index_entry, write_chunk, join_chunks,
  WroteChunks, refused, short_write, and_written, write_timed_chunks,
}
use go_serial_cli.Text.ChunksCover.{IsOrdered}

-- No entry reaches beyond the first `n` bytes.
abbrev EndsBy : ℕ → List CacheIndexEntry → Type 0
EndsBy n [] = Unit
EndsBy n (e ∷ es) = (e.offset + e.size ≤ n) × EndsBy n es

-- The index is in order, and covers nothing that is not in the cache.
abbrev pub IsIndexed : TimedCache → Type 0
IsIndexed w = IsOrdered 0 w.index × EndsBy (length w.cache) w.index

EndsBy-mono : {m n : ℕ} (es : List CacheIndexEntry) → m ≤ n → EndsBy m es → EndsBy n es
EndsBy-mono [] h k = tt
EndsBy-mono (e ∷ es) h k = (omega arith, EndsBy-mono es h k.1)

EndsBy-append :
    {n : ℕ} (es : List CacheIndexEntry) (e : CacheIndexEntry)
    → EndsBy n es
    → e.offset + e.size ≤ n
    → EndsBy n (es ++ (e ∷ []))
EndsBy-append [] e h k = (k, tt)
EndsBy-append (d ∷ es) e h k = (h.0, EndsBy-append es e h.1 k)

IsOrdered-append :
    (es : List CacheIndexEntry) (e : CacheIndexEntry) {p : ℕ}
    → IsOrdered p es
    → p ≤ e.offset
    → EndsBy e.offset es
    → 0 < e.size
    → IsOrdered p (es ++ (e ∷ []))
IsOrdered-append [] e o h k s = (h, s, tt)
IsOrdered-append (d ∷ es) e o h k s = (o.0, o.1, IsOrdered-append es e o.2 k.0 k.1 s)

-- What one write leaves: an indexed cache, longer by the bytes that it counts.
abbrev IsWrite : TimedCache → Bytes → ℕ → TimedCache → Type 0
IsWrite w bytes n files =
    IsIndexed files × (files.cache ≡ w.cache ++ take n bytes) × (n ≤ length bytes)

grown-IsIndexed :
    (w : TimedCache) (more : Bytes)
    → IsIndexed w
    → IsIndexed (record { cache = w.cache ++ more; index = w.index })
grown-IsIndexed w more h =
    (h.0, EndsBy-mono w.index (omega (arith, length-append w.cache more)) h.1)

entry-IsIndexed :
    (w : TimedCache) (more : Bytes) (e : CacheIndexEntry)
    → IsIndexed w
    → e.offset ≡ length w.cache
    → e.size ≡ length more
    → 0 < length more
    → IsIndexed (record { cache = w.cache ++ more; index = w.index ++ (e ∷ []) })
entry-IsIndexed w more e h at size some_bytes = (
  IsOrdered-append w.index e h.0 (omega arith) (rw at h.1) (omega arith),
  EndsBy-append w.index e (EndsBy-mono w.index (omega (arith, length-append w.cache more)) h.1)
      (omega (arith, length-append w.cache more)),
)

write_chunk-IsWrite :
    (now : ℕ) (disk : Disk) (chunk : TimedChunk) (w : TimedCache)
    → IsIndexed w
    → let r = write_chunk now disk chunk w in IsWrite w chunk.contents r.count r.files
unfolding write_chunk index_entry
write_chunk-IsWrite now disk chunk w h =
    let n = min disk.takes (length chunk.contents) in
    let more = take n chunk.contents in
    let size : length more ≡ n = omega (arith, length-take n chunk.contents) in
    let grown = grown-IsIndexed w more h in
    if_cases (λ (r : Written). IsWrite w chunk.contents r.count r.files) (disk.fails || n == 0) _ _
      (λ t. (grown, refl, omega arith))
      (λ f.
        if_cases (λ (r : Written). IsWrite w chunk.contents r.count r.files) disk.index_fails _ _
          (λ t. (grown, refl, omega arith))
          (λ t. (entry-IsIndexed w more _ h refl (sym size) (ground arith), refl, omega arith)))

-- What a run of writes leaves.
abbrev pub IsRun : TimedCache → Bytes → WroteChunks → Type 0
IsRun w bytes r =
    IsIndexed r.files
    × (r.files.cache ≡ w.cache ++ take r.written bytes)
    × (r.written ≤ length bytes)
    × (r.error ≡ none → r.written ≡ length bytes)

stopped-IsRun :
    (w files : TimedCache) (bytes more : Bytes) (n : ℕ) (r : WroteChunks)
    → IsWrite w bytes n files
    → r.files ≡ files
    → r.written ≡ n
    → r.error ≢ none
    → IsRun w (bytes ++ more) r
stopped-IsRun w files bytes more n r h e f stop = (
  rw e h.0,
  rw (e, f) (h.1 ∙ ap (◌++◌ w.cache) (sym (take-append_front n bytes more h.2))),
  omega (arith, length-append bytes more),
  λ k. absurd (stop k),
)

went_on-IsRun :
    (w files : TimedCache) (bytes more : Bytes) (n : ℕ) (r : WroteChunks)
    → IsWrite w bytes n files
    → n ≡ length bytes
    → IsRun files more r
    → IsRun w (bytes ++ more) (and_written n r)
unfolding and_written
went_on-IsRun w files bytes more n r h e k = (
  k.0,
  k.1
      ∙ ap (λ c. c ++ take r.written more) (h.1 ∙ ap (◌++◌ w.cache) (rw e (take_all bytes)))
      ∙ append_assoc w.cache bytes (take r.written more)
      ∙ ap (◌++◌ w.cache) (sym (rw e (take-append_behind bytes more r.written))),
  omega (arith, length-append bytes more),
  λ t. omega (arith, length-append bytes more, k.3 t),
)

not_empty : (x : ℕ) (rest : Bytes) → ¬ (length (x ∷ rest) ≡ 0)
not_empty x rest h = omega arith

module _ (now : ℕ → ℕ) (disk : ℕ → Disk) where
  write_timed_chunks_round :
      (call : ℕ) (w : TimedCache) (chunk : TimedChunk) (more : Bytes) (rest : WroteChunks)
      → let one = write_chunk (now call) (disk call) chunk w in
        IsIndexed w
        → IsRun one.files more rest
        → IsRun w (chunk.contents ++ more) (
            if one.failed
            then record { written = one.count; error = some refused; files = one.files }
            else if not (one.count == length chunk.contents)
            then record { written = one.count; error = some short_write; files = one.files }
            else and_written one.count rest)
  write_timed_chunks_round call w chunk more rest h k =
      let one = write_chunk (now call) (disk call) chunk w in
      let ok = write_chunk-IsWrite (now call) (disk call) chunk w h in
      if_cases (IsRun w (chunk.contents ++ more)) one.failed _ _
        (λ t. stopped-IsRun w one.files chunk.contents more one.count _ ok refl refl (λ e. cc))
        (λ f.
          if_cases (IsRun w (chunk.contents ++ more)) (not (one.count == length chunk.contents)) _ _
            (λ t. stopped-IsRun w one.files chunk.contents more one.count _ ok refl refl (λ e. cc))
            (λ t. went_on-IsRun w one.files chunk.contents more one.count rest ok (ground arith) k))

  skip_empty :
      (w : TimedCache) (chunk : TimedChunk) (more : Bytes) (r : WroteChunks)
      → length chunk.contents ≡ 0
      → IsRun w more r
      → IsRun w (chunk.contents ++ more) r
  skip_empty w chunk more r e h = elim (List-cases chunk.contents) [
    | inl f ↦ rw f h
    | inr (x, rest, f) ↦ absurd (not_empty x rest (sym (ap length f) ∙ e))
  ]

  -- WriteTimedChunks adds to the cache the front of the chunks' bytes that it counts, all of them
  -- if it gives no error, and leaves the index in order and within the cache, if it was so before,
  -- whatever the file system answers.
  pub write_timed_chunks-IsRun :
      (call : ℕ) (w : TimedCache) (chunks : List TimedChunk)
      → IsIndexed w
      → IsRun w (join_chunks chunks) (write_timed_chunks now disk call w chunks)
  unfolding write_timed_chunks join_chunks
  write_timed_chunks-IsRun call w [] h = (h, sym (append-nil w.cache), omega arith, λ t. refl)
  write_timed_chunks-IsRun call w (chunk ∷ chunks) h =
      elim (Bool-cases (length chunk.contents == 0)) [
        | inl t ↦
            rw (t, write_timed_chunks)
              (skip_empty w chunk (join_chunks chunks) _ (ground arith)
                (write_timed_chunks-IsRun call w chunks h))
        | inr t ↦
            let one = write_chunk (now call) (disk call) chunk w in
            let ok = write_chunk-IsWrite (now call) (disk call) chunk w h in
            rw (t, write_timed_chunks)
              (write_timed_chunks_round call w chunk (join_chunks chunks) _ h
                (write_timed_chunks-IsRun (call + 1) one.files chunks ok.0))
      ]
