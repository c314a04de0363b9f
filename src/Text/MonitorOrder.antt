-- ===== src/Text/MonitorOrder.antt =====
-- The order in which MergeMonitorChunks of monitor.go puts what was received and what was sent.
use go_serial_cli.Common.{
  ℕ, ◌≤◌, ◌≡◌, refl, sym, ap, ◌∙◌, Bool, true, false, ltb, if◌then◌else◌, List, [], ◌∷◌, ◌++◌, map,
  arith, Bool-cases, inl, inr, All, if_cases, append-nil,
}
use go_serial_cli.Text.Chunks.{TimedChunk}
use go_serial_cli.Text.Monitor.{
  Direction, rx, tx, MonitorChunk, directed, insert_chunk, sort_chunks, merge_monitor_chunks,
}

-- No chunk stands behind a later one.
abbrev pub IsTimed : List MonitorChunk → Type 0
IsTimed [] = Unit
IsTimed (c ∷ cs) = All (λ (d : MonitorChunk). c.chunk.at ≤ d.chunk.at) cs × IsTimed cs

abbrev pub IsTimedCapture : List TimedChunk → Type 0
IsTimedCapture [] = Unit
IsTimedCapture (c ∷ cs) = All (λ (d : TimedChunk). c.at ≤ d.at) cs × IsTimedCapture cs

abbrev same_direction : Direction → Direction → Bool
same_direction rx rx = true
same_direction tx tx = true
same_direction _ _ = false

-- What one direction contributed to a merged view.
unfoldable pub chunks_of : Direction → List MonitorChunk → List TimedChunk
chunks_of direction [] = []
chunks_of direction (c ∷ cs) =
    let rest = chunks_of direction cs in
    if same_direction direction c.direction then c.chunk ∷ rest else rest

All-insert_chunk :
    (P : MonitorChunk → Type 0) (c : MonitorChunk) (cs : List MonitorChunk)
    → P c
    → All P cs
    → All P (insert_chunk c cs)
unfolding insert_chunk
All-insert_chunk P c [] p h = (p, tt)
All-insert_chunk P c (d ∷ ds) p h =
    if_cases (All P) (ltb d.chunk.at c.chunk.at) _ _ (λ t. (h.0, All-insert_chunk P c ds p h.1))
      (λ t. (p, h))

All-later :
    {a b : ℕ} (cs : List MonitorChunk)
    → a ≤ b
    → All (λ (d : MonitorChunk). b ≤ d.chunk.at) cs
    → All (λ (d : MonitorChunk). a ≤ d.chunk.at) cs
All-later [] h k = tt
All-later (c ∷ cs) h k = (omega (arith, k.0), All-later cs h k.1)

insert_chunk-IsTimed :
    (c : MonitorChunk) (cs : List MonitorChunk) → IsTimed cs → IsTimed (insert_chunk c cs)
unfolding insert_chunk
insert_chunk-IsTimed c [] h = (tt, tt)
insert_chunk-IsTimed c (d ∷ ds) h =
    if_cases IsTimed (ltb d.chunk.at c.chunk.at) _ _
      (λ t. (
        All-insert_chunk (λ (e : MonitorChunk). d.chunk.at ≤ e.chunk.at) c ds (ground arith) h.0,
        insert_chunk-IsTimed c ds h.1,
      ))
      (λ t. ((ground arith, All-later ds (ground arith) h.0), h))

sort_chunks-IsTimed : (cs : List MonitorChunk) → IsTimed (sort_chunks cs)
unfolding sort_chunks
sort_chunks-IsTimed [] = tt
sort_chunks-IsTimed (c ∷ cs) = insert_chunk-IsTimed c (sort_chunks cs) (sort_chunks-IsTimed cs)

-- Insertion on one direction alone.
insert_timed : TimedChunk → List TimedChunk → List TimedChunk
insert_timed c [] = c ∷ []
insert_timed c (d ∷ ds) =
    let rest = insert_timed c ds in if ltb d.at c.at then d ∷ rest else c ∷ d ∷ ds

sort_timed : List TimedChunk → List TimedChunk
sort_timed [] = []
sort_timed (c ∷ cs) = insert_timed c (sort_timed cs)

All-chunks_of :
    (n : ℕ) (direction : Direction) (cs : List MonitorChunk)
    → All (λ (d : MonitorChunk). n ≤ d.chunk.at) cs
    → All (λ (d : TimedChunk). n ≤ d.at) (chunks_of direction cs)
unfolding chunks_of
All-chunks_of n direction [] h = tt
All-chunks_of n direction (c ∷ cs) h =
    if_cases (All (λ (d : TimedChunk). n ≤ d.at)) (same_direction direction c.direction) _ _
      (λ t. (h.0, All-chunks_of n direction cs h.1)) (λ f. All-chunks_of n direction cs h.1)

insert_timed_front :
    (c : TimedChunk) (cs : List TimedChunk)
    → All (λ (d : TimedChunk). c.at ≤ d.at) cs
    → insert_timed c cs ≡ c ∷ cs
unfolding insert_timed
insert_timed_front c [] h = refl
insert_timed_front c (d ∷ ds) h = ground (arith, h.0)

chunks_of-insert_other :
    (direction : Direction) (c : MonitorChunk) (cs : List MonitorChunk)
    → same_direction direction c.direction ≡ false
    → chunks_of direction (insert_chunk c cs) ≡ chunks_of direction cs
unfolding chunks_of insert_chunk
chunks_of-insert_other direction c [] h = rw h refl
chunks_of-insert_other direction c (d ∷ ds) h =
    ground (arith, chunks_of-insert_other direction c ds h)

chunks_of-insert_same :
    (direction : Direction) (c : MonitorChunk) (cs : List MonitorChunk)
    → same_direction direction c.direction ≡ true
    → IsTimed cs
    → chunks_of direction (insert_chunk c cs) ≡ insert_timed c.chunk (chunks_of direction cs)
unfolding chunks_of insert_chunk insert_timed
chunks_of-insert_same direction c [] h o = rw h refl
chunks_of-insert_same direction c (d ∷ ds) h o = elim (Bool-cases (ltb d.chunk.at c.chunk.at)) [
  | inl t ↦ ground (arith, chunks_of-insert_same direction c ds h o.1)
  | inr f ↦
      let front = insert_timed_front c.chunk (chunks_of direction (d ∷ ds)) (
        All-chunks_of c.chunk.at direction (d ∷ ds)
          (ground arith, All-later ds (ground arith) o.0)) in
      ground (arith, front)
]

chunks_of-sort_chunks :
    (direction : Direction) (cs : List MonitorChunk)
    → chunks_of direction (sort_chunks cs) ≡ sort_timed (chunks_of direction cs)
unfolding chunks_of sort_chunks sort_timed
chunks_of-sort_chunks direction [] = refl
chunks_of-sort_chunks direction (c ∷ cs) =
    elim (Bool-cases (same_direction direction c.direction)) [
      | inl t ↦
          chunks_of-insert_same direction c (sort_chunks cs) t (sort_chunks-IsTimed cs)
          ∙ ap (insert_timed c.chunk) (chunks_of-sort_chunks direction cs)
          ∙ sym (rw t refl)
      | inr f ↦
          chunks_of-insert_other direction c (sort_chunks cs) f
          ∙ chunks_of-sort_chunks direction cs
          ∙ sym (rw f refl)
    ]

sort_timed_same : (cs : List TimedChunk) → IsTimedCapture cs → sort_timed cs ≡ cs
unfolding sort_timed
sort_timed_same [] h = refl
sort_timed_same (c ∷ cs) h =
    ap (insert_timed c) (sort_timed_same cs h.1) ∙ insert_timed_front c cs h.0

chunks_of-append :
    (direction : Direction) (xs ys : List MonitorChunk)
    → chunks_of direction (xs ++ ys) ≡ chunks_of direction xs ++ chunks_of direction ys
unfolding chunks_of
chunks_of-append direction [] ys = refl
chunks_of-append direction (c ∷ xs) ys = ground (arith, chunks_of-append direction xs ys)

chunks_of-map_same :
    (d : Direction) (cs : List TimedChunk)
    → same_direction d d ≡ true
    → chunks_of d (map (directed d) cs) ≡ cs
unfolding chunks_of directed
chunks_of-map_same d [] h = refl
chunks_of-map_same d (c ∷ cs) h = rw h (ap (◌∷◌ c) (chunks_of-map_same d cs h))

chunks_of-map_other :
    (d e : Direction) (cs : List TimedChunk)
    → same_direction d e ≡ false
    → chunks_of d (map (directed e) cs) ≡ []
unfolding chunks_of directed
chunks_of-map_other d e [] h = refl
chunks_of-map_other d e (c ∷ cs) h = rw h (chunks_of-map_other d e cs h)

chunks_of-merge :
    (d : Direction) (received sent : List TimedChunk) {cs : List TimedChunk}
    → chunks_of d (map (directed tx) sent) ++ chunks_of d (map (directed rx) received) ≡ cs
    → IsTimedCapture cs
    → chunks_of d (merge_monitor_chunks received sent) ≡ cs
unfolding merge_monitor_chunks
chunks_of-merge d received sent {cs} e h =
    chunks_of-sort_chunks d (map (directed tx) sent ++ map (directed rx) received)
    ∙ ap sort_timed (chunks_of-append d (map (directed tx) sent) (map (directed rx) received) ∙ e)
    ∙ sort_timed_same cs h

-- Of two captures in the order of time MergeMonitorChunks makes one view in the order of time, in
-- which the received chunks and the sent chunks are each those captured, in their order.
pub merge_monitor_chunks_lem :
    (received sent : List TimedChunk)
    → IsTimedCapture received
    → IsTimedCapture sent
    → let merged = merge_monitor_chunks received sent in
      IsTimed merged × (chunks_of rx merged ≡ received) × (chunks_of tx merged ≡ sent)
unfolding merge_monitor_chunks
merge_monitor_chunks_lem received sent h k = (
  sort_chunks-IsTimed _,
  chunks_of-merge rx received sent
      (rw (chunks_of-map_other rx tx sent refl) (chunks_of-map_same rx received refl)) h,
  chunks_of-merge tx received sent
      (rw (chunks_of-map_other tx rx received refl, chunks_of-map_same tx sent refl)
        (append-nil sent))
      k,
)
