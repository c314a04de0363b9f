-- ===== src/Text/Chunks.antt =====
-- The capture of a session in timed chunks: timed_chunks.go. A time is a number, 0 for Go's zero
-- time, and the layout of a timestamp is a parameter. An offset is a number: WriteChunk only
-- writes file positions.
use go_serial_cli.Common.{
  ℕ, ◌+◌, ◌-◌, Bool, true, false, not, ◌||◌, ◌==◌, leb, ltb, if◌then◌else◌, min, max, Bytes, List,
  [], ◌∷◌, ◌++◌, Option, none, some, length, take, drop, reverse,
}

pub record TimedChunk : Type 0 where
  pub at : ℕ
  pub source : Bytes
  pub contents : Bytes

pub record CacheIndexEntry : Type 0 where
  pub at : ℕ
  pub offset : ℕ
  pub size : ℕ
  pub source : Bytes

-- The two files of a capture.
pub record TimedCache : Type 0 where
  pub cache : Bytes
  pub index : List CacheIndexEntry

-- What the file system does with one write: the bytes that it takes, and whether it errs, for the
-- cache and for the index.
pub record Disk : Type 0 where
  pub takes : ℕ
  pub fails : Bool
  pub index_fails : Bool

-- Go's `n, err`, and the files.
pub record Written : Type 0 where
  pub count : ℕ
  pub failed : Bool
  pub files : TimedCache

unfoldable pub index_entry : ℕ → TimedChunk → ℕ → ℕ → CacheIndexEntry
index_entry now chunk offset n = record {
  at = if chunk.at == 0 then now else chunk.at;
  offset = offset;
  size = n;
  source = chunk.source;
}

unfoldable pub write_chunk : ℕ → Disk → TimedChunk → TimedCache → Written
write_chunk now disk chunk w =
    let n = min disk.takes (length chunk.contents) in
    let cache' = w.cache ++ take n chunk.contents in
    if disk.fails || n == 0
    then record {
      count = n;
      failed = disk.fails;
      files = record { cache = cache'; index = w.index };
    }
    else if disk.index_fails
    then record { count = n; failed = true; files = record { cache = cache'; index = w.index } }
    else record {
      count = n;
      failed = false;
      files = record {
        cache = cache';
        index = w.index ++ (index_entry now chunk (length w.cache) n ∷ []);
      };
    }

-- The first error of WriteTimedChunks.
pub data WriteError : Type 0 where
  refused short_write : WriteError

pub record WroteChunks : Type 0 where
  pub written : ℕ
  pub error : Option WriteError
  pub files : TimedCache

unfoldable pub and_written : ℕ → WroteChunks → WroteChunks
and_written n rest = record rest { written = n + rest.written }

-- `call` numbers the writes: the clock and the file system answer each on its own.
module _ (now : ℕ → ℕ) (disk : ℕ → Disk) where
  unfoldable pub write_timed_chunks : ℕ → TimedCache → List TimedChunk → WroteChunks
  write_timed_chunks call w [] = record { written = 0; error = none; files = w }
  write_timed_chunks call w (chunk ∷ chunks) = elim (length chunk.contents == 0) [
    | true ↦ write_timed_chunks call w chunks
    | false ↦
        let one = write_chunk (now call) (disk call) chunk w in
        let rest = write_timed_chunks (call + 1) one.files chunks in
        if one.failed
        then record { written = one.count; error = some refused; files = one.files }
        else if not (one.count == length chunk.contents)
        then record { written = one.count; error = some short_write; files = one.files }
        else and_written one.count rest
  ]

-- Go's `data[a:b]`
unfoldable pub slice : ℕ → ℕ → Bytes → Bytes
slice a b bytes = take (b - a) (drop a bytes)

unfoldable pub join_chunks : List TimedChunk → Bytes
join_chunks [] = []
join_chunks (chunk ∷ chunks) = chunk.contents ++ join_chunks chunks

-- The bytes in front of an entry that no entry covers.
unfoldable pub gap_chunk : Bytes → ℕ → ℕ → CacheIndexEntry → List TimedChunk
gap_chunk bytes start covered entry =
    if ltb covered entry.offset
    then record {
      at = entry.at;
      source = [];
      contents = slice (covered - start) (entry.offset - start) bytes;
    }
      ∷ []
    else []

unfoldable pub entry_outside : ℕ → ℕ → CacheIndexEntry → Bool
entry_outside start end entry = leb (entry.offset + entry.size) start || leb end entry.offset

unfoldable pub overlap_start : ℕ → CacheIndexEntry → ℕ
overlap_start start entry = max start entry.offset

unfoldable pub overlap_end : ℕ → CacheIndexEntry → ℕ
overlap_end end entry = min end (entry.offset + entry.size)

unfoldable pub entry_chunk : Bytes → ℕ → ℕ → CacheIndexEntry → List TimedChunk
entry_chunk bytes start end entry =
    if ltb (overlap_start start entry) (overlap_end end entry)
    then record {
      at = entry.at;
      source = entry.source;
      contents = slice (overlap_start start entry - start) (overlap_end end entry - start) bytes;
    }
      ∷ []
    else []

unfoldable pub next_covered : ℕ → ℕ → ℕ → CacheIndexEntry → ℕ
next_covered start end covered entry =
    if ltb (overlap_start start entry) (overlap_end end entry)
    then overlap_end end entry
    else covered

-- The time for the bytes behind the last entry: that of the last chunk.
unfoldable pub last_at : ℕ → List TimedChunk → ℕ
last_at now [] = now
last_at now (chunk ∷ []) = chunk.at
last_at now (chunk ∷ other ∷ chunks) = last_at now (other ∷ chunks)

unfoldable pub tail_chunk : ℕ → Bytes → ℕ → ℕ → ℕ → List TimedChunk → List TimedChunk
tail_chunk now bytes start end covered chunks =
    if ltb covered end
    then chunks
      ++ (record { at = last_at now chunks; source = []; contents = drop (covered - start) bytes }
          ∷ [])
    else chunks

unfoldable pub cover :
    ℕ → Bytes → ℕ → ℕ → List CacheIndexEntry → ℕ → List TimedChunk → List TimedChunk
cover now bytes start end [] covered chunks = tail_chunk now bytes start end covered chunks
cover now bytes start end (entry ∷ entries) covered chunks = elim (entry_outside start end entry) [
  | true ↦ cover now bytes start end entries covered chunks
  | false ↦
      cover now bytes start end entries (next_covered start end covered entry)
        (chunks ++ (gap_chunk bytes start covered entry ++ entry_chunk bytes start end entry))
]

unfoldable pub whole : ℕ → Bytes → List TimedChunk
whole now bytes = record { at = now; source = []; contents = bytes } ∷ []

unfoldable pub whole_if_none : ℕ → Bytes → List TimedChunk → List TimedChunk
whole_if_none now bytes [] = whole now bytes
whole_if_none now bytes (chunk ∷ chunks) = chunk ∷ chunks

-- The index that could be read: `none` stands for an error of readCacheIndex, which drops the
-- entries without a length itself.
unfoldable pub read_timed_chunks : ℕ → Option (List CacheIndexEntry) → ℕ → Bytes → List TimedChunk
read_timed_chunks now entries start [] = []
read_timed_chunks now none start (b ∷ rest) = whole now (b ∷ rest)
read_timed_chunks now (some []) start (b ∷ rest) = whole now (b ∷ rest)
read_timed_chunks now (some (entry ∷ entries)) start (b ∷ rest) =
    whole_if_none now (b ∷ rest)
      (cover now (b ∷ rest) start (start + length (b ∷ rest)) (entry ∷ entries) start [])

unfoldable pub read_cache_index : List CacheIndexEntry → List CacheIndexEntry
read_cache_index [] = []
read_cache_index (entry ∷ entries) =
    if entry.size == 0 then read_cache_index entries else entry ∷ read_cache_index entries

-- The loop of lastLinesStart over the bytes from the last to the first.
unfoldable pub last_lines_loop : ℕ → ℕ → Bytes → ℕ
last_lines_loop max_lines lines [] = 0
last_lines_loop max_lines lines (c ∷ before) = elim (c == 0x0a) [
  | false ↦ last_lines_loop max_lines lines before
  | true ↦ elim (ltb max_lines (lines + 1)) [
    | true ↦ length before + 1
    | false ↦ last_lines_loop max_lines (lines + 1) before
  ]
]

unfoldable pub last_lines_start : Bytes → ℕ → ℕ
last_lines_start bytes max_lines =
    if max_lines == 0 then 0 else last_lines_loop max_lines 0 (reverse bytes)

-- monitor.go
unfoldable pub tail_lines : Bytes → ℕ → Bytes
tail_lines bytes max_lines = drop (last_lines_start bytes max_lines) bytes

unfoldable pub slice_chunk : ℕ → ℕ → ℕ → TimedChunk → List TimedChunk
slice_chunk pos start end chunk =
    let chunk_end = pos + length chunk.contents in
    if leb chunk_end start || leb end pos
    then []
    else if ltb (max start pos) (min end chunk_end)
    then record {
      at = chunk.at;
      source = [];
      contents = slice (max start pos - pos) (min end chunk_end - pos) chunk.contents;
    }
      ∷ []
    else []

unfoldable pub slice_chunks : ℕ → List TimedChunk → ℕ → ℕ → List TimedChunk
slice_chunks pos [] start end = []
slice_chunks pos (chunk ∷ chunks) start end =
    slice_chunk pos start end chunk ++ slice_chunks (pos + length chunk.contents) chunks start end

unfoldable pub last_line_chunks : List TimedChunk → ℕ → List TimedChunk
last_line_chunks chunks max_lines =
    let bytes = join_chunks chunks in
    let start = last_lines_start bytes max_lines in
    if max_lines == 0 || start == 0 then chunks else slice_chunks 0 chunks start (length bytes)
