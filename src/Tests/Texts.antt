-- ===== src/Tests/Texts.antt =====
-- Payloads, captures and the monitor's view at concrete inputs.
use go_serial_cli.Common.{
  ◌≡◌, refl, false, ℕ, zero, suc, Bytes, List, [], ◌∷◌, ◌++◌, some, arith, min, length, ◌≤◌,
}
use go_serial_cli.Text.Payload.{
  parse_payload, parse_from, piece_at, piece_result, piece_skip, prepend, escape_piece, hex_escape,
  hex_value, control_escape, upper_case, parsed, bad_hex_escape,
}
use go_serial_cli.Text.HexPayload.{
  parse_hex_payload, format_hex_bytes, bytes, collect_digits, token_digits, token_byte,
  starts_with_x, is_hex_digit, behind, payload_of_digits, decode_string, decoded,
}
use go_serial_cli.Text.Display.{escape_display_line}
use go_serial_cli.Text.PayloadBounds.{IsParsed, parse_payload-IsParsed}
use go_serial_cli.Text.HexPayloadRoundTrip.{parse_hex_payload-format_hex_bytes}
use go_serial_cli.Text.DisplayRoundTrip.{parse_payload-escape_display_line}
use go_serial_cli.Text.Chunks.{
  TimedChunk, CacheIndexEntry, TimedCache, Disk, join_chunks, read_timed_chunks, write_timed_chunks,
  tail_lines, last_line_chunks,
}
use go_serial_cli.Text.ChunksCover.{join_chunks-read_timed_chunks}
use go_serial_cli.Text.ChunksWrite.{IsRun, write_timed_chunks-IsRun}
use go_serial_cli.Text.LastLines.{
  count_newlines, count_newlines-tail_lines, join_chunks-last_line_chunks,
}
use go_serial_cli.Text.Monitor.{rx, tx, merge_monitor_chunks}
use go_serial_cli.Text.MonitorOrder.{IsTimed, chunks_of, merge_monitor_chunks_lem}
use go_serial_cli.Text.Overlay.{LineAssembler, feed_lines, feed}
use go_serial_cli.Text.OverlayChunks.{IsLine, feed-append, feed-IsLine}

-- A\x1b\cCz
abbrev typed : Bytes
typed = b'A' ∷ b'\\' ∷ b'x' ∷ b'1' ∷ b'b' ∷ b'\\' ∷ b'c' ∷ b'c' ∷ b'z' ∷ []

parse_typed : parse_payload typed ≡ parsed (b'A' ∷ 0x1b ∷ 0x03 ∷ b'z' ∷ [])
unfolding parse_payload parse_from piece_at piece_result piece_skip prepend escape_piece hex_escape
    hex_value control_escape upper_case
parse_typed = refl

parse_cut_escape : parse_payload (b'A' ∷ b'\\' ∷ b'x' ∷ b'1' ∷ []) ≡ bad_hex_escape 1
unfolding parse_payload parse_from piece_at piece_result piece_skip prepend escape_piece hex_escape
parse_cut_escape = refl

parse_hex_tokens :
    parse_hex_payload ((b'0' ∷ b'x' ∷ b'4' ∷ b'f' ∷ b',' ∷ []) ∷ (b'4' ∷ b'B' ∷ []) ∷ [])
    ≡ bytes (0x4f ∷ 0x4b ∷ [])
unfolding parse_hex_payload collect_digits token_digits token_byte starts_with_x is_hex_digit behind
    payload_of_digits decode_string decoded hex_value
parse_hex_tokens = refl

parse_payload-IsParsed_example : IsParsed 0 9 (parse_payload typed)
parse_payload-IsParsed_example = parse_payload-IsParsed typed (
  omega arith,
  (
    omega arith,
    (
      omega arith,
      (omega arith, (omega arith, (omega arith, (omega arith, (omega arith, (omega arith, tt)))))),
    ),
  ),
)

parse_hex_payload-format_hex_bytes_example :
    parse_hex_payload (format_hex_bytes (0x00 ∷ 0xfe ∷ []) ∷ []) ≡ bytes (0x00 ∷ 0xfe ∷ [])
parse_hex_payload-format_hex_bytes_example =
    parse_hex_payload-format_hex_bytes 0x00 (0xfe ∷ []) (omega arith, (omega arith, tt))

parse_payload-escape_display_line_example :
    parse_payload (escape_display_line (b'o' ∷ 0x1b ∷ 0xff ∷ []) 0)
    ≡ parsed (b'o' ∷ 0x1b ∷ 0xff ∷ [])
parse_payload-escape_display_line_example =
    parse_payload-escape_display_line (b'o' ∷ 0x1b ∷ 0xff ∷ [])
      (omega arith, (omega arith, (omega arith, tt)))
      ((λ e. omega arith), ((λ e. omega arith), ((λ e. omega arith), tt)))

abbrev chunk_at : ℕ → Bytes → TimedChunk
chunk_at at contents = record { at = at; source = []; contents = contents }

abbrev entry_at : ℕ → ℕ → ℕ → CacheIndexEntry
entry_at at offset size = record { at = at; offset = offset; size = size; source = [] }

abbrev index : List CacheIndexEntry
index = entry_at 5 0 4 ∷ entry_at 6 6 3 ∷ []

-- Bytes 2 to 11 of a cache whose index has a gap and ends early.
abbrev window : Bytes
window = 12 ∷ 13 ∷ 14 ∷ 15 ∷ 16 ∷ 17 ∷ 18 ∷ 19 ∷ 20 ∷ []

join_chunks-read_timed_chunks_example :
    join_chunks (read_timed_chunks 9 (some index) 2 window) ≡ window
join_chunks-read_timed_chunks_example =
    join_chunks-read_timed_chunks 9 2 index window
      (omega arith, omega arith, (omega arith, omega arith, tt))

-- The second write takes one byte of two.
abbrev disk : ℕ → Disk
disk zero = record { takes = 10; fails = false; index_fails = false }
disk (suc n) = record { takes = 1; fails = false; index_fails = false }

abbrev written_chunks : List TimedChunk
written_chunks = chunk_at 1 (0x61 ∷ []) ∷ chunk_at 2 (0x62 ∷ 0x63 ∷ []) ∷ []

abbrev new_cache : TimedCache
new_cache = record { cache = []; index = [] }

write_timed_chunks-IsRun_example :
    IsRun new_cache
      (join_chunks written_chunks)
      (write_timed_chunks (λ n. n) disk 0 new_cache written_chunks)
write_timed_chunks-IsRun_example =
    write_timed_chunks-IsRun (λ n. n) disk 0 new_cache written_chunks (tt, tt)

abbrev two_lines : Bytes
two_lines = 0x61 ∷ 0x0a ∷ 0x62 ∷ 0x0a ∷ 0x63 ∷ []

count_newlines-tail_lines_example :
    count_newlines (tail_lines two_lines 1) ≡ min 1 (count_newlines two_lines)
count_newlines-tail_lines_example = count_newlines-tail_lines 1 two_lines (omega arith)

abbrev line_chunks : List TimedChunk
line_chunks = chunk_at 1 (0x61 ∷ 0x0a ∷ 0x62 ∷ []) ∷ chunk_at 2 (0x0a ∷ 0x63 ∷ []) ∷ []

join_chunks-last_line_chunks_example :
    join_chunks (last_line_chunks line_chunks 1) ≡ tail_lines (join_chunks line_chunks) 1
join_chunks-last_line_chunks_example = join_chunks-last_line_chunks line_chunks 1

abbrev received : List TimedChunk
received = chunk_at 1 (0x61 ∷ []) ∷ chunk_at 3 (0x62 ∷ []) ∷ []

abbrev sent : List TimedChunk
sent = chunk_at 1 (0x63 ∷ []) ∷ chunk_at 2 (0x64 ∷ []) ∷ []

merge_monitor_chunks_lem_example :
    let merged = merge_monitor_chunks received sent in
    IsTimed merged × (chunks_of rx merged ≡ received) × (chunks_of tx merged ≡ sent)
merge_monitor_chunks_lem_example =
    merge_monitor_chunks_lem received sent ((omega arith, tt), (tt, tt))
      ((omega arith, tt), (tt, tt))

abbrev assembler : LineAssembler
assembler = record { source = b't' ∷ []; pending = 0x61 ∷ []; last_feed = 0 }

-- The line "ab" in two pieces, and the start of the next.
feed-append_example :
    let first = feed 1 (0x62 ∷ 0x0d ∷ []) assembler in
    let second = feed 2 (0x0a ∷ 0x63 ∷ []) first.1 in
    feed 2 (0x62 ∷ 0x0d ∷ 0x0a ∷ 0x63 ∷ []) assembler ≡ (first.0 ++ second.0, second.1)
unfolding feed_lines
feed-append_example = feed-append 1 2 (0x62 ∷ 0x0d ∷ []) (0x0a ∷ 0x63 ∷ []) assembler (omega arith)

feed-IsLine_example :
    let left = (feed 1 (0x62 ∷ 0x0a ∷ 0x63 ∷ []) assembler).1 in
    IsLine left.pending × (length left.pending ≤ 4096)
feed-IsLine_example = feed-IsLine 1 (0x62 ∷ 0x0a ∷ 0x63 ∷ []) assembler
