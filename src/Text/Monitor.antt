-- ===== src/Text/Monitor.antt =====
-- The monitor's view of a session, what was received and what was sent in the order of time:
-- monitor.go, and the text output of timed_chunks.go.
use go_serial_cli.Common.{
  ℕ, Bool, ◌==◌, ltb, if◌then◌else◌, Bytes, List, [], ◌∷◌, ◌++◌, length, map,
}
use go_serial_cli.Text.HexPayload.{format_hex_bytes}
use go_serial_cli.Text.Chunks.{TimedChunk}
use go_serial_cli.Text.Display.{escape_display_line}

pub data Direction : Type 0 where
  rx tx : Direction

pub record MonitorChunk : Type 0 where
  pub chunk : TimedChunk
  pub direction : Direction

unfoldable pub directed : Direction → TimedChunk → MonitorChunk
directed direction chunk = record { chunk = chunk; direction = direction }

-- Go's stable sort: a chunk goes in front of the first one that is not before it.
unfoldable pub insert_chunk : MonitorChunk → List MonitorChunk → List MonitorChunk
insert_chunk c [] = c ∷ []
insert_chunk c (d ∷ ds) =
    let rest = insert_chunk c ds in if ltb d.chunk.at c.chunk.at then d ∷ rest else c ∷ d ∷ ds

unfoldable pub sort_chunks : List MonitorChunk → List MonitorChunk
sort_chunks [] = []
sort_chunks (c ∷ cs) = insert_chunk c (sort_chunks cs)

unfoldable pub merge_monitor_chunks : List TimedChunk → List TimedChunk → List MonitorChunk
merge_monitor_chunks received sent =
    sort_chunks (map (directed tx) sent ++ map (directed rx) received)

unfoldable pub monitor_tag : MonitorChunk → Bytes
monitor_tag c = elim c.direction [
  | rx ↦ b'R' ∷ b'X' ∷ []
  | tx ↦ elim c.chunk.source [
    | [] ↦ b'T' ∷ b'X' ∷ []
    | s ∷ source ↦ (b'T' ∷ b'X' ∷ b'[' ∷ []) ++ ((s ∷ source) ++ (b']' ∷ []))
  ]
]

unfoldable pub first_on_line : ℕ → List Bytes → List Bytes
first_on_line c [] = (c ∷ []) ∷ []
first_on_line c (line ∷ lines) = (c ∷ line) ∷ lines

-- The lines of a chunk without their newlines; a chunk that ends with one has no line behind it.
unfoldable pub split_lines : Bytes → List Bytes
split_lines [] = []
split_lines (c ∷ rest) =
    let lines = split_lines rest in if c == 0x0a then [] ∷ lines else first_on_line c lines

unfoldable pub trim_return : Bytes → Bytes
trim_return [] = []
trim_return (c ∷ []) = if c == 0x0d then [] else c ∷ []
trim_return (c ∷ d ∷ rest) = c ∷ trim_return (d ∷ rest)

unfoldable pub trim_newline : Bytes → Bytes
trim_newline [] = []
trim_newline (c ∷ []) = if c == 0x0a then [] else c ∷ []
trim_newline (c ∷ d ∷ rest) = c ∷ trim_newline (d ∷ rest)

-- Go's format of a time is a parameter.
module _ (format_timestamp : ℕ → Bytes) where
  unfoldable pub monitor_line : MonitorChunk → Bytes → Bytes
  monitor_line c shown =
      format_timestamp c.chunk.at ++ (0x20 ∷ (monitor_tag c ++ (0x20 ∷ (shown ++ (0x0a ∷ [])))))

  unfoldable pub write_monitor_lines : MonitorChunk → List Bytes → Bytes
  write_monitor_lines c [] = []
  write_monitor_lines c (line ∷ lines) =
      monitor_line c (escape_display_line (trim_return line) 0) ++ write_monitor_lines c lines

  unfoldable pub write_monitor_text_chunk : MonitorChunk → Bytes
  write_monitor_text_chunk c = write_monitor_lines c (split_lines c.chunk.contents)

  unfoldable pub monitor_hex_chunk : MonitorChunk → Bytes
  monitor_hex_chunk c = monitor_line c (trim_newline (format_hex_bytes c.chunk.contents))

  unfoldable pub format_monitor_chunks : List MonitorChunk → Bool → Bytes
  format_monitor_chunks [] output_hex = []
  format_monitor_chunks (c ∷ chunks) output_hex =
      let rest = format_monitor_chunks chunks output_hex in
      if length c.chunk.contents == 0
      then rest
      else if output_hex
      then monitor_hex_chunk c ++ rest
      else write_monitor_text_chunk c ++ rest
