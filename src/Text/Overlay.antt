-- ===== src/Text/Overlay.antt =====
-- `txLineAssembler` of txoverlay.go: another sender's bytes, shown line by line. A time is a number
-- of milliseconds, and each method returns what it prints.
use go_serial_cli.Common.{
  ℕ, ◌-◌, true, false, ◌||◌, ◌==◌, ltb, if◌then◌else◌, Bytes, [], ◌∷◌, ◌++◌, length,
}
use go_serial_cli.Text.Display.{escape_display_line}
use go_serial_cli.Text.Monitor.{trim_return}

abbrev pub tx_overlay_idle_flush : ℕ
tx_overlay_idle_flush = 100

abbrev pub tx_overlay_line_limit : ℕ
tx_overlay_line_limit = 64

abbrev pub tx_overlay_pending_limit : ℕ
tx_overlay_pending_limit = 4096

pub record LineAssembler : Type 0 where
  pub source : Bytes
  pub pending : Bytes
  pub last_feed : ℕ

-- "[source→] line", the arrow in UTF-8.
unfoldable pub emit : Bytes → Bytes → Bytes
emit source line =
    let shown = trim_return line in
    if length shown == 0
    then []
    else (b'[' ∷ source)
      ++ ((0xe2 ∷ 0x86 ∷ 0x92 ∷ b']' ∷ 0x20 ∷ [])
          ++ (escape_display_line shown tx_overlay_line_limit ++ (0x0a ∷ [])))

-- The loop on the first newline of the pending bytes: what it prints, and the bytes behind the
-- last newline. `line` holds the bytes since the newline before.
unfoldable pub feed_lines : Bytes → Bytes → Bytes → Bytes × Bytes
feed_lines source line [] = ([], line)
feed_lines source line (c ∷ rest) = elim (c == 0x0a) [
  | true ↦ let r = feed_lines source [] rest in (emit source line ++ r.0, r.1)
  | false ↦ feed_lines source (line ++ (c ∷ [])) rest
]

unfoldable pub feed : ℕ → Bytes → LineAssembler → Bytes × LineAssembler
feed now fed a =
    let r = feed_lines a.source [] (a.pending ++ fed) in
    if ltb tx_overlay_pending_limit (length r.1)
    then (r.0 ++ emit a.source r.1, record a { pending = []; last_feed = now })
    else (r.0, record a { pending = r.1; last_feed = now })

unfoldable pub flush_if_idle : ℕ → LineAssembler → Bytes × LineAssembler
flush_if_idle now a =
    if length a.pending == 0 || ltb (now - a.last_feed) tx_overlay_idle_flush
    then ([], a)
    else (emit a.source a.pending, record a { pending = [] })
