-- ===== src/Shell/Detector.antt =====
-- `zDetector` of zmodem_shell.go: it looks for the hex header with which a device starts a transfer.
use go_serial_cli.Common.{
  ℕ, Bool, true, false, ◌&&◌, ◌||◌, ◌==◌, ltb, if◌then◌else◌, Bytes, [], ◌∷◌, ◌++◌, Option, none,
  some, length, take,
}
use go_serial_cli.Zmodem.Header.{Header, z_pad, z_dle, z_hex, z_rqinit, z_rinit}
use go_serial_cli.Zmodem.Encode.{z_hex_value, decode_hex_header_digits}

-- What stands at a ZPAD: the front of what may become a header, nothing, or a header of a type.
pub data Verdict : Type 0 where
  held passed : Verdict
  found : ℕ → Verdict

unfoldable pub is_z_hex_digit : ℕ → Bool
is_z_hex_digit c = elim (z_hex_value c) [ none ↦ false | some v ↦ true ]

unfoldable pub all_hex_digits : Bytes → Bool
all_hex_digits [] = true
all_hex_digits (c ∷ cs) = is_z_hex_digit c && all_hex_digits cs

-- `zCouldBeHexHeader`, on what stands behind the pads.
unfoldable pub z_could_be_hex_header : Bytes → Bool
z_could_be_hex_header [] = true
z_could_be_hex_header (a ∷ []) = a == z_dle
z_could_be_hex_header (a ∷ b ∷ digits) = a == z_dle && b == z_hex && all_hex_digits digits

unfoldable pub starts_transfer : Option Header → Verdict
starts_transfer none = passed
starts_transfer (some h) =
    if h.frame_type == z_rqinit || h.frame_type == z_rinit then found h.frame_type else passed

unfoldable pub whole_header : Bytes → Verdict
whole_header [] = passed
whole_header (a ∷ []) = passed
whole_header (a ∷ b ∷ digits) =
    if a == z_dle && b == z_hex
    then starts_transfer (decode_hex_header_digits (take 14 digits))
    else passed

unfoldable pub judge : Bytes → Verdict
judge rest =
    if ltb (length rest) 16
    then (if z_could_be_hex_header rest then held else passed)
    else whole_header rest

-- Behind the first ZPAD there may be a second one.
unfoldable pub judge_behind_pad : Bytes → Verdict
judge_behind_pad [] = judge []
judge_behind_pad (y ∷ ys) = if y == z_pad then judge ys else judge (y ∷ ys)

pub record Fed : Type 0 where
  pub shown : Bytes
  pub hold : Bytes
  pub header : Option ℕ

unfoldable pub show_first : ℕ → Fed → Fed
show_first x r = record r { shown = x ∷ r.shown }

unfoldable pub at_pad : Bytes → Verdict → Fed → Fed
at_pad here held r = record { shown = []; hold = here; header = none }
at_pad here (found t) r = record { shown = []; hold = []; header = some t }
at_pad [] passed r = r
at_pad (x ∷ xs) passed r = show_first x r

-- The loop of feed.
unfoldable pub search : Bytes → Fed
search [] = record { shown = []; hold = []; header = none }
search (x ∷ xs) =
    let rest = search xs in
    if x == z_pad then at_pad (x ∷ xs) (judge_behind_pad xs) rest else show_first x rest

-- bytes.TrimSuffix with "rz\r".
unfoldable pub trim_rz : Bytes → Bytes
trim_rz [] = []
trim_rz (a ∷ []) = a ∷ []
trim_rz (a ∷ b ∷ []) = a ∷ b ∷ []
trim_rz (a ∷ b ∷ c ∷ []) = if a == 114 && b == 122 && c == 13 then [] else a ∷ b ∷ c ∷ []
trim_rz (a ∷ b ∷ c ∷ d ∷ rest) = a ∷ trim_rz (b ∷ c ∷ d ∷ rest)

unfoldable pub trim_if_found : Option ℕ → Bytes → Bytes
trim_if_found none bytes = bytes
trim_if_found (some t) bytes = trim_rz bytes

unfoldable pub trimmed : Fed → Fed
trimmed r = record r { shown = trim_if_found r.header r.shown }

-- The first argument is what the detector holds; `flush` shows it.
unfoldable pub feed : Bytes → Bytes → Fed
feed hold data' = trimmed (search (hold ++ data'))
