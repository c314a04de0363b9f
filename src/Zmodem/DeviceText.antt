-- ===== src/Zmodem/DeviceText.antt =====
-- The device's text lines around a session: `cleanDeviceLine` and `isDeviceTextLine` of
-- zmodem_link.go, and the `strings.TrimSpace` that they call, on UTF-8 bytes.
use go_serial_cli.Common.{
  ℕ, zero, suc, ◌+◌, ◌*◌, ◌-◌, Bool, true, false, ◌&&◌, ◌||◌, ◌==◌, leb, ltb, if◌then◌else◌, Bytes,
  [], ◌∷◌, ◌++◌, length, take, reverse,
}

abbrev pub within : ℕ → ℕ → ℕ → Bool
within lo hi c = leb lo c && leb c hi

-- ASCII white space: \t \n \v \f \r and the blank
abbrev is_ascii_space : ℕ → Bool
is_ascii_space c = within 9 13 c || c == 0x20

-- U+0085 and U+00A0
abbrev is_space2 : ℕ → ℕ → Bool
is_space2 a b = a == 0xc2 && (b == 0x85 || b == 0xa0)

-- U+1680, U+2000 to U+200A, U+2028, U+2029, U+202F, U+205F and U+3000
abbrev is_space3 : ℕ → ℕ → ℕ → Bool
is_space3 a b c =
    (a == 0xe1 && b == 0x9a && c == 0x80)
    || (a == 0xe2 && b == 0x80 && (within 0x80 0x8a c || c == 0xa8 || c == 0xa9 || c == 0xaf))
    || (a == 0xe2 && b == 0x81 && c == 0x9f)
    || (a == 0xe3 && b == 0x80 && c == 0x80)

-- How many bytes the white space at the front takes, 0 where there is none.
space_width : Bytes → ℕ
space_width [] = 0
space_width (a ∷ []) = if is_ascii_space a then 1 else 0
space_width (a ∷ b ∷ []) = if is_ascii_space a then 1 else if is_space2 a b then 2 else 0
space_width (a ∷ b ∷ c ∷ _) =
    if is_ascii_space a then 1 else if is_space2 a b then 2 else if is_space3 a b c then 3 else 0

-- The same at the end, on the bytes in reverse.
space_width_back : Bytes → ℕ
space_width_back [] = 0
space_width_back (a ∷ []) = if is_ascii_space a then 1 else 0
space_width_back (b ∷ a ∷ []) = if is_ascii_space b then 1 else if is_space2 a b then 2 else 0
space_width_back (c ∷ b ∷ a ∷ _) =
    if is_ascii_space c then 1 else if is_space2 b c then 2 else if is_space3 a b c then 3 else 0

-- `skip` bytes are known to be white space.
trim_front : (Bytes → ℕ) → ℕ → Bytes → Bytes
trim_front width skip [] = []
trim_front width (suc skip) (c ∷ cs) = trim_front width skip cs
trim_front width zero (c ∷ cs) = elim (width (c ∷ cs)) [
  | zero ↦ c ∷ cs
  | suc k ↦ trim_front width k cs
]

unfoldable pub trim_space : Bytes → Bytes
unfolding trim_front space_width space_width_back
trim_space s = reverse (trim_front space_width_back 0 (reverse (trim_front space_width 0 s)))

-- Where the loop of `cleanDeviceLine` stands: in text, behind ESC, or in a control sequence whose
-- parameters so far are given.
pub data CleanMode : Type 0 where
  text behind_escape : CleanMode
  in_sequence : Bytes → CleanMode

-- The count of CSI n D; 0 stands for the -1 of a byte that is no digit, and either erases one byte.
-- Go counts in a 64-bit int, which a parameter of 19 digits or more would overflow; here n is exact.
cursor_count : ℕ → Bytes → ℕ
cursor_count n [] = n
cursor_count n (d ∷ ds) = elim (within b'0' b'9' d) [
  | true ↦ cursor_count (n * 10 + (d - b'0')) ds
  | false ↦ 0
]

-- Cursor-left erases the bytes before it. The final byte of a sequence is in 0x40 to 0x7e.
unfoldable pub end_sequence : Bytes → ℕ → Bytes → Bytes
unfolding cursor_count
end_sequence params final b =
    if final == b'D'
    then (let n = cursor_count 0 params in take (length b - (if n == 0 then 1 else n)) b)
    else b

unfoldable pub clean_from : CleanMode → Bytes → Bytes → Bytes
clean_from mode b [] = b
clean_from text b (c ∷ cs) =
    clean_from (if c == 0x1b then behind_escape else text) (if c == 0x1b then b else b ++ (c ∷ []))
      cs
clean_from behind_escape b (c ∷ cs) = clean_from (if c == b'[' then in_sequence [] else text) b cs
clean_from (in_sequence params) b (c ∷ cs) =
    let final = within 0x40 0x7e c in
    clean_from (if final then text else in_sequence (params ++ (c ∷ [])))
      (if final then end_sequence params c b else b) cs

unfoldable pub clean_device_line : Bytes → Bytes
clean_device_line line = trim_space (clean_from text [] line)

abbrev pub is_alphanumeric : ℕ → Bool
is_alphanumeric c = within b'a' b'z' c || within b'A' b'Z' c || within b'0' b'9' c

-- `strings.Trim(line, "O") == ""`
unfoldable pub all_o : Bytes → Bool
all_o [] = true
all_o (c ∷ cs) = c == b'O' && all_o cs

-- the loop: every byte printable, and one letter or digit
unfoldable pub printable_with_letter : ℕ → Bytes → Bool
printable_with_letter letters [] = ltb 0 letters
printable_with_letter letters (c ∷ cs) =
    let rest = printable_with_letter (if is_alphanumeric c then letters + 1 else letters) cs in
    if ltb c 0x20 || leb 0x7f c then false else rest

abbrev is_rz : Bytes → Bool
is_rz (a ∷ b ∷ []) = a == b'r' && b == b'z'
is_rz _ = false

-- An empty line is all `O` too.
unfoldable pub is_device_text_line : Bytes → Bool
is_device_text_line line = if is_rz line || all_o line then false else printable_with_letter 0 line
