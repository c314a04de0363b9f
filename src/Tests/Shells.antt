-- ===== src/Tests/Shells.antt =====
-- The detector of the shell on short outputs, and the theorem on it at one.
use go_serial_cli.Common.{
  ℕ, ◌≡◌, refl, false, Bytes, List, [], ◌∷◌, ◌++◌, none, some, All, replicate,
}
use go_serial_cli.Zmodem.Header.{z_rqinit}
use go_serial_cli.Zmodem.Encode.{
  z_hex_value, decode_pairs, decode_hex_header_digits, checked_header16,
}
use go_serial_cli.Zmodem.Crc.{crc16_x_modem, crc16_update, crc16_rounds, crc16_round}
use go_serial_cli.Shell.Detector.{
  is_z_hex_digit, all_hex_digits, z_could_be_hex_header, starts_transfer, whole_header, judge,
  judge_behind_pad, show_first, at_pad, search, trimmed, feed,
}
use go_serial_cli.Shell.Gate.{
  new_shell_gate, begin_gate, feed_gate, keys, key_in, key, press, enter, is_enter, drop_last,
}
use go_serial_cli.Shell.GateKeys.{
  GateCall, begins, feeds, call_gate, call_all, pressed, IsCounted, call_all-IsCounted,
}
use go_serial_cli.Shell.DetectorPads.{IsPlain}
use go_serial_cli.Shell.DetectorFeed.{joined, unless_found, feed_all, feed_all-feed}

-- `a**`, ZDLE; `B0`; `x`
abbrev cut_output : List Bytes
cut_output = (97 ∷ 42 ∷ 42 ∷ 24 ∷ []) ∷ (66 ∷ 48 ∷ []) ∷ (120 ∷ []) ∷ []

cut_output-IsPlain : All IsPlain (joined cut_output)
unfolding joined
cut_output-IsPlain =
    ((λ e. e), ((λ e. e), ((λ e. e), ((λ e. e), ((λ e. e), ((λ e. e), ((λ e. e), tt)))))))

feed_all-feed_example :
    ((feed_all [] cut_output).header ≡ (feed [] (joined cut_output)).header)
    × ((feed_all [] cut_output).hold ≡ (feed [] (joined cut_output)).hold)
    × ((feed_all [] cut_output).header ≡ none
        → (feed_all [] cut_output).shown ++ (feed_all [] cut_output).hold ≡ joined cut_output)
feed_all-feed_example = feed_all-feed cut_output cut_output-IsPlain

-- The header ZRQINIT, its digits with or without their eighth bits, at once and in two pieces.
abbrev rqinit_of : ℕ → Bytes
rqinit_of digit = 42 ∷ 42 ∷ 24 ∷ 66 ∷ replicate 14 digit

found_whole : (feed [] (rqinit_of 48)).header ≡ some z_rqinit
unfolding feed trimmed search at_pad judge_behind_pad judge whole_header starts_transfer
    z_could_be_hex_header all_hex_digits is_z_hex_digit z_hex_value decode_hex_header_digits
    decode_pairs checked_header16 crc16_x_modem crc16_update crc16_rounds crc16_round show_first
found_whole = refl

eighth_bits_whole : (feed [] (rqinit_of 0xb0)).header ≡ some z_rqinit
unfolding feed trimmed search at_pad judge_behind_pad judge whole_header starts_transfer
    z_could_be_hex_header all_hex_digits is_z_hex_digit z_hex_value decode_hex_header_digits
    decode_pairs checked_header16 crc16_x_modem crc16_update crc16_rounds crc16_round show_first
eighth_bits_whole = refl

eighth_bits_cut :
    (feed_all [] ((42 ∷ 42 ∷ 24 ∷ 66 ∷ 0xb0 ∷ []) ∷ replicate 13 0xb0 ∷ [])).header ≡ none
unfolding feed trimmed search at_pad judge_behind_pad judge whole_header starts_transfer
    z_could_be_hex_header all_hex_digits is_z_hex_digit z_hex_value decode_hex_header_digits
    decode_pairs checked_header16 crc16_x_modem crc16_update crc16_rounds crc16_round show_first
    feed_all unless_found
eighth_bits_cut = refl

-- `ab`, Backspace, Enter, Ctrl+C twice, behind the start of a transfer.
abbrev gate_calls : List GateCall
gate_calls = begins ∷ feeds (97 ∷ 98 ∷ 8 ∷ 13 ∷ 3 ∷ []) ∷ feeds (3 ∷ []) ∷ []

gate_state : (call_all gate_calls new_shell_gate).lines ≡ (97 ∷ []) ∷ []
unfolding call_all call_gate begin_gate feed_gate keys key_in key press enter is_enter drop_last
    new_shell_gate
gate_state = refl

call_all-IsCounted_example :
    IsCounted (pressed false false 0 gate_calls) (call_all gate_calls new_shell_gate)
call_all-IsCounted_example = call_all-IsCounted gate_calls
