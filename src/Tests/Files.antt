-- ===== src/Tests/Files.antt =====
-- Names, disks and decisions, and the theorems on them at concrete inputs.
use go_serial_cli.Common.{
  ℕ, ◌+◌, ◌-◌, ◌≤◌, ◌<◌, ◌≡◌, ◌⊎◌, inl, inr, refl, Bool, true, false, ◌&&◌, ◌==◌, ltb, max, Bytes,
  List, [], ◌∷◌, ◌++◌, Option, none, some, length, take, arith, Bool-cases,
}
use go_serial_cli.Zmodem.Header.{
  Header, pos, f0, f1, flags_header, pos_header, z_file, z_rinit, z_data, z_eof, z_crce, z_cresum,
  z_mcrc,
}
use go_serial_cli.Zmodem.Link.{LinkError}
use go_serial_cli.Transfer.Frames.{header, packet, Arrived, IsHonest, next_offset, ends_frame}
use go_serial_cli.Transfer.Receive.{
  send_header, on_header, on_data, on_packet, on_end, hunt, read_frame, receive_one, receive_from,
  start_receiving, Sent, receive_data,
}
use go_serial_cli.Transfer.ReceiveSafe.{frames_of}
use go_serial_cli.Text.Display.{decimal}
use go_serial_cli.Transfer.Names.{
  trimmed_name, last_element, after_last, last_index, clean_rune, is_forbidden, trim_left,
  trim_right, keep_unless, is_dot_or_space, same_runes, is_reserved, before_dot, is_one_of, Runes,
  sanitize_transfer_name,
}
use go_serial_cli.Transfer.NamesSafe.{IsFileName, sanitize_transfer_name-IsFileName}
use go_serial_cli.Transfer.Disk.{
  PathSystem, is_available, make_folders, folder, put_entry, remove_entry, file_exists, readable,
  first_free, ext, has_separator, look_up, FilePath, regular, FileSystem, candidate, renamed_path,
  is_absent,
}
use go_serial_cli.Transfer.DiskFree.{renamed_path_lem}
use go_serial_cli.Transfer.Decide.{
  by_management, by_policy, compare_content, compare_crc, compare_offer, crc_ok, differs_in_stat,
  if_identical, is_identical, is_longer, is_newer, local_prefix_crc, write_renamed, decide_about,
  decide_missing, unset, rename, skip_identical_else_rename, zmanagement, is_explicit, Offer,
  CrcAnswer, crc_is, no_answer, decide,
}
use go_serial_cli.Transfer.DecideSafe.{IsKind, decide-IsKind}
use go_serial_cli.Transfer.DecidePolicy.{decide-zmanagement}
use go_serial_cli.Transfer.Options.{
  Options, with_defaults, use_receiver_init, peer_buffer_of, Outcome, ok, skipped, refused,
  session_outcome,
}
use go_serial_cli.Transfer.OptionsBounds.{
  use_receiver_init_bounds, is_done_outcome, is_partial, session_outcome_lem,
}
use go_serial_cli.Transfer.ReceiveFile.{
  after_data, commit_failed, commit_part, compare_part, end_session, filed, finish_file, on_disk,
  skip_file, skip_status, with_part, write_failed, act_on, policy_or, write_file, open_part,
  resume_start, resume_with, System, Filed, chosen, receive_file, contents_at, part_of,
}
use go_serial_cli.Transfer.ReceiveFileSafe.{IsFiled}
use go_serial_cli.Transfer.ReceiveFileWhole.{appends, receive_file-IsFiled}

-- Only the blank is a space here, and the letters have their upper case.
abbrev is_blank : ℕ → Bool
is_blank r = r == 32

abbrev ascii_upper : ℕ → ℕ
ascii_upper r = elim (ltb 96 r && ltb r 123) [ true ↦ r - 32 | false ↦ r ]

-- `..\nul.txt`
abbrev device_path : Runes
device_path = 46 ∷ 46 ∷ 92 ∷ 110 ∷ 117 ∷ 108 ∷ 46 ∷ 116 ∷ 120 ∷ 116 ∷ []

device_path_name :
    sanitize_transfer_name is_blank ascii_upper device_path
    ≡ 95 ∷ 110 ∷ 117 ∷ 108 ∷ 46 ∷ 116 ∷ 120 ∷ 116 ∷ []
unfolding sanitize_transfer_name trimmed_name last_element after_last last_index clean_rune
    is_forbidden trim_left trim_right keep_unless is_dot_or_space same_runes is_reserved before_dot
    is_one_of
device_path_name = refl

sanitize_transfer_name-IsFileName_example :
    (sanitize_transfer_name is_blank ascii_upper device_path ≡ [])
    ⊎ IsFileName is_blank ascii_upper (sanitize_transfer_name is_blank ascii_upper device_path)
sanitize_transfer_name-IsFileName_example =
    sanitize_transfer_name-IsFileName is_blank ascii_upper device_path refl

abbrev is_slash : ℕ → Bool
is_slash r = r == 47

-- `a.b` and `a_1.b`
abbrev path_a : FilePath
path_a = 97 ∷ 46 ∷ 98 ∷ []

abbrev path_a_1 : FilePath
path_a_1 = 97 ∷ 95 ∷ 49 ∷ 46 ∷ 98 ∷ []

abbrev small_disk : FileSystem
small_disk = (path_a, regular (1 ∷ 2 ∷ []) 7) ∷ (path_a_1, regular [] 8) ∷ []

abbrev slash_paths : PathSystem
slash_paths = record { is_separator = is_slash; lstat_fails = λ p. false; tries = 5 }

-- Where every name is too long for the file system.
abbrev too_long : PathSystem
too_long = record { is_separator = is_slash; lstat_fails = λ p. true; tries = 5 }

-- `a_2.b`
renamed_a : renamed_path slash_paths small_disk path_a ≡ some (97 ∷ 95 ∷ 50 ∷ 46 ∷ 98 ∷ [])
unfolding renamed_path first_free is_available is_absent candidate ext has_separator decimal look_up
    same_runes
renamed_a = refl

never_renamed : renamed_path too_long small_disk path_a ≡ none
unfolding renamed_path first_free is_available is_absent candidate ext has_separator decimal look_up
    same_runes
never_renamed = refl

renamed_path_lem_example :
    (j : ℕ) × (renamed_path slash_paths small_disk path_a ≡ some (candidate slash_paths path_a j))
    × (1 ≤ j)
    × (j ≤ 1 + length small_disk)
    × (is_absent small_disk (candidate slash_paths path_a j) ≡ true)
    × ((k : ℕ) → 1 ≤ k → k < j → is_absent small_disk (candidate slash_paths path_a k) ≡ false)
renamed_path_lem_example =
    renamed_path_lem slash_paths path_a small_disk (omega arith) (λ j from to. refl)

abbrev sum_crc : Bytes → ℕ
sum_crc [] = 0
sum_crc (b ∷ bs) = b + 1 + sum_crc bs

abbrev silent : ℕ → CrcAnswer
silent n = no_answer

abbrev file_header : Header
file_header = flags_header z_file z_cresum z_mcrc 0 0

abbrev three_bytes : Bytes
three_bytes = 4 ∷ 5 ∷ 6 ∷ []

abbrev offer : Offer
offer = record { size = some 3; changed = none }

decide-IsKind_example :
    IsKind slash_paths sum_crc silent file_header small_disk offer path_a rename (
      decide slash_paths sum_crc silent file_header small_disk offer path_a rename
        (is_explicit rename))
decide-IsKind_example =
    decide-IsKind slash_paths sum_crc silent file_header small_disk offer path_a rename

decide-zmanagement_example :
    decide slash_paths sum_crc silent file_header small_disk offer path_a unset false
    ≡ decide slash_paths sum_crc silent file_header small_disk offer path_a
        skip_identical_else_rename true
unfolding zmanagement f1 flags_header
decide-zmanagement_example =
    decide-zmanagement slash_paths sum_crc silent file_header small_disk offer path_a
      skip_identical_else_rename refl

abbrev own_options : Options
own_options = record { handshake_wait = 0; data_wait = 0; send_window = 0; max_subpacket = 5000 }

abbrev zpart_bytes : Bytes
zpart_bytes = 46 ∷ 122 ∷ 112 ∷ 97 ∷ 114 ∷ 116 ∷ []

abbrev small_zrinit : Header
small_zrinit = flags_header z_rinit 0x23 0 4 0

use_receiver_init_bounds_example :
    (32 ≤ (use_receiver_init (with_defaults own_options) small_zrinit false).max_block)
    × ((use_receiver_init (with_defaults own_options) small_zrinit false).max_block ≤ 1024)
    × (0 < (use_receiver_init (with_defaults own_options) small_zrinit false).send_window)
    × (0 < peer_buffer_of small_zrinit
        → ((use_receiver_init (with_defaults own_options) small_zrinit false).send_window
            ≤ peer_buffer_of small_zrinit)
          × ((use_receiver_init (with_defaults own_options) small_zrinit false).max_block
              ≤ max 32 (peer_buffer_of small_zrinit)))
use_receiver_init_bounds_example = use_receiver_init_bounds own_options small_zrinit false

session_outcome_lem_example :
    (is_done_outcome (session_outcome (ok ∷ refused ∷ skipped ∷ [])) ≡ false)
    × (is_partial (session_outcome (ok ∷ refused ∷ skipped ∷ [])) ≡ true)
session_outcome_lem_example = session_outcome_lem (ok ∷ refused ∷ skipped ∷ [])

-- A partial file with the first two bytes, which the sender confirms.
abbrev resumed_disk : FileSystem
resumed_disk = (path_a ++ zpart_bytes, regular (4 ∷ 5 ∷ []) 7) ∷ []

abbrev confirms : ℕ → CrcAnswer
confirms n = crc_is (sum_crc (take n three_bytes))

abbrev all_well : System
all_well = record {
  makes_folder = true;
  folders = λ target. (47 ∷ []) ∷ [];
  opens = true;
  truncates = true;
  flushes = true;
  is_disk_full = false;
  kept = 0;
  commits = true;
  appended = 0;
  clock = 9;
}

abbrev the_rest : List Arrived
the_rest =
    record { at = 0; frame = header (pos_header z_data 2) }
    ∷ record { at = 1; frame = packet (6 ∷ []) z_crce }
    ∷ record { at = 2; frame = header (pos_header z_eof 3) }
    ∷ []

the_rest-IsHonest : IsHonest three_bytes none (frames_of the_rest)
unfolding pos pos_header next_offset ends_frame
the_rest-IsHonest = (
  (λ e. absurd (omega (arith, e))),
  (record { inside = omega arith; same = refl }, ((λ e. refl), tt)),
)

no_other_part :
    (path : FilePath)
    → sum_crc (contents_at resumed_disk path)
      ≡ sum_crc (take (length (contents_at resumed_disk path)) three_bytes)
    → contents_at resumed_disk path ≡ take (length (contents_at resumed_disk path)) three_bytes
unfolding contents_at look_up
no_other_part path h = elim (Bool-cases (same_runes (path_a ++ zpart_bytes) path)) [
  | inl t ↦ rw (contents_at, t) refl
  | inr f ↦ rw (contents_at, f) refl
]

abbrev no_reply : List Sent → Option LinkError
no_reply out = none

abbrev has_room : ℕ → Bool
has_room p = false

abbrev resumed_file : Filed
resumed_file = record {
  status = Outcome.resumed;
  path = path_a;
  resume_from = 2;
  received = 1;
  fin = false;
  session_over = false;
  answer = none;
  disk = (path_a, regular three_bytes 9) ∷ (47 ∷ [], folder) ∷ [];
}

resumed_run :
    receive_file slash_paths sum_crc confirms
      (λ start. receive_data no_reply has_room [] 0 start the_rest)
      all_well
      resumed_disk
      file_header
      offer
      path_a
      (chosen path_a unset)
      rename
    ≡ some resumed_file
unfolding receive_file decide is_explicit look_up same_runes contents_at part_of f0 flags_header pos
    pos_header receive_data by_management by_policy compare_content compare_crc compare_offer crc_ok
    differs_in_stat if_identical is_identical is_longer is_newer local_prefix_crc write_renamed
    decide_about decide_missing after_data commit_failed commit_part compare_part end_session filed
    finish_file on_disk skip_file skip_status with_part write_failed act_on policy_or write_file
    open_part resume_start resume_with send_header on_header on_data on_packet on_end hunt
    read_frame receive_one receive_from start_receiving put_entry remove_entry file_exists readable
    make_folders is_absent
resumed_run = refl

receive_file-IsFiled_example :
    IsFiled all_well three_bytes resumed_disk
      (appends slash_paths sum_crc confirms
        (λ start. receive_data no_reply has_room [] 0 start the_rest)
        all_well
        resumed_disk
        file_header
        offer
        (chosen path_a unset)
        rename)
      resumed_file
receive_file-IsFiled_example =
    receive_file-IsFiled three_bytes resumed_disk slash_paths sum_crc confirms
      (λ n x e. ground (arith, e)) no_other_part all_well the_rest no_reply has_room [] 0
      the_rest-IsHonest file_header offer (λ n e. ground (arith, e)) path_a (chosen path_a unset)
      rename resumed_file resumed_run
