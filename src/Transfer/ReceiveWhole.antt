-- ===== src/Transfer/ReceiveWhole.antt =====
-- A whole run of `receiveData` of zmodem.go over the frames of a line.
use go_serial_cli.Common.{
  ℕ, ◌%◌, ◌^◌, ◌≤◌, ◌≡◌, refl, sym, ap, ◌∙◌, Bool, Bytes, List, [], ◌∷◌, ◌++◌, Option, none, length,
  drop, append-nil, arith,
}
use go_serial_cli.Zmodem.Header.{pos_header, z_rpos}
use go_serial_cli.Zmodem.Link.{LinkError}
use go_serial_cli.Transfer.Frames.{Arrived, IsLine, IsEndOf, IsHonest}
use go_serial_cli.Transfer.Receive.{
  Sent, Receiving, Progress, going, complete, ended, failed, receive_one, receive_from,
  start_receiving, receive_data, send_header,
}
use go_serial_cli.Transfer.ReceiveSafe.{
  frames_of, IsKept, IsGood, send_header-IsGood, receive_one-IsGood,
}

-- What is written is the file from the start to the offset, which where the loop met the end of the file
-- is one of those.
abbrev pub IsReceived : (ℕ → Type 0) → Bytes → ℕ → Progress → Type 0
IsReceived ends file start (going s) = IsKept ends file start s
IsReceived ends file start (complete s) = IsKept ends file start s × ends s.rx
IsReceived ends file start (ended s) = IsKept ends file start s
IsReceived ends file start (failed e s) = IsKept ends file start s

-- The same, with all of the file where the loop met its end.
abbrev pub IsSafe : Bytes → ℕ → Progress → Type 0
IsSafe file start (going s) = IsKept (IsEndOf file) file start s
IsSafe file start (complete s) = IsKept (IsEndOf file) file start s × (s.written ≡ drop start file)
IsSafe file start (ended s) = IsKept (IsEndOf file) file start s
IsSafe file start (failed e s) = IsKept (IsEndOf file) file start s

drop_all : (l : Bytes) → drop (length l) l ≡ []
drop_all [] = refl
drop_all (x ∷ l) = drop_all l

whole :
    (file : Bytes) (start : ℕ) (s : Receiving)
    → IsKept (IsEndOf file) file start s
    → s.rx ≡ length file
    → s.written ≡ drop start file
whole file start s k e =
    sym (append-nil s.written)
    ∙ ap (◌++◌ s.written) (sym (ap (λ n. drop n file) e ∙ drop_all file))
    ∙ sym k.1

-- Where every ZEOF gives the file's length, a completed file is whole.
pub IsReceived-IsSafe :
    (file : Bytes) (start : ℕ) (p : Progress)
    → IsReceived (IsEndOf file) file start p
    → IsSafe file start p
IsReceived-IsSafe file start (going s) g = g
IsReceived-IsSafe file start (complete s) g = (g.0, whole file start s g.0 g.1)
IsReceived-IsSafe file start (ended s) g = g
IsReceived-IsSafe file start (failed e s) g = g

module _ (ends : ℕ → Type 0) (file : Bytes) (start : ℕ) (reply : List Sent → Option LinkError)
    (full : ℕ → Bool) (attn : Bytes) where
  -- The loop behind one round.
  unfoldable pub go_on : List Arrived → Progress → Progress
  go_on rest (going s) = receive_from reply full attn rest s
  go_on rest (complete s) = complete s
  go_on rest (ended s) = ended s
  go_on rest (failed e s) = failed e s

  pub receive_from_round :
      (a : Arrived) (rest : List Arrived) (s : Receiving)
      → receive_from reply full attn (a ∷ rest) s
        ≡ go_on rest (receive_one reply full attn s.mode a.at a.frame s)
  unfolding receive_from go_on
  receive_from_round a rest s = ground arith

  receive_from_end : (s : Receiving) → receive_from reply full attn [] s ≡ going s
  unfolding receive_from
  receive_from_end s = refl

  go_on-IsReceived :
      (rest : List Arrived) (p : Progress)
      → IsGood ends file start (frames_of rest) p
      → IsReceived ends file start (go_on rest p)
  unfolding go_on
  go_on-IsReceived [] (going s) g = rw (receive_from_end s) g.0
  go_on-IsReceived (a ∷ rest) (going s) (k, (at, open_frame, r)) =
      rw (receive_from_round a rest s) (
        go_on-IsReceived rest _ (
          receive_one-IsGood ends file start reply full attn (frames_of rest) a.at s.mode a.frame s
            at refl open_frame k r))
  go_on-IsReceived rest (complete s) g = g
  go_on-IsReceived rest (ended s) g = g
  go_on-IsReceived rest (failed e s) g = g

  pub receive_data_start :
      (now : ℕ) (frames : List Arrived)
      → receive_data reply full attn now start frames
        ≡ go_on frames (
            send_header reply full attn
              (pos_header z_rpos (start % 2 ^ 32))
              (start_receiving reply full attn now start))
  unfolding receive_data go_on
  receive_data_start now frames = ground arith

  -- On a line on which every intact subpacket behind a data header holds what the file has at the offset
  -- of its frame, and however else the frames are damaged, lost, repeated or late, receiveData writes
  -- the file's bytes from its start to its offset and nothing else, whether it goes on, fails, is
  -- ended by the sender or completes. It completes only at an offset that a ZEOF of the line gave:
  -- whatever holds of those offsets holds of its own. So if they are all the file's length it
  -- completes only with all the bytes, and behind the early ZEOF of a file that was cut short with
  -- those in front of it.
  pub receive_data-IsReceived :
      (now : ℕ) (frames : List Arrived)
      → start ≤ length file
      → IsLine ends file none (frames_of frames)
      → IsReceived ends file start (receive_data reply full attn now start frames)
  unfolding start_receiving
  receive_data-IsReceived now frames h honest = rw (receive_data_start now frames) (
      go_on-IsReceived frames _ (
        send_header-IsGood ends file start reply full attn (frames_of frames) _
          (start_receiving reply full attn now start) (h, refl) (none, (λ e. cc), honest)))

pub receive_data-IsSafe :
    (file : Bytes) (start : ℕ) (reply : List Sent → Option LinkError) (full : ℕ → Bool)
    (attn : Bytes) (now : ℕ) (frames : List Arrived)
    → start ≤ length file
    → IsHonest file none (frames_of frames)
    → IsSafe file start (receive_data reply full attn now start frames)
receive_data-IsSafe file start reply full attn now frames h honest =
    IsReceived-IsSafe file start _
      (receive_data-IsReceived (IsEndOf file) file start reply full attn now frames h honest)
