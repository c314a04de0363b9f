-- ===== src/Transfer/ReceiveFile.antt =====
-- `receiveFile` and `commitPart` of zmodem.go: one ZFILE, from the decision about the target to the
-- renaming of the partial file. What the file system answers is a record, and `run` is receiveData from
-- an offset on.
use go_serial_cli.Common.{
  ℕ, Bool, true, false, not, ◌&&◌, ◌==◌, ltb, if◌then◌else◌, Bytes, List, [], ◌∷◌, ◌++◌, Option,
  none, some, length, take,
}
use go_serial_cli.Zmodem.Header.{Header, f0, pos_header, z_cresum, z_skip, z_ferr}
use go_serial_cli.Zmodem.Link.{LinkError}
use go_serial_cli.Transfer.Receive.{write_error, Progress, going, complete, ended, failed}
use go_serial_cli.Transfer.Disk.{
  PathSystem, make_folders, FilePath, regular, folder, unreadable, FileSystem, look_up,
  remove_entry, put_entry,
}
use go_serial_cli.Transfer.Decide.{
  ConflictPolicy, unset, is_explicit, Offer, Reason, identical, Decision, write_to, append_to,
  skip_it, ask_failed, endless, CrcAnswer, crc_is, no_answer, crc_failed, decide,
}
use go_serial_cli.Transfer.Options.{Outcome, ok, resumed, skipped, refused}

-- What the calls of the file system return: MkdirAll, with the folders that it makes for a target (none
-- where the target's folder is the current one, for which it is not called), the opening of the partial file, which may make
-- it, its Truncate and Seek, the flush and the close, whether a failed write met a full disk, how many of the received bytes are on the disk where the
-- writing failed, the commit, how much of an appended file is there where it failed, and the time that
-- the files end up with.
pub record System : Type 0 where
  pub makes_folder : Bool
  pub folders : FilePath → List FilePath
  pub opens : Bool
  pub truncates : Bool
  pub flushes : Bool
  pub is_disk_full : Bool
  pub kept : ℕ
  pub commits : Bool
  pub appended : ℕ
  pub clock : ℕ

pub record Filed : Type 0 where
  pub status : Outcome
  pub path : FilePath
  pub resume_from : ℕ
  pub received : ℕ
  pub fin : Bool
  pub session_over : Bool
  pub answer : Option Header
  pub disk : FileSystem

pub data Destination : Type 0 where
  chosen : FilePath → ConflictPolicy → Destination
  no_destination destination_failed cancelled_choice : Destination

abbrev zpart : Bytes
zpart = 46 ∷ 122 ∷ 112 ∷ 97 ∷ 114 ∷ 116 ∷ []

unfoldable pub part_of : FilePath → FilePath
part_of target = target ++ zpart

unfoldable pub contents_at : FileSystem → FilePath → Bytes
contents_at disk path = elim (look_up disk path) [
  | none ↦ []
  | some e ↦ elim e [ regular bytes at ↦ bytes | folder ↦ [] | unreadable ↦ [] ]
]

-- The closure `skip`.
unfoldable pub skip_file : FileSystem → FilePath → Outcome → Filed
skip_file disk path status = record {
  status = status;
  path = path;
  resume_from = 0;
  received = 0;
  fin = false;
  session_over = false;
  answer = some (pos_header z_skip 0);
  disk = disk;
}

unfoldable pub end_session : FileSystem → FilePath → Filed
end_session disk path = record {
  status = Outcome.failed;
  path = path;
  resume_from = 0;
  received = 0;
  fin = false;
  session_over = true;
  answer = none;
  disk = disk;
}

pub data Resume : Type 0 where
  starts : ℕ → Resume
  resume_failed : LinkError → Resume

unfoldable pub compare_part : ℕ → ℕ → CrcAnswer → Resume
compare_part ours n (crc_is theirs) = starts (if ours == theirs then n else 0)
compare_part ours n no_answer = starts 0
compare_part ours n (crc_failed e) = resume_failed e

module _ (crc : Bytes → ℕ) (remote : ℕ → CrcAnswer) where
  unfoldable pub resume_with : Header → ℕ → Bytes → Resume
  resume_with h n bytes =
      if f0 h == z_cresum && ltb 0 (length bytes) && ltb (length bytes) n
      then compare_part (crc bytes) (length bytes) (remote (length bytes))
      else starts 0

  -- An appended file and one of unknown size start over.
  unfoldable pub resume_start : Header → Bool → Option ℕ → Bytes → Resume
  resume_start h true size bytes = starts 0
  resume_start h false none bytes = starts 0
  resume_start h false (some n) bytes = resume_with h n bytes

module _ (env : System) (disk : FileSystem) (target : FilePath) (start : ℕ) where
  -- The partial file behind some bytes.
  unfoldable pub with_part : Bytes → FileSystem
  with_part bytes =
      put_entry (part_of target)
        (regular (take start (contents_at disk (part_of target)) ++ bytes) env.clock) disk

  unfoldable pub commit_part : Bool → FileSystem → FileSystem
  commit_part false d =
      put_entry target (regular (contents_at d (part_of target)) env.clock)
        (remove_entry (part_of target) d)
  commit_part true d =
      put_entry target (regular (contents_at d target ++ contents_at d (part_of target)) env.clock)
        (remove_entry (part_of target) d)

  -- The disk where commitPart gave an error.
  unfoldable pub commit_failed : Bool → FileSystem → FileSystem
  commit_failed false d = d
  commit_failed true d =
      put_entry target
        (regular (contents_at d target ++ take env.appended (contents_at d (part_of target)))
          env.clock)
        d

  unfoldable pub filed : Outcome → ℕ → FileSystem → Filed
  filed status received d = record {
    status = status;
    path = target;
    resume_from = start;
    received = received;
    fin = false;
    session_over = false;
    answer = none;
    disk = d;
  }

  -- What of the received bytes is in the partial file where the session goes wrong.
  unfoldable pub on_disk : Bytes → Bytes
  on_disk bytes = if env.flushes then bytes else take env.kept bytes

  unfoldable pub write_failed : Bytes → Filed
  write_failed bytes =
      let part = with_part (take env.kept bytes) in
      if env.is_disk_full
      then record (filed Outcome.failed (length bytes) part) {
        session_over = true;
        answer = some (pos_header z_ferr 0);
      }
      else record (filed Outcome.failed (length bytes) (remove_entry (part_of target) part)) {
        answer = some (pos_header z_skip 0);
      }

  unfoldable pub finish_file : Bool → Bytes → Filed
  finish_file append bytes =
      if not env.flushes
      then write_failed bytes
      else if not env.commits
      then filed Outcome.failed (length bytes) (commit_failed append (with_part bytes))
      else filed (if ltb 0 start then resumed else ok) (length bytes)
          (commit_part append (with_part bytes))

  -- Behind receiveData.
  unfoldable pub after_data : Bool → Progress → Option Filed
  after_data append (going s) = none
  after_data append (complete s) = some (finish_file append s.written)
  after_data append (ended s) =
      some (record (filed Outcome.failed (length s.written) (with_part (on_disk s.written))) {
        fin = true;
      })
  after_data append (failed write_error s) = some (write_failed s.written)
  after_data append (failed e s) =
      some (record (filed Outcome.failed (length s.written) (with_part (on_disk s.written))) {
        session_over = true;
      })

module _ (paths : PathSystem) (crc : Bytes → ℕ) (remote : ℕ → CrcAnswer) (run : ℕ → Progress)
    (env : System) (disk : FileSystem) where
  unfoldable pub open_part : FilePath → Bool → Resume → Option Filed
  open_part target append (resume_failed e) = some (end_session disk target)
  open_part target append (starts start) =
      if not env.opens
      then some (skip_file disk target Outcome.failed)
      else if not env.truncates
      then some (
          skip_file
            (put_entry (part_of target) (regular (contents_at disk (part_of target)) env.clock)
              disk)
            target Outcome.failed)
      else after_data env disk target start append (run start)

module _ (paths : PathSystem) (crc : Bytes → ℕ) (remote : ℕ → CrcAnswer) (run : ℕ → Progress)
    (env : System) (disk : FileSystem) where
  -- From MkdirAll on, which may have made folders before it fails.
  unfoldable pub write_file : Header → Offer → FilePath → Bool → Option Filed
  write_file h o target append =
      let made = make_folders (env.folders target) disk in
      if not env.makes_folder
      then some (skip_file made target Outcome.failed)
      else open_part paths crc remote run env made target append
          (resume_start crc remote h append o.size (contents_at made (part_of target)))

  unfoldable pub skip_status : Reason → Outcome
  skip_status identical = skipped
  skip_status why = refused

  unfoldable pub act_on : Header → Offer → Decision → Option Filed
  act_on h o (write_to target) = write_file h o target false
  act_on h o (append_to target) = write_file h o target true
  act_on h o (skip_it target why) = some (skip_file disk target (skip_status why))
  act_on h o (ask_failed e) = some (end_session disk [])
  act_on h o endless = none

  -- The policy of the destination, or else of the transfer.
  unfoldable pub policy_or : ConflictPolicy → ConflictPolicy → ConflictPolicy
  policy_or unset other = other
  policy_or policy other = policy

  unfoldable pub receive_file : Header → Offer → Bytes → Destination → ConflictPolicy → Option Filed
  receive_file h o name destination_failed own = some (skip_file disk [] Outcome.failed)
  receive_file h o name no_destination own =
      some (skip_file disk [] (if length name == 0 then Outcome.failed else refused))
  receive_file h o name cancelled_choice own =
      some (if length name == 0 then skip_file disk [] Outcome.failed else end_session disk [])
  receive_file h o name (chosen path policy) own =
      if length name == 0
      then some (skip_file disk [] Outcome.failed)
      else act_on h o (
          decide paths crc remote h disk o path (policy_or policy own)
            (is_explicit (policy_or policy own)))
