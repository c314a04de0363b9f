-- ===== src/Transfer/ReceiveFileWhole.antt =====
-- A whole `receiveFile` of zmodem.go, from the offer to the disk behind it.
use go_serial_cli.Common.{
  ℕ, ◌≤◌, ◌≡◌, refl, sym, ap, ◌∙◌, Bool, true, false, not, ◌==◌, if_cases, Bytes, List, ◌++◌,
  Option, none, some, length, take, take-append-drop,
}
use mathlib.Core.Path.{subst}
use go_serial_cli.Zmodem.Header.{Header}
use go_serial_cli.Zmodem.Link.{LinkError}
use go_serial_cli.Transfer.Frames.{Arrived, IsHonest}
use go_serial_cli.Transfer.Receive.{
  Sent, link, gave_up, write_error, peer_aborted, Progress, going, complete, ended, failed,
  receive_data,
}
use go_serial_cli.Transfer.ReceiveSafe.{frames_of}
use go_serial_cli.Transfer.ReceiveWhole.{IsSafe, receive_data-IsSafe}
use go_serial_cli.Transfer.Disk.{PathSystem, make_folders, FilePath, FileSystem, look_up}
use go_serial_cli.Transfer.Decide.{
  ConflictPolicy, Offer, Reason, target_is_a_directory, not_present_here, not_newer_or_longer,
  not_newer, same_date_and_length, exists, identical, decide, is_explicit, Decision, write_to,
  append_to, skip_it, ask_failed, endless, CrcAnswer, crc_is,
}
use go_serial_cli.Transfer.Options.{Outcome}
use go_serial_cli.Transfer.ReceiveFile.{
  System, Filed, Destination, chosen, no_destination, destination_failed, cancelled_choice, part_of,
  contents_at, skip_file, end_session, Resume, starts, resume_failed, filed, after_data, open_part,
  write_file, skip_status, policy_or, act_on, receive_file,
}
use go_serial_cli.Transfer.DiskEntries.{look_up-put_entry_other}
use go_serial_cli.Transfer.ReceiveResume.{IsResumable, resume_start-IsResumable}
use go_serial_cli.Transfer.ReceiveFolders.{
  IsFiledIfAny, IsFiledIfAny-make_folders, open_part-HasPath, contents_at-make_folders,
}
use go_serial_cli.Transfer.ReceiveFileSafe.{
  is_received, untouched, IsFiled, elsewhere, part_only-IsFiled, write_failed-IsFiled,
  finish_file-IsFiled,
}

-- The decision is to append.
abbrev pub is_append : Decision → Bool
is_append (write_to target) = false
is_append (append_to target) = true
is_append (skip_it target why) = false
is_append (ask_failed e) = false
is_append endless = false

-- The file is to be appended to the one at the target that was chosen.
abbrev pub appends :
    PathSystem
    → (Bytes → ℕ)
    → (ℕ → CrcAnswer)
    → (ℕ → Progress)
    → System
    → FileSystem
    → Header
    → Offer
    → Destination
    → ConflictPolicy
    → Bool
appends paths crc remote run env disk h o (chosen path policy) own =
    let policy' = policy_or paths crc remote run env disk policy own in
    is_append (decide paths crc remote h disk o path policy' (is_explicit policy'))
appends paths crc remote run env disk h o no_destination own = false
appends paths crc remote run env disk h o destination_failed own = false
appends paths crc remote run env disk h o cancelled_choice own = false

module _ (env : System) (file : Bytes) (disk : FileSystem) (append : Bool) where
  -- Where nothing was written.
  same_disk-IsFiled :
      (r : Filed) → r.disk ≡ disk → is_received r.status ≡ false → IsFiled env file disk append r
  same_disk-IsFiled r e f = ((λ p. untouched (ap (λ d. look_up d p) e)), (λ t. absurd cc))

  after_data-IsFiled :
      (target : FilePath) (start : ℕ) (p : Progress)
      → take start (contents_at disk (part_of target)) ≡ take start file
      → IsSafe file start p
      → IsFiledIfAny env file disk append (after_data env disk target start append p)
  unfolding after_data filed
  after_data-IsFiled target start (going s) e safe = tt
  after_data-IsFiled target start (complete s) e safe =
      finish_file-IsFiled file env disk target start s.written
        (ap (λ b. b ++ s.written) e
          ∙ ap (◌++◌ (take start file)) safe.1
          ∙ take-append-drop start file)
        append
  after_data-IsFiled target start (ended s) e safe =
      part_only-IsFiled file env disk target start append _ refl refl
        (λ p h. elsewhere file env disk target start p _ h)
  after_data-IsFiled target start (failed write_error s) e safe =
      write_failed-IsFiled file env disk target start append s.written
  after_data-IsFiled target start (failed (link x) s) e safe =
      part_only-IsFiled file env disk target start append _ refl refl
        (λ p h. elsewhere file env disk target start p _ h)
  after_data-IsFiled target start (failed gave_up s) e safe =
      part_only-IsFiled file env disk target start append _ refl refl
        (λ p h. elsewhere file env disk target start p _ h)
  after_data-IsFiled target start (failed peer_aborted s) e safe =
      part_only-IsFiled file env disk target start append _ refl refl
        (λ p h. elsewhere file env disk target start p _ h)

module _ (file : Bytes) (disk : FileSystem) (paths : PathSystem) (crc : Bytes → ℕ)
    (remote : ℕ → CrcAnswer) (answers : (n x : ℕ) → remote n ≡ crc_is x → x ≡ crc (take n file))
    (no_collision : (path : FilePath)
      → crc (contents_at disk path) ≡ crc (take (length (contents_at disk path)) file)
      → contents_at disk path ≡ take (length (contents_at disk path)) file) where
  module _ (env : System) (arrived : List Arrived) (reply : List Sent → Option LinkError)
      (full : ℕ → Bool) (attn : Bytes) (now : ℕ)
      (honest : IsHonest file none (frames_of arrived)) where
    abbrev run : ℕ → Progress
    run start = receive_data reply full attn now start arrived

    open_part-IsFiled :
        (target : FilePath) (append : Bool) (r : Resume)
        → IsResumable file disk crc remote answers no_collision target r
        → IsFiledIfAny env file disk append
            (open_part paths crc remote run env disk target append r)
    unfolding open_part skip_file end_session
    open_part-IsFiled target append (resume_failed e) k =
        same_disk-IsFiled env file disk append _ refl refl
    open_part-IsFiled target append (starts start) (h, prefix) =
        if_cases (IsFiledIfAny env file disk append) (not env.opens) _ _
          (λ t. same_disk-IsFiled env file disk append _ refl refl)
          (λ f.
            if_cases (IsFiledIfAny env file disk append) (not env.truncates) _ _
              (λ t.
                part_only-IsFiled file env disk target start append _ refl refl
                  (λ p k. look_up-put_entry_other disk (part_of target) p _ k))
              (λ f.
                after_data-IsFiled env file disk append target start (run start) prefix
                  (receive_data-IsSafe file start reply full attn now arrived h honest)))

module _ (file : Bytes) (disk : FileSystem) (paths : PathSystem) (crc : Bytes → ℕ)
    (remote : ℕ → CrcAnswer) (answers : (n x : ℕ) → remote n ≡ crc_is x → x ≡ crc (take n file))
    (no_collision : (path : FilePath)
      → crc (contents_at disk path) ≡ crc (take (length (contents_at disk path)) file)
      → contents_at disk path ≡ take (length (contents_at disk path)) file) where
  -- MkdirAll adds no partial file.
  no_collision_made :
      (ps : List FilePath) (path : FilePath)
      → crc (contents_at (make_folders ps disk) path)
        ≡ crc (take (length (contents_at (make_folders ps disk) path)) file)
      → contents_at (make_folders ps disk) path
        ≡ take (length (contents_at (make_folders ps disk) path)) file
  no_collision_made ps path =
      subst (λ b. crc b ≡ crc (take (length b) file) → b ≡ take (length b) file)
        (sym (contents_at-make_folders ps disk path)) (no_collision path)

  module _ (env : System) (arrived : List Arrived) (reply : List Sent → Option LinkError)
      (full : ℕ → Bool) (attn : Bytes) (now : ℕ)
      (honest : IsHonest file none (frames_of arrived)) where
    abbrev run_data : ℕ → Progress
    run_data start = receive_data reply full attn now start arrived

    module _ (h : Header) (o : Offer) (size : (n : ℕ) → o.size ≡ some n → n ≤ length file) where
      write_file-IsFiled :
          (target : FilePath) (append : Bool)
          → IsFiledIfAny env file disk append
              (write_file paths crc remote run_data env disk h o target append)
      unfolding write_file skip_file
      write_file-IsFiled target append =
          let made = make_folders (env.folders target) disk in
          if_cases (IsFiledIfAny env file disk append) (not env.makes_folder) _ _
            (λ t.
              IsFiledIfAny-make_folders env file disk append target
                (some (skip_file made target Outcome.failed)) refl
                (same_disk-IsFiled env file made append _ refl refl))
            (λ f.
              IsFiledIfAny-make_folders env file disk append target _
                (open_part-HasPath paths crc remote run_data env made target append _)
                (open_part-IsFiled file made paths crc remote answers
                  (no_collision_made (env.folders target)) env arrived reply full attn now honest
                  target append _
                  (resume_start-IsResumable file made crc remote answers
                    (no_collision_made (env.folders target)) h append target o.size size)))

      skip_status_lem :
          (why : Reason) → is_received (skip_status paths crc remote run_data env disk why) ≡ false
      unfolding skip_status
      skip_status_lem target_is_a_directory = refl
      skip_status_lem not_present_here = refl
      skip_status_lem not_newer_or_longer = refl
      skip_status_lem not_newer = refl
      skip_status_lem same_date_and_length = refl
      skip_status_lem exists = refl
      skip_status_lem identical = refl

      act_on-IsFiled :
          (k : Decision)
          → IsFiledIfAny env file disk
              (is_append k)
              (act_on paths crc remote run_data env disk h o k)
      unfolding act_on skip_file end_session
      act_on-IsFiled (write_to target) = write_file-IsFiled target false
      act_on-IsFiled (append_to target) = write_file-IsFiled target true
      act_on-IsFiled (skip_it target why) =
          same_disk-IsFiled env file disk false _ refl (skip_status_lem why)
      act_on-IsFiled (ask_failed e) = same_disk-IsFiled env file disk false _ refl refl
      act_on-IsFiled endless = tt

      receive_file-IsFiledIfAny :
          (name : Bytes) (dest : Destination) (own : ConflictPolicy)
          → IsFiledIfAny env file disk
              (appends paths crc remote run_data env disk h o dest own)
              (receive_file paths crc remote run_data env disk h o name dest own)
      unfolding receive_file skip_file end_session
      receive_file-IsFiledIfAny name (chosen path policy) own =
          let append = appends paths crc remote run_data env disk h o (chosen path policy) own in
          if_cases (IsFiledIfAny env file disk append) (length name == 0) _ _
            (λ t. same_disk-IsFiled env file disk append _ refl refl) (λ f. act_on-IsFiled _)
      receive_file-IsFiledIfAny name no_destination own =
          same_disk-IsFiled env file disk false _ refl
            (if_cases (λ s. is_received s ≡ false) (length name == 0) _ _ (λ t. refl) (λ f. refl))
      receive_file-IsFiledIfAny name destination_failed own =
          same_disk-IsFiled env file disk false _ refl refl
      receive_file-IsFiledIfAny name cancelled_choice own =
          if_cases (λ r. IsFiledIfAny env file disk false (some r)) (length name == 0) _ _
            (λ t. same_disk-IsFiled env file disk false _ refl refl)
            (λ f. same_disk-IsFiled env file disk false _ refl refl)

      -- However the transfer of a file ends, receiveFile changes no path but its target's, that of the
      -- partial file beside it, and those at which nothing was and MkdirAll makes a folder for the target.
      -- If the decision was not to append, the target holds what it held before, or the file, whole, and
      -- then the file counts as received; if it was, what it held before, alone or with a front of the
      -- file behind it. A file that counts as received stands at its target whole, behind what was there
      -- just if the decision was to append, a resumed one too. The line is honest, the sender's answers
      -- are CRCs of the file's fronts, no partial file is another one with the same CRC, and the offer's
      -- size is at most the file's.
      pub receive_file-IsFiled :
          (name : Bytes) (dest : Destination) (own : ConflictPolicy) (r : Filed)
          → receive_file paths crc remote run_data env disk h o name dest own ≡ some r
          → IsFiled env file disk (appends paths crc remote run_data env disk h o dest own) r
      receive_file-IsFiled name dest own r e =
          subst
            (IsFiledIfAny env file disk (appends paths crc remote run_data env disk h o dest own)) e
            (receive_file-IsFiledIfAny name dest own)
