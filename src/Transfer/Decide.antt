-- ===== src/Transfer/Decide.antt =====
-- What `decide` of zmodem.go does about a file that is offered and one that is there, with the conflict
-- policies. The CRC of the bytes and the sender's answer to ZCRC are parameters.
use go_serial_cli.Common.{
  ℕ, Bool, true, false, not, ◌&&◌, ◌||◌, ◌==◌, ltb, leb, if◌then◌else◌, bit_and, Bytes, Option,
  none, some, length, take,
}
use go_serial_cli.Zmodem.Header.{
  Header, f0, f1, z_cresum, z_m_sk_no_loc, z_m_mask, z_mnewl, z_mcrc, z_mapnd, z_mclob, z_mnew,
  z_mdiff, z_mprot, z_mchng,
}
use go_serial_cli.Zmodem.Link.{LinkError}
use go_serial_cli.Transfer.Disk.{
  PathSystem, FilePath, Entry, regular, folder, unreadable, FileSystem, file_exists, renamed_path,
}

-- The policies, "" as `unset` and zConflictNone as `no_option`.
pub data ConflictPolicy : Type 0 where
  unset skip_identical_else_rename overwrite skip rename no_option : ConflictPolicy

unfoldable pub zmanagement : ConflictPolicy → ℕ
zmanagement overwrite = z_mclob
zmanagement skip = z_mprot
zmanagement rename = z_mchng
zmanagement no_option = 0
zmanagement unset = z_mcrc
zmanagement skip_identical_else_rename = z_mcrc

-- Go's `policy != ""`.
unfoldable pub is_explicit : ConflictPolicy → Bool
is_explicit unset = false
is_explicit p = true

-- ZFileInfo, without the name: a size and a time of change that may be missing.
pub record Offer : Type 0 where
  pub size : Option ℕ
  pub changed : Option ℕ

pub data Reason : Type 0 where
  target_is_a_directory not_present_here not_newer_or_longer not_newer same_date_and_length exists
        identical :
      Reason

pub data Decision : Type 0 where
  write_to : FilePath → Decision
  append_to : FilePath → Decision
  skip_it : FilePath → Reason → Decision
  ask_failed : LinkError → Decision
  endless : Decision

-- What zPrefixCRC returns.
pub data CrcAnswer : Type 0 where
  crc_is : ℕ → CrcAnswer
  no_answer : CrcAnswer
  crc_failed : LinkError → CrcAnswer

-- What the closure `identical` returns.
pub data Comparison : Type 0 where
  same differs : Comparison
  not_compared : LinkError → Comparison

unfoldable pub is_newer : Offer → ℕ → Bool
is_newer o at = elim o.changed [ none ↦ true | some t ↦ ltb at t ]

unfoldable pub is_longer : Offer → ℕ → Bool
is_longer o size = elim o.size [ none ↦ false | some n ↦ ltb size n ]

unfoldable pub differs_in_stat : Offer → ℕ → ℕ → Bool
differs_in_stat o size at =
    elim o.size [ none ↦ true | some n ↦ not (n == size) ]
    || elim o.changed [ none ↦ false | some t ↦ not (t == at) ]

unfoldable pub crc_ok : Header → ℕ → Bool
crc_ok h management = f0 h == z_cresum || management == z_mcrc || bit_and (f1 h) z_m_mask == z_mcrc

unfoldable pub write_renamed : Option FilePath → Decision
write_renamed none = endless
write_renamed (some path) = write_to path

module _ (paths : PathSystem) (crc : Bytes → ℕ) (remote : ℕ → CrcAnswer) where
  -- localPrefixCRC, which fails where the file is shorter.
  unfoldable pub local_prefix_crc : Bytes → ℕ → Option ℕ
  local_prefix_crc bytes n = if leb n (length bytes) then some (crc (take n bytes)) else none

  unfoldable pub compare_crc : Option ℕ → ℕ → Comparison
  compare_crc none theirs = differs
  compare_crc (some ours) theirs = if ours == theirs then same else differs

  unfoldable pub compare_content : Bytes → ℕ → CrcAnswer → Comparison
  compare_content bytes n (crc_is theirs) = compare_crc (local_prefix_crc bytes n) theirs
  compare_content bytes n no_answer = differs
  compare_content bytes n (crc_failed e) = not_compared e

  unfoldable pub compare_offer : Bool → Bytes → Option ℕ → Comparison
  compare_offer ok bytes none = differs
  compare_offer ok bytes (some n) =
      if not ok || not (length bytes == n) then differs else compare_content bytes n (remote n)

  unfoldable pub is_identical : Bool → Offer → Bytes → Comparison
  is_identical ok o bytes = compare_offer ok bytes o.size

  unfoldable pub if_identical : FileSystem → FilePath → Comparison → Decision
  if_identical disk target same = skip_it target identical
  if_identical disk target differs = write_renamed (renamed_path paths disk target)
  if_identical disk target (not_compared e) = ask_failed e

  -- The last switch: ZMCRC, no option, or a policy of this side.
  unfoldable pub by_policy :
      Header → ℕ → FileSystem → Offer → FilePath → Bytes → ConflictPolicy → Decision
  by_policy h management disk o target bytes overwrite = write_to target
  by_policy h management disk o target bytes skip = skip_it target exists
  by_policy h management disk o target bytes rename = write_renamed (renamed_path paths disk target)
  by_policy h management disk o target bytes unset =
      if_identical disk target (is_identical (crc_ok h management) o bytes)
  by_policy h management disk o target bytes skip_identical_else_rename =
      if_identical disk target (is_identical (crc_ok h management) o bytes)
  by_policy h management disk o target bytes no_option =
      if_identical disk target (is_identical (crc_ok h management) o bytes)

  -- The switch on the management option, for a file that exists.
  unfoldable pub by_management :
      Header → ℕ → FileSystem → Offer → FilePath → Bytes → ℕ → ConflictPolicy → Decision
  by_management h management disk o target bytes at policy =
      if management == z_mnewl
      then (if is_newer o at || is_longer o (length bytes)
          then write_to target
          else skip_it target not_newer_or_longer)
      else if management == z_mapnd
      then append_to target
      else if management == z_mclob
      then write_to target
      else if management == z_mnew
      then (if is_newer o at then write_to target else skip_it target not_newer)
      else if management == z_mdiff
      then (if differs_in_stat o (length bytes) at
          then write_to target
          else skip_it target same_date_and_length)
      else if management == z_mprot
      then skip_it target exists
      else if management == z_mchng
      then write_renamed (renamed_path paths disk target)
      else by_policy h management disk o target bytes policy

  unfoldable pub decide_missing : Header → FilePath → Bool → Decision
  decide_missing h target explicit =
      if not explicit && not (bit_and (f1 h) z_m_sk_no_loc == 0)
      then skip_it target not_present_here
      else write_to target

  unfoldable pub decide_about :
      Header → FileSystem → Offer → FilePath → ConflictPolicy → Bool → Option Entry → Decision
  decide_about h disk o target policy explicit none = decide_missing h target explicit
  decide_about h disk o target policy explicit (some (regular bytes at)) =
      by_management h (if explicit then 0 else bit_and (f1 h) z_m_mask) disk o target bytes at
        policy
  decide_about h disk o target policy explicit (some folder) = skip_it target target_is_a_directory
  decide_about h disk o target policy explicit (some unreadable) = decide_missing h target explicit

  unfoldable pub decide : Header → FileSystem → Offer → FilePath → ConflictPolicy → Bool → Decision
  decide h disk o target policy explicit =
      decide_about h disk o target policy explicit (file_exists disk target)
