-- ===== src/Transfer/ReceiveFileSafe.antt =====
-- What `receiveFile` of zmodem.go leaves on the disk, however the transfer of a file ends.
use go_serial_cli.Common.{
  List, [], ◌∷◌, none, ℕ, ◌≡◌, refl, sym, ap, ◌∙◌, Bool, true, false, not, ltb, if◌then◌else◌,
  if_cases, Bytes, ◌++◌, some, length, take, inl, inr, ◌⊎◌, take_all,
}
use go_serial_cli.Transfer.Disk.{
  folder, FilePath, Entry, regular, FileSystem, look_up, remove_entry, put_entry,
}
use go_serial_cli.Transfer.DiskRemove.{look_up-remove_entry}
use go_serial_cli.Transfer.Options.{Outcome, ok, resumed, skipped, refused}
use go_serial_cli.Transfer.ReceiveFile.{
  System, Filed, part_of, contents_at, with_part, commit_part, commit_failed, filed, write_failed,
  finish_file,
}
use go_serial_cli.Transfer.Names.{same_runes}
use go_serial_cli.Transfer.DiskEntries.{
  look_up-put_entry, look_up-put_entry_other, contents_at-put_entry, contents_at_same, part_differs,
  same_cases,
}

abbrev pub is_received : Outcome → Bool
is_received ok = true
is_received resumed = true
is_received skipped = false
is_received refused = false
is_received Outcome.cancelled = false
is_received Outcome.failed = false
is_received Outcome.partial = false

abbrev pub IsAmong : FilePath → List FilePath → Type 0
IsAmong p [] = ⊥
IsAmong p (q ∷ qs) = (p ≡ q) ⊎ IsAmong p qs

-- What an offer makes of a file that was there: itself in its place, or itself behind it.
abbrev pub committed : Bool → Bytes → Bytes → Bytes
committed false old file = file
committed true old file = old ++ file

-- What a path holds behind receiveFile, by whether the decision was to append: what it held, a folder
-- that MkdirAll made for the target where nothing was, anything at the partial file's path, or at the
-- target's path the whole file, if it was received, or where it is appended what was there and a front
-- of the file.
pub data IsLeft (env : System) (file : Bytes) (disk : FileSystem) (append : Bool) (r : Filed)
    (p : FilePath) : Type 0 where
  untouched : look_up r.disk p ≡ look_up disk p → IsLeft env file disk append r p
  new_folder :
      IsAmong p (env.folders r.path)
      → look_up disk p ≡ none
      → look_up r.disk p ≡ some folder
      → IsLeft env file disk append r p
  partial_file : p ≡ part_of r.path → IsLeft env file disk append r p
  whole_file :
      (at : ℕ)
      → p ≡ r.path
      → append ≡ false
      → is_received r.status ≡ true
      → look_up r.disk p ≡ some (regular file at)
      → IsLeft env file disk append r p
  lengthened :
      (at k : ℕ)
      → p ≡ r.path
      → append ≡ true
      → look_up r.disk p ≡ some (regular (contents_at disk p ++ take k file) at)
      → IsLeft env file disk append r p

-- Every path is as it should be, and a file that counts as received is at its target.
abbrev pub IsFiled : System → Bytes → FileSystem → Bool → Filed → Type 0
IsFiled env file disk append r =
    ((p : FilePath) → IsLeft env file disk append r p)
    × (is_received r.status ≡ true
        → (at : ℕ) × (look_up r.disk r.path
            ≡ some (regular (committed append (contents_at disk r.path) file) at)))

module _ (file : Bytes) (env : System) (disk : FileSystem) (target : FilePath) (start : ℕ) where
  abbrev total : Bytes → Bytes
  total bytes = take start (contents_at disk (part_of target)) ++ bytes

  pub elsewhere :
      (p bytes : Bytes)
      → same_runes (part_of target) p ≡ false
      → look_up (with_part env disk target start bytes) p ≡ look_up disk p
  unfolding with_part
  elsewhere p bytes h = look_up-put_entry_other disk (part_of target) p _ h

  in_part :
      (bytes : Bytes)
      → contents_at (with_part env disk target start bytes) (part_of target) ≡ total bytes
  unfolding with_part
  in_part bytes = contents_at-put_entry disk (part_of target) (total bytes) env.clock

  at_target :
      (bytes : Bytes)
      → contents_at (with_part env disk target start bytes) target ≡ contents_at disk target
  at_target bytes = contents_at_same _ disk target (elsewhere target bytes (part_differs target))

  -- A file that is not committed is there as its partial file at most.
  pub part_only-IsFiled :
      (append : Bool) (r : Filed)
      → r.path ≡ target
      → is_received r.status ≡ false
      → ((p : FilePath) → same_runes (part_of target) p ≡ false → look_up r.disk p ≡ look_up disk p)
      → IsFiled env file disk append r
  part_only-IsFiled append r e f h = (
    (λ p. elim (same_cases p (part_of target)) [
      | inl same ↦ partial_file (same ∙ ap part_of (sym e))
      | inr other ↦ untouched (h p other)
    ]),
    (λ t. absurd cc),
  )

  pub write_failed-IsFiled :
      (append : Bool) (bytes : Bytes)
      → IsFiled env file disk append (write_failed env disk target start bytes)
  unfolding write_failed filed
  write_failed-IsFiled append bytes =
      if_cases (IsFiled env file disk append) env.is_disk_full _ _
        (λ t. part_only-IsFiled append _ refl refl (λ p h. elsewhere p _ h))
        (λ f.
          part_only-IsFiled append _ refl refl
            (λ p h. look_up-remove_entry _ (part_of target) p h ∙ elsewhere p _ h))

  module _ (bytes : Bytes) (whole : total bytes ≡ file) where
    abbrev d : FileSystem
    d = with_part env disk target start bytes

    -- A path that neither file stands at.
    put_elsewhere :
        (e : Entry) (d' : FileSystem) (p : FilePath)
        → ((q : FilePath) → same_runes (part_of target) q ≡ false → look_up d' q ≡ look_up disk q)
        → same_runes target p ≡ false
        → same_runes (part_of target) p ≡ false
        → look_up (put_entry target e d') p ≡ look_up disk p
    put_elsewhere e d' p kept h g = look_up-put_entry_other d' target p e h ∙ kept p g

    removed :
        (q : FilePath)
        → same_runes (part_of target) q ≡ false
        → look_up (remove_entry (part_of target) d) q ≡ look_up disk q
    removed q h = look_up-remove_entry d (part_of target) q h ∙ elsewhere q bytes h

    renamed_entry :
        look_up (commit_part env disk target start false d) target ≡ some (regular file env.clock)
    unfolding commit_part
    renamed_entry =
        look_up-put_entry _ target _ ∙ ap (λ b. some (regular b env.clock)) (in_part bytes ∙ whole)

    appended_entry :
        look_up (commit_part env disk target start true d) target
        ≡ some (regular (contents_at disk target ++ file) env.clock)
    unfolding commit_part
    appended_entry =
        look_up-put_entry _ target _
        ∙ ap (λ b. some (regular (b ++ contents_at d (part_of target)) env.clock)) (at_target bytes)
        ∙ ap (λ b. some (regular (contents_at disk target ++ b) env.clock)) (in_part bytes ∙ whole)

    committed_elsewhere :
        (append : Bool) (p : FilePath)
        → same_runes target p ≡ false
        → same_runes (part_of target) p ≡ false
        → look_up (commit_part env disk target start append d) p ≡ look_up disk p
    unfolding commit_part
    committed_elsewhere false p h g = put_elsewhere _ _ p removed h g
    committed_elsewhere true p h g = put_elsewhere _ _ p removed h g

    commit_failed_other :
        (append : Bool) (p : FilePath)
        → same_runes (part_of target) p ≡ false
        → (p ≡ target) ⊎ (same_runes target p ≡ false)
        → IsLeft env file disk append
            (filed env disk target start Outcome.failed
              (length bytes)
              (commit_failed env disk target start append d))
            p
    unfolding commit_failed filed
    commit_failed_other false p other c = untouched (elsewhere p bytes other)
    commit_failed_other true p other (inr away) =
        untouched (put_elsewhere _ d p (λ q h. elsewhere q bytes h) away other)
    commit_failed_other true p other (inl e) = lengthened env.clock env.appended e refl (
        ap (look_up _) e
        ∙ look_up-put_entry d target _
        ∙ ap
            (λ b.
              some (regular (b ++ take env.appended (contents_at d (part_of target))) env.clock))
            (at_target bytes ∙ ap (contents_at disk) (sym e))
        ∙ ap (λ b. some (regular (contents_at disk p ++ take env.appended b) env.clock))
            (in_part bytes ∙ whole))

    commit_failed-IsLeft :
        (append : Bool) (p : FilePath)
        → IsLeft env file disk append
            (filed env disk target start Outcome.failed
              (length bytes)
              (commit_failed env disk target start append d))
            p
    unfolding commit_failed filed
    commit_failed-IsLeft append p = elim (same_cases p (part_of target)) [
      | inl same ↦ partial_file same
      | inr other ↦ commit_failed_other append p other (same_cases p target)
    ]

    committed_here :
        (append : Bool) (status : Outcome) (p : FilePath)
        → is_received status ≡ true
        → p ≡ target
        → IsLeft env file disk append
            (filed env disk target start status
              (length bytes)
              (commit_part env disk target start append d))
            p
    unfolding filed
    committed_here false status p t e =
        whole_file env.clock e refl t (ap (look_up _) e ∙ renamed_entry)
    committed_here true status p t e = lengthened env.clock (length file) e refl (
        ap (look_up _) e
        ∙ appended_entry
        ∙ ap (λ b. some (regular (b ++ file) env.clock)) (ap (contents_at disk) (sym e))
        ∙ ap (λ b. some (regular (contents_at disk p ++ b) env.clock)) (sym (take_all file)))

    received_status : (b : Bool) → is_received (if b then resumed else ok) ≡ true
    received_status true = refl
    received_status false = refl

    committed_file :
        (append : Bool)
        → (at : ℕ) × (look_up (commit_part env disk target start append d) target
            ≡ some (regular (committed append (contents_at disk target) file) at))
    committed_file false = (env.clock, renamed_entry)
    committed_file true = (env.clock, appended_entry)

    committed-IsLeft :
        (append : Bool) (status : Outcome) (p : FilePath)
        → is_received status ≡ true
        → IsLeft env file disk append
            (filed env disk target start status
              (length bytes)
              (commit_part env disk target start append d))
            p
    unfolding filed
    committed-IsLeft append status p t = elim (same_cases p (part_of target)) [
      | inl same ↦ partial_file same
      | inr other ↦ elim (same_cases p target) [
        | inl e ↦ committed_here append status p t e
        | inr away ↦ untouched (committed_elsewhere append p away other)
      ]
    ]

    pub finish_file-IsFiled :
        (append : Bool)
        → IsFiled env file disk append (finish_file env disk target start append bytes)
    unfolding finish_file filed
    finish_file-IsFiled append =
        if_cases (IsFiled env file disk append) (not env.flushes) _ _
          (λ t. write_failed-IsFiled append bytes)
          (λ t.
            if_cases (IsFiled env file disk append) (not env.commits) _ _
              (λ u. (commit_failed-IsLeft append, (λ x. absurd cc)))
              (λ u. (
                (λ p.
                    committed-IsLeft append (if ltb 0 start then resumed else ok) p
                      (received_status (ltb 0 start))),
                (λ x. committed_file append),
              )))
