-- ===== src/Transfer/ReceiveFolders.antt =====
-- The folders that `receiveFile` of zmodem.go has made for its target: what MkdirAll changes on the disk.
use go_serial_cli.Common.{
  ◌≡◌, refl, sym, ap, ◌∙◌, Bool, Bytes, List, [], ◌∷◌, ◌++◌, none, some, inl, inr, ◌⊎◌, take, ℕ,
  Option, not, Option-cases, if_cases, true, false,
}
use mathlib.Core.Path.{subst}
use go_serial_cli.Transfer.Disk.{
  PathSystem, FilePath, regular, folder, FileSystem, look_up, put_entry, is_absent, make_folders,
}
use go_serial_cli.Transfer.ReceiveFile.{
  System, Filed, contents_at, write_failed, finish_file, filed, after_data, open_part, skip_file,
  end_session, Resume, resume_failed, starts,
}
use go_serial_cli.Transfer.Decide.{CrcAnswer}
use go_serial_cli.Transfer.Receive.{
  Progress, going, complete, ended, failed, link, gave_up, write_error, peer_aborted,
}
use go_serial_cli.Transfer.DiskEntries.{
  look_up-put_entry, look_up-put_entry_other, contents_at_same, same_cases,
}
use go_serial_cli.Transfer.ReceiveFileSafe.{
  IsAmong, committed, IsLeft, untouched, new_folder, partial_file, whole_file, lengthened, IsFiled,
}

is_absent-none :
    (disk : FileSystem) (p : FilePath) → is_absent disk p ≡ true → look_up disk p ≡ none
unfolding is_absent
is_absent-none disk p h = elim (Option-cases (look_up disk p)) [
  | inl e ↦ e
  | inr (x, e) ↦
      let came : true ≡ false = sym h ∙ ap (λ o. elim o [ none ↦ true | some e ↦ false ]) e in
      absurd cc
]

-- What the making of some folders may change at a path.
abbrev IsMade : List FilePath → FileSystem → FilePath → FileSystem → Type 0
IsMade ps disk p made =
    (look_up made p ≡ look_up disk p)
    ⊎ (IsAmong p ps × (look_up disk p ≡ none) × (look_up made p ≡ some folder))

make_folder-IsMade :
    (q : FilePath) (ps : List FilePath) (disk : FileSystem) (p : FilePath) (made : FileSystem)
    → IsMade (q ∷ ps) disk p made
    → is_absent made q ≡ true
    → IsMade (q ∷ ps) disk p (put_entry q folder made)
make_folder-IsMade q ps disk p made rest free = elim (same_cases p q) [
  | inl e ↦
      let was : look_up made p ≡ none = ap (look_up made) e ∙ is_absent-none made q free in
      let never : look_up disk p ≡ none = elim rest [
        | inl same ↦ sym same ∙ was
        | inr (m, gone, f) ↦ gone
      ] in
      inr (inl e, never, ap (look_up _) e ∙ look_up-put_entry made q folder)
  | inr other ↦
      let kept = look_up-put_entry_other made q p folder other in
      elim rest [ inl e ↦ inl (kept ∙ e) | inr (m, e, f) ↦ inr (m, e, kept ∙ f) ]
]

make_folders_lem :
    (ps : List FilePath) (disk : FileSystem) (p : FilePath)
    → IsMade ps disk p (make_folders ps disk)
unfolding make_folders
make_folders_lem [] disk p = inl refl
make_folders_lem (q ∷ ps) disk p =
    let made = make_folders ps disk in
    let rest : IsMade (q ∷ ps) disk p made = elim (make_folders_lem ps disk p) [
      | inl e ↦ inl e
      | inr (m, e, f) ↦ inr (inr m, e, f)
    ] in
    if_cases (IsMade (q ∷ ps) disk p) (is_absent made q) _ _
      (λ t. make_folder-IsMade q ps disk p made rest t) (λ f. rest)

pub contents_at-make_folders :
    (ps : List FilePath) (disk : FileSystem) (p : FilePath)
    → contents_at (make_folders ps disk) p ≡ contents_at disk p
unfolding contents_at
contents_at-make_folders ps disk p = elim (make_folders_lem ps disk p) [
  | inl e ↦ contents_at_same _ disk p e
  | inr (m, e, f) ↦ rw (contents_at, e, f) refl
]

IsLeft-made :
    (env : System) (file : Bytes) (disk : FileSystem) (append : Bool) (r : Filed) (p : FilePath)
    → IsLeft env file (make_folders (env.folders r.path) disk) append r p
    → IsLeft env file disk append r p
IsLeft-made env file disk append r p (untouched e) =
    elim (make_folders_lem (env.folders r.path) disk p) [
      | inl same ↦ untouched (e ∙ same)
      | inr (m, was, now) ↦ new_folder m was (e ∙ now)
    ]
IsLeft-made env file disk append r p (new_folder m was now) =
    elim (make_folders_lem (env.folders r.path) disk p) [
      | inl same ↦ new_folder m (sym same ∙ was) now
      | inr (m', was', now') ↦ new_folder m was' now
    ]
IsLeft-made env file disk append r p (partial_file e) = partial_file e
IsLeft-made env file disk append r p (whole_file at e a t now) = whole_file at e a t now
IsLeft-made env file disk append r p (lengthened at k e a now) = lengthened at k e a (
    now
    ∙ ap (λ old. some (regular (old ++ take k file) at))
        (contents_at-make_folders (env.folders r.path) disk p))

-- What was left on the disk with the new folders, seen from the disk before MkdirAll.
pub IsFiled-make_folders :
    (env : System) (file : Bytes) (disk : FileSystem) (append : Bool) (r : Filed)
    → IsFiled env file (make_folders (env.folders r.path) disk) append r
    → IsFiled env file disk append r
IsFiled-make_folders env file disk append r (left, here) =
    let made = make_folders (env.folders r.path) disk in
    let back : (p : FilePath) → IsLeft env file made append r p → IsLeft env file disk append r p =
      IsLeft-made env file disk append r in
    (
      (λ p. back p (left p)),
      (λ t.
          let (at, e) = here t in
          (
            at,
            e
                ∙ ap (λ old. some (regular (committed append old file) at))
                    (contents_at-make_folders (env.folders r.path) disk r.path),
          )),
    )

abbrev pub IsFiledIfAny : System → Bytes → FileSystem → Bool → Option Filed → Type 0
IsFiledIfAny env file disk append none = Unit
IsFiledIfAny env file disk append (some r) = IsFiled env file disk append r

-- The result, if there is one, is about the target.
abbrev pub HasPath : FilePath → Option Filed → Type 0
HasPath target none = Unit
HasPath target (some r) = r.path ≡ target

pub IsFiledIfAny-make_folders :
    (env : System) (file : Bytes) (disk : FileSystem) (append : Bool) (target : FilePath)
    (o : Option Filed)
    → HasPath target o
    → IsFiledIfAny env file (make_folders (env.folders target) disk) append o
    → IsFiledIfAny env file disk append o
IsFiledIfAny-make_folders env file disk append target none e g = tt
IsFiledIfAny-make_folders env file disk append target (some r) e g =
    IsFiled-make_folders env file disk append r
      (subst (λ t. IsFiled env file (make_folders (env.folders t) disk) append r) (sym e) g)

module _ (env : System) (disk : FileSystem) (target : FilePath) (start : ℕ) where
  write_failed-path : (bytes : Bytes) → (write_failed env disk target start bytes).path ≡ target
  unfolding write_failed filed
  write_failed-path bytes =
      if_cases {A = Filed} (λ r. r.path ≡ target) env.is_disk_full _ _ (λ t. refl) (λ f. refl)

  finish_file-path :
      (append : Bool) (bytes : Bytes)
      → (finish_file env disk target start append bytes).path ≡ target
  unfolding finish_file filed
  finish_file-path append bytes =
      if_cases {A = Filed} (λ r. r.path ≡ target) (not env.flushes) _ _
        (λ t. write_failed-path bytes)
        (λ f.
          if_cases {A = Filed} (λ r. r.path ≡ target) (not env.commits) _ _ (λ u. refl) (λ u. refl))

  after_data-HasPath :
      (append : Bool) (p : Progress) → HasPath target (after_data env disk target start append p)
  unfolding after_data filed
  after_data-HasPath append (going s) = tt
  after_data-HasPath append (complete s) = finish_file-path append s.written
  after_data-HasPath append (ended s) = refl
  after_data-HasPath append (failed write_error s) = write_failed-path s.written
  after_data-HasPath append (failed (link x) s) = refl
  after_data-HasPath append (failed gave_up s) = refl
  after_data-HasPath append (failed peer_aborted s) = refl

module _ (paths : PathSystem) (crc : Bytes → ℕ) (remote : ℕ → CrcAnswer) (run : ℕ → Progress)
    (env : System) (disk : FileSystem) where
  pub open_part-HasPath :
      (target : FilePath) (append : Bool) (r : Resume)
      → HasPath target (open_part paths crc remote run env disk target append r)
  unfolding open_part skip_file end_session
  open_part-HasPath target append (resume_failed e) = refl
  open_part-HasPath target append (starts start) =
      if_cases (HasPath target) (not env.opens) _ _ (λ t. refl)
        (λ f.
          if_cases (HasPath target) (not env.truncates) _ _ (λ t. refl)
            (λ f. after_data-HasPath env disk target start append (run start)))
