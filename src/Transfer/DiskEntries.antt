-- ===== src/Transfer/DiskEntries.antt =====
-- What is where on the disk of zmodem.go's receiver behind a write, a removal and a commit.
use go_serial_cli.Common.{
  ℕ, ◌≡◌, refl, sym, ap, false, Bytes, [], ◌∷◌, none, some, length, Bool-cases, inl, inr, arith,
  length-append, ◌⊎◌,
}
use go_serial_cli.Transfer.Names.{same_runes}
use go_serial_cli.Transfer.Disk.{
  FilePath, Entry, regular, folder, unreadable, FileSystem, look_up, put_entry,
}
use go_serial_cli.Transfer.DiskRemove.{same_runes_sound, same_runes_refl, look_up-remove_entry}
use go_serial_cli.Transfer.ReceiveFile.{part_of, contents_at}

pub look_up-put_entry :
    (disk : FileSystem) (p : FilePath) (e : Entry) → look_up (put_entry p e disk) p ≡ some e
unfolding look_up put_entry
look_up-put_entry disk p e = rw (same_runes_refl p) refl

pub look_up-put_entry_other :
    (disk : FileSystem) (p q : FilePath) (e : Entry)
    → same_runes p q ≡ false
    → look_up (put_entry p e disk) q ≡ look_up disk q
unfolding look_up put_entry
look_up-put_entry_other disk p q e h = rw h (look_up-remove_entry disk p q h)

pub contents_at-put_entry :
    (disk : FileSystem) (p : FilePath) (bytes : Bytes) (at : ℕ)
    → contents_at (put_entry p (regular bytes at) disk) p ≡ bytes
unfolding contents_at
contents_at-put_entry disk p bytes at =
    rw (contents_at, look_up-put_entry disk p (regular bytes at)) refl

pub contents_at_same :
    (d d' : FileSystem) (p : FilePath)
    → look_up d p ≡ look_up d' p
    → contents_at d p ≡ contents_at d' p
unfolding contents_at
contents_at_same d d' p h =
    ap
      (λ o. elim o [
        | none ↦ []
        | some e ↦ elim e [ regular bytes at ↦ bytes | folder ↦ [] | unreadable ↦ [] ]
      ])
      h

same_runes-false : (p q : FilePath) → (p ≡ q → ⊥) → same_runes p q ≡ false
same_runes-false p q h = elim (Bool-cases (same_runes p q)) [
  | inl t ↦ absurd (h (same_runes_sound p q t))
  | inr f ↦ f
]

pub part_differs : (p : FilePath) → same_runes (part_of p) p ≡ false
unfolding part_of
part_differs p = same_runes-false _ p (λ e.
    absurd (omega (arith, ap length e, length-append p (46 ∷ 122 ∷ 112 ∷ 97 ∷ 114 ∷ 116 ∷ []))))

pub target_differs : (p : FilePath) → same_runes p (part_of p) ≡ false
unfolding part_of
target_differs p = same_runes-false p _ (λ e.
    absurd (omega (arith, ap length e, length-append p (46 ∷ 122 ∷ 112 ∷ 97 ∷ 114 ∷ 116 ∷ []))))

pub same_cases : (p q : FilePath) → (p ≡ q) ⊎ (same_runes q p ≡ false)
same_cases p q = elim (Bool-cases (same_runes q p)) [
  | inl t ↦ inl (sym (same_runes_sound q p t))
  | inr f ↦ inr f
]
