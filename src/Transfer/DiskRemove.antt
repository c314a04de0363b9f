-- ===== src/Transfer/DiskRemove.antt =====
-- A disk of zmodem.go's receiver behind the removal of an entry.
use go_serial_cli.Common.{
  suc, ◌≤◌, ◌<◌, ◌≡◌, refl, sym, ap, ◌∙◌, true, false, if◌then◌else◌, if_cases, [], ◌∷◌, none, some,
  length, arith, Bool-cases, inl, inr,
}
use go_serial_cli.Transfer.Names.{same_runes}
use go_serial_cli.Transfer.Disk.{FilePath, Entry, FileSystem, look_up, remove_entry, is_absent}

pub same_runes_sound : (xs ys : FilePath) → same_runes xs ys ≡ true → xs ≡ ys
unfolding same_runes
same_runes_sound [] [] h = refl
same_runes_sound [] (y ∷ ys) h = absurd cc
same_runes_sound (x ∷ xs) [] h = absurd cc
same_runes_sound (x ∷ xs) (y ∷ ys) h =
    let e : x ≡ y = ground (arith, h) in
    let rest : same_runes xs ys ≡ true = ground (arith, h) in
    ap (λ k. k ∷ xs) e ∙ ap (◌∷◌ y) (same_runes_sound xs ys rest)

pub same_runes_refl : (xs : FilePath) → same_runes xs xs ≡ true
unfolding same_runes
same_runes_refl [] = refl
same_runes_refl (x ∷ xs) = ground (arith, same_runes_refl xs)

-- Another path's entry does not move when an entry is removed.
pub look_up-remove_entry :
    (disk : FileSystem) (p q : FilePath)
    → same_runes p q ≡ false
    → look_up (remove_entry p disk) q ≡ look_up disk q
unfolding look_up remove_entry
look_up-remove_entry [] p q h = refl
look_up-remove_entry ((r, e) ∷ disk) p q h = elim (Bool-cases (same_runes r p)) [
  | inl t ↦
      let other : same_runes r q ≡ false = ap (λ k. same_runes k q) (same_runes_sound r p t) ∙ h in
      rw (t, other) (look_up-remove_entry disk p q h)
  | inr f ↦ rw f (ap (λ k. if same_runes r q then some e else k) (look_up-remove_entry disk p q h))
]

length-remove_entry_le :
    (disk : FileSystem) (p : FilePath) → length (remove_entry p disk) ≤ length disk
unfolding remove_entry
length-remove_entry_le [] p = omega arith
length-remove_entry_le ((r, e) ∷ disk) p =
    let rest = length-remove_entry_le disk p in
    if_cases {A = FileSystem} (λ d. length d ≤ suc (length disk)) (same_runes r p) _ _
      (λ t. omega (arith, rest)) (λ f. omega (arith, rest))

is_absent_behind :
    (disk : FileSystem) (r p : FilePath) (e : Entry)
    → same_runes r p ≡ false
    → is_absent ((r, e) ∷ disk) p ≡ is_absent disk p
unfolding is_absent look_up
is_absent_behind disk r p e f =
    ap (λ o. elim o [ none ↦ true | some e ↦ false ])
      (ap (λ b. if b then some e else look_up disk p) f)

pub is_absent-remove_entry :
    (disk : FileSystem) (p q : FilePath)
    → same_runes p q ≡ false
    → is_absent (remove_entry p disk) q ≡ is_absent disk q
unfolding is_absent
is_absent-remove_entry disk p q h =
    ap (λ o. elim o [ none ↦ true | some e ↦ false ]) (look_up-remove_entry disk p q h)

pub length-remove_entry_lt :
    (disk : FileSystem) (p : FilePath)
    → is_absent disk p ≡ false
    → length (remove_entry p disk) < length disk
unfolding remove_entry is_absent look_up
length-remove_entry_lt [] p h = absurd cc
length-remove_entry_lt ((r, e) ∷ disk) p h = elim (Bool-cases (same_runes r p)) [
  | inl t ↦ rw t (omega (arith, length-remove_entry_le disk p))
  | inr f ↦
      rw f (omega (arith, length-remove_entry_lt disk p (sym (is_absent_behind disk r p e f) ∙ h)))
]
