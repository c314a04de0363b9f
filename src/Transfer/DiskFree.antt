-- ===== src/Transfer/DiskFree.antt =====
-- The names that `renamedPath` of zmodem.go tries, and where its loop ends.
use go_serial_cli.Common.{
  not, ◌&&◌, ◌⊎◌, ℕ, zero, suc, ◌+◌, ◌-◌, ◌*◌, ◌/◌, ◌%◌, ◌≤◌, ◌<◌, ◌≡◌, refl, sym, ap, ◌∙◌, true,
  false, ltb, if◌then◌else◌, Bytes, [], ◌∷◌, ◌++◌, none, some, length, take, drop, arith,
  Bool-cases, inl, inr, drop-append_exact, take-append_exact, length-append,
}
use go_serial_cli.Text.Display.{decimal}
use go_serial_cli.Transfer.Names.{same_runes, underscore}
use go_serial_cli.Transfer.Disk.{
  PathSystem, is_available, FilePath, FileSystem, remove_entry, is_absent, ext, candidate,
  first_free, renamed_path,
}
use go_serial_cli.Transfer.DiskRemove.{
  same_runes_sound, is_absent-remove_entry, length-remove_entry_lt,
}

-- The number that digits spell behind a number that was read.
abbrev pub read_digits : ℕ → Bytes → ℕ
read_digits v [] = v
read_digits v (d ∷ ds) = read_digits (v * 10 + (d - 48)) ds

pub read_digits-decimal :
    (fuel n : ℕ) (ds : Bytes) → n < fuel → read_digits 0 (decimal fuel n ds) ≡ read_digits n ds
unfolding decimal
read_digits-decimal zero n ds h = absurd (omega (arith, h))
read_digits-decimal (suc fuel) n ds h = elim (Bool-cases (ltb n 10)) [
  | inl t ↦
      let e : 0 * 10 + (48 + n % 10 - 48) ≡ n = ground arith in
      rw (decimal, t) (ap (λ k. read_digits k ds) e)
  | inr f ↦
      let less : n / 10 < fuel = ground arith in
      let e : n / 10 * 10 + (48 + n % 10 - 48) ≡ n = omega arith in
      rw (decimal, f) (read_digits-decimal fuel (n / 10) _ less ∙ ap (λ k. read_digits k ds) e)
]

append_cancel_front : (xs ys zs : FilePath) → xs ++ ys ≡ xs ++ zs → ys ≡ zs
append_cancel_front xs ys zs h =
    sym (drop-append_exact xs ys) ∙ ap (drop (length xs)) h ∙ drop-append_exact xs zs

append_cancel_behind : (xs ys zs : FilePath) → xs ++ zs ≡ ys ++ zs → xs ≡ ys
append_cancel_behind xs ys zs h =
    let same : length xs ≡ length ys =
      omega (arith, ap length h, length-append xs zs, length-append ys zs) in
    sym (take-append_exact xs zs)
    ∙ ap (λ k. take k (xs ++ zs)) same
    ∙ ap (take (length ys)) h
    ∙ take-append_exact ys zs

le_cases : (i k : ℕ) → i ≤ k → (i ≡ k) ⊎ (i < k)
le_cases zero zero h = inl refl
le_cases zero (suc k) h = inr (omega arith)
le_cases (suc i) zero h = absurd (omega (arith, h))
le_cases (suc i) (suc k) h = elim (le_cases i k (omega (arith, h))) [
  | inl e ↦ inl (ap suc e)
  | inr l ↦ inr (omega (arith, l))
]

module _ (paths : PathSystem) (path : FilePath) where
  abbrev tried : ℕ → FilePath
  tried i = candidate paths path i

  decimal_injective : (i j : ℕ) → decimal (i + 1) i [] ≡ decimal (j + 1) j [] → i ≡ j
  decimal_injective i j h =
      sym (read_digits-decimal (i + 1) i [] (omega arith))
      ∙ ap (read_digits 0) h
      ∙ read_digits-decimal (j + 1) j [] (omega arith)

  candidate_injective : (i j : ℕ) → tried i ≡ tried j → i ≡ j
  unfolding candidate
  candidate_injective i j h = decimal_injective i j (
      append_cancel_behind _ _ (ext paths path) (
        append_cancel_front (underscore ∷ []) _ _
          (append_cancel_front (take (length path - length (ext paths path)) path) _ _ h)))

  tried_differ : (i j : ℕ) → i < j → same_runes (tried i) (tried j) ≡ false
  tried_differ i j h = elim (Bool-cases (same_runes (tried i) (tried j))) [
    | inl t ↦ absurd (omega (arith, h, candidate_injective i j (same_runes_sound _ _ t)))
    | inr f ↦ f
  ]

  is_available-remove_entry :
      (i j : ℕ) (disk : FileSystem)
      → i < j
      → is_available paths (remove_entry (tried i) disk) (tried j)
        ≡ is_available paths disk (tried j)
  unfolding is_available
  is_available-remove_entry i j disk h =
      ap (λ b. not (paths.lstat_fails (tried j)) && b)
        (is_absent-remove_entry disk (tried i) (tried j) (tried_differ i j h))

  first_free-remove_entry :
      (fuel i j : ℕ) (disk : FileSystem)
      → i < j
      → first_free paths fuel (remove_entry (tried i) disk) path j
        ≡ first_free paths fuel disk path j
  unfolding first_free
  first_free-remove_entry zero i j disk h = refl
  first_free-remove_entry (suc fuel) i j disk h =
      ap
        (λ b.
          if b
          then some (tried j)
          else first_free paths fuel (remove_entry (tried i) disk) path (j + 1))
        (is_available-remove_entry i j disk h)
      ∙ ap (λ k. if is_available paths disk (tried j) then some (tried j) else k)
          (first_free-remove_entry fuel i (j + 1) disk (omega (arith, h)))

  -- The name is the first of the numbered ones, from `i` on, that is not on the disk.
  abbrev IsFirst : ℕ → FileSystem → ℕ → Type 0
  IsFirst i disk j =
      (i ≤ j)
      × (j ≤ i + length disk)
      × (is_absent disk (tried j) ≡ true)
      × ((k : ℕ) → i ≤ k → k < j → is_absent disk (tried k) ≡ false)

  IsFirst-behind :
      (i j : ℕ) (disk : FileSystem)
      → is_absent disk (tried i) ≡ false
      → IsFirst (i + 1) (remove_entry (tried i) disk) j
      → IsFirst i disk j
  IsFirst-behind i j disk f (later, near, absent, taken) = (
    omega (arith, later),
    omega (arith, near, length-remove_entry_lt disk (tried i) f),
    sym (is_absent-remove_entry disk (tried i) (tried j) (tried_differ i j (omega (arith, later))))
        ∙ absent,
    (λ k from to. elim (le_cases i k from) [
      | inl same ↦ ap (λ n. is_absent disk (tried n)) (sym same) ∙ f
      | inr above ↦
          sym (is_absent-remove_entry disk (tried i) (tried k) (tried_differ i k above))
          ∙ taken k (omega (arith, above)) to
    ]),
  )

  first_free_lem :
      (fuel i : ℕ) (disk : FileSystem)
      → length disk < fuel
      → ((j : ℕ) → i ≤ j → j ≤ i + length disk → paths.lstat_fails (tried j) ≡ false)
      → (j : ℕ) × (first_free paths fuel disk path i ≡ some (tried j)) × IsFirst i disk j
  unfolding first_free is_available
  first_free_lem zero i disk h ok = absurd (omega (arith, h))
  first_free_lem (suc fuel) i disk h ok =
      let here : paths.lstat_fails (tried i) ≡ false = ok i (omega arith) (omega arith) in
      elim (Bool-cases (is_absent disk (tried i))) [
        | inl t ↦ (
          i,
          rw (here, t) refl,
          (omega arith, omega arith, t, (λ k a b. absurd (omega (arith, a, b)))),
        )
        | inr f ↦
            let fewer = length-remove_entry_lt disk (tried i) f in
            let (j, found, first) =
              first_free_lem fuel (i + 1) (remove_entry (tried i) disk) (omega (arith, h, fewer))
                (λ k a b. ok k (omega (arith, a)) (omega (arith, b, fewer))) in
            (
              j,
              rw (here, f)
                  (sym (first_free-remove_entry fuel i (i + 1) disk (omega arith)) ∙ found),
              IsFirst-behind i j disk f first,
            )
      ]

  -- A name that the loop ends with is not on the disk.
  first_free-none-or :
      (fuel i : ℕ) (disk : FileSystem)
      → (first_free paths fuel disk path i ≡ none)
        ⊎ ((j : ℕ) × (first_free paths fuel disk path i ≡ some (tried j))
            × (is_absent disk (tried j) ≡ true))
  unfolding first_free is_available
  first_free-none-or zero i disk = inl refl
  first_free-none-or (suc fuel) i disk =
      elim (Bool-cases (not (paths.lstat_fails (tried i)) && is_absent disk (tried i))) [
        | inl t ↦ inr (i, rw t refl, ground (arith, t))
        | inr f ↦ elim (first_free-none-or fuel (i + 1) disk) [
          | inl e ↦ inl (rw f e)
          | inr (j, e, absent) ↦ inr (j, rw f e, absent)
        ]
      ]

  pub renamed_path-cases :
      (disk : FileSystem)
      → (renamed_path paths disk path ≡ none)
        ⊎ ((j : ℕ) × (renamed_path paths disk path ≡ some (candidate paths path j))
            × (is_absent disk (candidate paths path j) ≡ true))
  unfolding renamed_path
  renamed_path-cases disk = first_free-none-or paths.tries 1 disk

  -- If Lstat fails for none of the first names, as many as the disk has entries and one more, in another
  -- way than that nothing is there, renamedPath ends among them: it returns the first of its numbered
  -- names that is not on the disk.
  pub renamed_path_lem :
      (disk : FileSystem)
      → length disk < paths.tries
      → ((j : ℕ) → 1 ≤ j → j ≤ 1 + length disk → paths.lstat_fails (candidate paths path j) ≡ false)
      → (j : ℕ) × (renamed_path paths disk path ≡ some (candidate paths path j))
        × (1 ≤ j)
        × (j ≤ 1 + length disk)
        × (is_absent disk (candidate paths path j) ≡ true)
        × ((k : ℕ) → 1 ≤ k → k < j → is_absent disk (candidate paths path k) ≡ false)
  unfolding renamed_path
  renamed_path_lem disk enough ok =
      let (j, found, first) = first_free_lem paths.tries 1 disk enough ok in
      (j, found, first.0, first.1, first.2, first.3)
