-- ===== src/Transfer/NamesSafe.antt =====
-- What `SanitizeTransferName` of zmodem.go returns is a file's name and no path.
use go_serial_cli.Common.{
  ℕ, zero, suc, ◌≡◌, ◌≢◌, ◌⊎◌, inl, inr, refl, Bool, true, false, ◌||◌, ◌==◌, ltb, if◌then◌else◌,
  if_cases, [], ◌∷◌, map, none, some, drop, All, Option-cases, Bool-cases, arith,
}
use mathlib.Core.Path.{subst}
use go_serial_cli.Transfer.Names.{
  Runes, dot, slash, backslash, colon, underscore, same_runes, is_one_of, last_index, after_last,
  is_forbidden, clean_rune, trim_left, trim_right, keep_unless, is_dot_or_space, before_dot,
  is_reserved, last_element, trimmed_name, sanitize_transfer_name,
}

-- A rune that a name may hold: no control character, no separator and nothing that Windows forbids.
abbrev pub IsNameRune : ℕ → Type 0
IsNameRune r =
    (ltb r 0x20 ≡ false)
    × ((r == 0x7f) ≡ false)
    × (is_forbidden r ≡ false)
    × ((r == slash) ≡ false)
    × ((r == backslash) ≡ false)

abbrev pub ends_in : (ℕ → Bool) → Runes → Bool
ends_in p [] = false
ends_in p (x ∷ []) = p x
ends_in p (x ∷ y ∷ l) = ends_in p (y ∷ l)

-- A name that cannot leave its directory and is no device's.
abbrev pub IsFileName : (ℕ → Bool) → (ℕ → ℕ) → Runes → Type 0
IsFileName is_space upper name =
    (name ≢ [])
    × All IsNameRune name
    × (ends_in is_dot_or_space name ≡ false)
    × (is_reserved is_space upper name ≡ false)

abbrev IsNot : ℕ → ℕ → Type 0
IsNot b r = (r == b) ≡ false

module _ (P : ℕ → Type 0) where
  drop-All : (n : ℕ) (l : Runes) → All P l → All P (drop n l)
  drop-All zero l a = a
  drop-All (suc n) [] a = tt
  drop-All (suc n) (x ∷ l) (p, a) = drop-All n l a

  trim_left-All : (p : ℕ → Bool) (l : Runes) → All P l → All P (trim_left p l)
  unfolding trim_left
  trim_left-All p [] a = tt
  trim_left-All p (x ∷ l) a = if_cases (All P) (p x) _ _ (λ t. trim_left-All p l a.1) (λ f. a)

  keep_unless-All : (b : Bool) (x : ℕ) (l : Runes) → P x → All P l → All P (keep_unless b x l)
  unfolding keep_unless
  keep_unless-All true x [] q a = tt
  keep_unless-All false x [] q a = (q, tt)
  keep_unless-All b x (y ∷ l) q a = (q, a)

  trim_right-All : (p : ℕ → Bool) (l : Runes) → All P l → All P (trim_right p l)
  unfolding trim_right
  trim_right-All p [] a = tt
  trim_right-All p (x ∷ l) (q, a) =
      keep_unless-All (p x) x (trim_right p l) q (trim_right-All p l a)

  after_last-All : (b : ℕ) (l : Runes) → All P l → All P (after_last b l)
  unfolding after_last
  after_last-All b l a =
      elim (last_index b l) as (λ o. All P (elim o [ none ↦ l | some i ↦ drop (suc i) l ])) [
        | none ↦ a
        | some i ↦ drop-All (suc i) l a
      ]

map-All :
    (P Q : ℕ → Type 0) (f : ℕ → ℕ) (l : Runes)
    → ((x : ℕ) → P x → Q (f x))
    → All P l
    → All Q (map f l)
map-All P Q f [] h a = tt
map-All P Q f (x ∷ l) h (p, a) = (h x p, map-All P Q f l h a)

both-All : (P Q : ℕ → Type 0) (l : Runes) → All P l → All Q l → All (λ x. P x × Q x) l
both-All P Q [] a b = tt
both-All P Q (x ∷ l) (p, a) (q, b) = ((p, q), both-All P Q l a b)

slash_for_backslash :
    (raw : Runes) → All (IsNot backslash) (map (λ r. if r == backslash then slash else r) raw)
slash_for_backslash [] = tt
slash_for_backslash (x ∷ raw) =
    (if_cases (IsNot backslash) (x == backslash) _ _ (λ t. refl) (λ f. f), slash_for_backslash raw)

-- Nothing is one where no last one is found.
last_index-none : (b : ℕ) (l : Runes) → last_index b l ≡ none → All (IsNot b) l
unfolding last_index
last_index-none b [] h = tt
last_index-none b (x ∷ l) h = elim (Option-cases (last_index b l)) [
  | inl e ↦
      let h' = rw e at h in
      elim (Bool-cases (x == b)) [
        | inl t ↦ let h'' = rw t at h' in absurd cc
        | inr f ↦ (f, last_index-none b l e)
      ]
  | inr (j, e) ↦ let h' = rw e at h in absurd cc
]

-- Nothing behind the last one is one.
last_index-some :
    (b : ℕ) (l : Runes) (i : ℕ) → last_index b l ≡ some i → All (IsNot b) (drop (suc i) l)
unfolding last_index
last_index-some b [] i h = tt
last_index-some b (x ∷ l) i h = elim (Option-cases (last_index b l)) [
  | inl e ↦ drop-All (IsNot b) i l (last_index-none b l e)
  | inr (j, e) ↦
      let h' = rw e at h in
      let same : suc j ≡ i = ground (arith, h') in
      subst (λ k. All (IsNot b) (drop k l)) same (last_index-some b l j e)
]

after_last-IsNot : (b : ℕ) (l : Runes) → All (IsNot b) (after_last b l)
unfolding after_last
after_last-IsNot b l = elim (Option-cases (last_index b l)) [
  | inl e ↦ rw (after_last, e) (last_index-none b l e)
  | inr (i, e) ↦ rw (after_last, e) (last_index-some b l i e)
]

clean_rune-IsNameRune : (r : ℕ) → IsNot slash r → IsNot backslash r → IsNameRune (clean_rune r)
unfolding clean_rune is_forbidden
clean_rune-IsNameRune r s b =
    if_cases IsNameRune (ltb r 0x20 || r == 0x7f) _ _ (λ t. (refl, refl, refl, refl, refl))
      (λ f.
        if_cases IsNameRune (is_forbidden r) _ _ (λ t. (refl, refl, refl, refl, refl))
          (λ g. (ground (arith, f), ground (arith, f), g, s, b)))

keep_unless_end :
    (p : ℕ → Bool) (x : ℕ) (l : Runes)
    → ends_in p l ≡ false
    → ends_in p (keep_unless (p x) x l) ≡ false
unfolding keep_unless
keep_unless_end p x [] h = elim (Bool-cases (p x)) [ inl t ↦ rw t refl | inr f ↦ rw f f ]
keep_unless_end p x (y ∷ l) h = h

trim_right_end : (p : ℕ → Bool) (l : Runes) → ends_in p (trim_right p l) ≡ false
unfolding trim_right
trim_right_end p [] = refl
trim_right_end p (x ∷ l) = keep_unless_end p x (trim_right p l) (trim_right_end p l)

ends_in_cons :
    (p : ℕ → Bool) (x : ℕ) (l : Runes)
    → p x ≡ false
    → ends_in p l ≡ false
    → ends_in p (x ∷ l) ≡ false
ends_in_cons p x [] h e = h
ends_in_cons p x (y ∷ l) h e = e

module _ (is_space : ℕ → Bool) (upper : ℕ → ℕ) where
  last_element-IsNot :
      (raw : Runes) → All (λ r. IsNot slash r × IsNot backslash r) (last_element is_space upper raw)
  unfolding last_element
  last_element-IsNot raw =
      let replaced = map (λ r. if r == backslash then slash else r) raw in
      both-All (IsNot slash) (IsNot backslash) _
        (after_last-All (IsNot slash) colon _ (after_last-IsNot slash replaced))
        (after_last-All (IsNot backslash) colon _
          (after_last-All (IsNot backslash) slash replaced (slash_for_backslash raw)))

  trimmed_name-All : (raw : Runes) → All IsNameRune (trimmed_name is_space upper raw)
  unfolding trimmed_name
  trimmed_name-All raw = trim_right-All IsNameRune is_dot_or_space _ (
      trim_left-All IsNameRune is_space _ (
        trim_right-All IsNameRune is_space _ (
          map-All _ IsNameRune clean_rune _ (λ r h. clean_rune-IsNameRune r h.0 h.1)
            (last_element-IsNot raw))))

  trimmed_end : (raw : Runes) → ends_in is_dot_or_space (trimmed_name is_space upper raw) ≡ false
  unfolding trimmed_name
  trimmed_end raw = trim_right_end is_dot_or_space _

  underscored :
      (name : Runes)
      → upper underscore ≡ underscore
      → is_reserved is_space upper (underscore ∷ name) ≡ false
  unfolding is_reserved before_dot is_one_of same_runes
  underscored name u = rw u refl

  not_nil : (name : Runes) (a b : Bool) → (same_runes name [] || a || b) ≡ false → name ≢ []
  unfolding same_runes
  not_nil [] a b h e = absurd cc
  not_nil (x ∷ name) a b h e = absurd cc

  -- A name that SanitizeTransferName returns is empty, which the callers refuse, or a plain file name: no
  -- separator, control or forbidden character in it, no dot or space at its end, and no device's name in
  -- front of its first dot, whatever the tables of letters and spaces are, if an underscore stays itself
  -- in upper case.
  pub sanitize_transfer_name-IsFileName :
      (raw : Runes)
      → upper underscore ≡ underscore
      → (sanitize_transfer_name is_space upper raw ≡ [])
        ⊎ IsFileName is_space upper (sanitize_transfer_name is_space upper raw)
  unfolding sanitize_transfer_name is_dot_or_space is_forbidden
  sanitize_transfer_name-IsFileName raw u =
      let name = trimmed_name is_space upper raw in
      let Good = λ (n : Runes). (n ≡ []) ⊎ IsFileName is_space upper n in
      if_cases Good
        (same_runes name [] || same_runes name (dot ∷ []) || same_runes name (dot ∷ dot ∷ [])) _ _
        (λ t. inl refl)
        (λ f.
          if_cases Good (is_reserved is_space upper name) _ _
            (λ t. inr (
              (λ e. absurd cc),
              ((refl, refl, refl, refl, refl), trimmed_name-All raw),
              ends_in_cons is_dot_or_space underscore name refl (trimmed_end raw),
              underscored name u,
            ))
            (λ g. inr (not_nil name _ _ f, trimmed_name-All raw, trimmed_end raw, g)))
