-- ===== src/Transfer/Names.antt =====
-- `SanitizeTransferName` of zmodem.go on the runes of a name. The tables of unicode.IsSpace and
-- unicode.ToUpper are parameters.
use go_serial_cli.Common.{
  ℕ, suc, ◌+◌, Bool, true, false, ◌&&◌, ◌||◌, ◌==◌, ltb, if◌then◌else◌, List, [], ◌∷◌, ◌++◌, map,
  Option, none, some, drop,
}

abbrev pub Runes : Type 0
Runes = List ℕ

abbrev pub dot : ℕ
dot = 46

abbrev pub slash : ℕ
slash = 47

abbrev pub backslash : ℕ
backslash = 92

abbrev pub colon : ℕ
colon = 58

abbrev pub underscore : ℕ
underscore = 95

unfoldable pub same_runes : Runes → Runes → Bool
same_runes [] [] = true
same_runes [] (y ∷ ys) = false
same_runes (x ∷ xs) [] = false
same_runes (x ∷ xs) (y ∷ ys) = x == y && same_runes xs ys

unfoldable pub is_one_of : List Runes → Runes → Bool
is_one_of [] name = false
is_one_of (x ∷ xs) name = same_runes x name || is_one_of xs name

unfoldable pub last_index : ℕ → Runes → Option ℕ
last_index b [] = none
last_index b (x ∷ xs) = elim (last_index b xs) [
  | some i ↦ some (suc i)
  | none ↦ if x == b then some 0 else none
]

unfoldable pub after_last : ℕ → Runes → Runes
after_last b name = elim (last_index b name) [ none ↦ name | some i ↦ drop (suc i) name ]

-- The characters `<>:"|?*`.
unfoldable pub is_forbidden : ℕ → Bool
is_forbidden r = r == 60 || r == 62 || r == colon || r == 34 || r == 124 || r == 63 || r == 42

unfoldable pub clean_rune : ℕ → ℕ
clean_rune r =
    if ltb r 0x20 || r == 0x7f then underscore else if is_forbidden r then underscore else r

unfoldable pub trim_left : (ℕ → Bool) → Runes → Runes
trim_left p [] = []
trim_left p (x ∷ xs) = let rest = trim_left p xs in if p x then rest else x ∷ xs

-- A rune in front of what is left behind it.
unfoldable pub keep_unless : Bool → ℕ → Runes → Runes
keep_unless test x [] = if test then [] else x ∷ []
keep_unless test x (y ∷ ys) = x ∷ y ∷ ys

unfoldable pub trim_right : (ℕ → Bool) → Runes → Runes
trim_right p [] = []
trim_right p (x ∷ xs) = keep_unless (p x) x (trim_right p xs)

unfoldable pub is_dot_or_space : ℕ → Bool
is_dot_or_space r = r == dot || r == 32

unfoldable pub before_dot : Runes → Runes
before_dot [] = []
before_dot (x ∷ xs) = let rest = before_dot xs in if x == dot then [] else x ∷ rest

abbrev numbered : ℕ → ℕ → ℕ → ℕ → Runes
numbered a b c n = a ∷ b ∷ c ∷ (48 + n) ∷ []

abbrev pub windows_reserved_names : List Runes
windows_reserved_names =
    (67 ∷ 79 ∷ 78 ∷ [])
      ∷ (80 ∷ 82 ∷ 78 ∷ [])
      ∷ (65 ∷ 85 ∷ 88 ∷ [])
      ∷ (78 ∷ 85 ∷ 76 ∷ [])
      ∷ map (numbered 67 79 77) (1 ∷ 2 ∷ 3 ∷ 4 ∷ 5 ∷ 6 ∷ 7 ∷ 8 ∷ 9 ∷ [])
    ++ map (numbered 76 80 84) (1 ∷ 2 ∷ 3 ∷ 4 ∷ 5 ∷ 6 ∷ 7 ∷ 8 ∷ 9 ∷ [])

module _ (is_space : ℕ → Bool) (upper : ℕ → ℕ) where
  unfoldable pub is_reserved : Runes → Bool
  is_reserved name = is_one_of windows_reserved_names (before_dot (map upper name))

  -- Go's name behind the last slash and the last colon.
  unfoldable pub last_element : Runes → Runes
  last_element raw =
      after_last colon (after_last slash (map (λ r. if r == backslash then slash else r) raw))

  unfoldable pub trimmed_name : Runes → Runes
  trimmed_name raw =
      trim_right is_dot_or_space
        (trim_left is_space (trim_right is_space (map clean_rune (last_element raw))))

  unfoldable pub sanitize_transfer_name : Runes → Runes
  sanitize_transfer_name raw =
      let name = trimmed_name raw in
      if same_runes name [] || same_runes name (dot ∷ []) || same_runes name (dot ∷ dot ∷ [])
      then []
      else if is_reserved name
      then underscore ∷ name
      else name
