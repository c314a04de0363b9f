-- ===== src/Shell/DetectorChunks.antt =====
-- `zDetector` of zmodem_shell.go loses nothing, and does not depend on how its input is cut.
use go_serial_cli.Common.{
  ℕ, ◌≡◌, refl, sym, ap, ◌∙◌, true, false, ◌==◌, Bytes, [], ◌∷◌, ◌++◌, Option, none, some, All,
  Bool-cases, inl, inr, ◌⊎◌,
}
use mathlib.Core.Path.{subst}
use go_serial_cli.Zmodem.Header.{z_pad}
use go_serial_cli.Shell.Detector.{
  Verdict, held, passed, found, judge_behind_pad, Fed, show_first, at_pad, search,
}
use go_serial_cli.Shell.DetectorPads.{IsPlain, behind_pad_stays}

unfoldable pub continue_with : Option ℕ → Fed → Fed → Fed
continue_with (some t) r next = r
continue_with none r next = record next { shown = r.shown ++ next.shown }

-- What the loop makes of more bytes, behind what it made of the first.
unfoldable pub then_search : Fed → Bytes → Fed
then_search r more = continue_with r.header r (search (r.hold ++ more))

pub search_pad :
    (x : ℕ) (a : Bytes)
    → (x == z_pad) ≡ true
    → search (x ∷ a) ≡ at_pad (x ∷ a) (judge_behind_pad a) (search a)
unfolding search
search_pad x a t = rw t refl

pub search_other :
    (x : ℕ) (a : Bytes) → (x == z_pad) ≡ false → search (x ∷ a) ≡ show_first x (search a)
unfolding search
search_other x a f = rw f refl

show_first-continue_with :
    (o : Option ℕ) (x : ℕ) (r next : Fed)
    → show_first x (continue_with o r next) ≡ continue_with o (show_first x r) next
unfolding continue_with show_first
show_first-continue_with none x r next = refl
show_first-continue_with (some t) x r next = refl

show_first-then_search :
    (x : ℕ) (r : Fed) (b : Bytes) → show_first x (then_search r b) ≡ then_search (show_first x r) b
unfolding then_search show_first
show_first-then_search x r b = show_first-continue_with r.header x r (search (r.hold ++ b))

search-at_pad :
    (x : ℕ) (a b : Bytes) (v : Verdict)
    → (x == z_pad) ≡ true
    → judge_behind_pad a ≡ v
    → (v ≡ held) ⊎ (judge_behind_pad (a ++ b) ≡ v)
    → search (a ++ b) ≡ then_search (search a) b
    → search (x ∷ (a ++ b)) ≡ then_search (at_pad (x ∷ a) v (search a)) b
unfolding at_pad then_search continue_with
search-at_pad x a b held t e c h = refl
search-at_pad x a b passed t e (inl n) h = absurd cc
search-at_pad x a b (found k) t e (inl n) h = absurd cc
search-at_pad x a b passed t e (inr n) h =
    search_pad x (a ++ b) t
    ∙ ap (λ w. at_pad (x ∷ (a ++ b)) w (search (a ++ b))) n
    ∙ ap (show_first x) h
    ∙ show_first-then_search x (search a) b
search-at_pad x a b (found k) t e (inr n) h =
    search_pad x (a ++ b) t ∙ ap (λ w. at_pad (x ∷ (a ++ b)) w (search (a ++ b))) n

-- The detector's loop over two pieces at once does what it does over the first, and over what it held of
-- it with the second, if no byte of the first is a digit with its eighth bit set.
pub search-append : (a b : Bytes) → All IsPlain a → search (a ++ b) ≡ then_search (search a) b
unfolding search then_search continue_with
search-append [] b p = refl
search-append (x ∷ a) b (q, p) = elim (Bool-cases (x == z_pad)) [
  | inl t ↦
      search-at_pad x a b (judge_behind_pad a) t refl
        (behind_pad_stays a b p (judge_behind_pad a) refl) (search-append a b p)
      ∙ ap (λ r. then_search r b) (sym (search_pad x a t))
  | inr f ↦
      search_other x (a ++ b) f
      ∙ ap (show_first x) (search-append a b p)
      ∙ show_first-then_search x (search a) b
      ∙ ap (λ r. then_search r b) (sym (search_other x a f))
]

-- What the loop shows and what it holds are all the bytes in their order, where it finds no header.
abbrev pub IsWhole : Bytes → Fed → Type 0
IsWhole a r = r.header ≡ none → r.shown ++ r.hold ≡ a

show_first-IsWhole : (x : ℕ) (a : Bytes) (r : Fed) → IsWhole a r → IsWhole (x ∷ a) (show_first x r)
unfolding show_first
show_first-IsWhole x a r w h = ap (◌∷◌ x) (w h)

at_pad-IsWhole :
    (x : ℕ) (a : Bytes) (v : Verdict) (r : Fed) → IsWhole a r → IsWhole (x ∷ a) (at_pad (x ∷ a) v r)
unfolding at_pad
at_pad-IsWhole x a held r w h = refl
at_pad-IsWhole x a passed r w h = show_first-IsWhole x a r w h
at_pad-IsWhole x a (found k) r w h = absurd cc

pub search-IsWhole : (a : Bytes) → IsWhole a (search a)
unfolding search
search-IsWhole [] = λ h. refl
search-IsWhole (x ∷ a) = elim (Bool-cases (x == z_pad)) [
  | inl t ↦
      subst (IsWhole (x ∷ a)) (sym (search_pad x a t))
        (at_pad-IsWhole x a (judge_behind_pad a) (search a) (search-IsWhole a))
  | inr f ↦
      subst (IsWhole (x ∷ a)) (sym (search_other x a f))
        (show_first-IsWhole x a (search a) (search-IsWhole a))
]
