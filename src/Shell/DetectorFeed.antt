-- ===== src/Shell/DetectorFeed.antt =====
-- `feed` of zmodem_shell.go's zDetector over the pieces of a session's output.
use go_serial_cli.Common.{
  ℕ, ◌≡◌, refl, sym, ap, ◌∙◌, true, ◌==◌, Bytes, List, [], ◌∷◌, ◌++◌, Option, none, some, All,
  append_assoc, append-nil, Bool-cases, inl, inr,
}
use mathlib.Core.Path.{subst}
use go_serial_cli.Zmodem.Header.{z_pad}
use go_serial_cli.Shell.Detector.{
  Verdict, held, passed, found, judge_behind_pad, Fed, show_first, at_pad, search, trim_if_found,
  trimmed, feed,
}
use go_serial_cli.Shell.DetectorPads.{IsPlain}
use go_serial_cli.Shell.DetectorChunks.{
  continue_with, then_search, search_pad, search_other, search-append, search-IsWhole,
}

unfoldable pub joined : List Bytes → Bytes
joined [] = []
joined (p ∷ ps) = p ++ joined ps

-- What is fed behind a piece, or nothing more, where a header was found.
unfoldable pub unless_found : Option ℕ → Fed → Fed → Fed
unless_found (some t) r rest = r
unless_found none r rest = record rest { shown = r.shown ++ rest.shown }

-- One piece after the other, up to a header.
unfoldable pub feed_all : Bytes → List Bytes → Fed
feed_all hold [] = record { shown = []; hold = hold; header = none }
feed_all hold (p ∷ ps) = let r = feed hold p in unless_found r.header r (feed_all r.hold ps)

abbrev holding : Bytes → Fed
holding hold = record { shown = []; hold = hold; header = none }

All-behind : (P : ℕ → Type 0) (xs ys : Bytes) → All P (xs ++ ys) → All P ys
All-behind P [] ys a = a
All-behind P (x ∷ xs) ys a = All-behind P xs ys a.1

All-front : (P : ℕ → Type 0) (xs ys : Bytes) → All P (xs ++ ys) → All P xs
All-front P [] ys a = tt
All-front P (x ∷ xs) ys (p, a) = (p, All-front P xs ys a)

-- What was held is held again.
abbrev IsSettled : Fed → Type 0
IsSettled r = search r.hold ≡ holding r.hold

nil_settled : search [] ≡ holding []
unfolding search
nil_settled = refl

at_pad-IsSettled :
    (x : ℕ) (a : Bytes) (v : Verdict)
    → (x == z_pad) ≡ true
    → judge_behind_pad a ≡ v
    → IsSettled (search a)
    → IsSettled (at_pad (x ∷ a) v (search a))
unfolding at_pad show_first
at_pad-IsSettled x a held t e s = search_pad x a t ∙ ap (λ v. at_pad (x ∷ a) v (search a)) e
at_pad-IsSettled x a passed t e s = s
at_pad-IsSettled x a (found k) t e s = nil_settled

search-IsSettled : (a : Bytes) → IsSettled (search a)
unfolding show_first search
search-IsSettled [] = nil_settled
search-IsSettled (x ∷ a) = elim (Bool-cases (x == z_pad)) [
  | inl t ↦
      subst IsSettled (sym (search_pad x a t))
        (at_pad-IsSettled x a (judge_behind_pad a) t refl (search-IsSettled a))
  | inr f ↦ subst IsSettled (sym (search_other x a f)) (search-IsSettled a)
]

-- Alike up to the "rz\r" that is cut off in front of a header.
abbrev IsAlike : Fed → Fed → Type 0
IsAlike r s = (r.header ≡ s.header) × (r.hold ≡ s.hold) × (r.header ≡ none → r.shown ≡ s.shown)

trimmed-IsAlike : (r : Fed) → IsAlike (trimmed r) r
unfolding trimmed trim_if_found
trimmed-IsAlike r = (refl, refl, (λ e. ap (λ o. trim_if_found o r.shown) e))

step-IsAlike :
    (o : Option ℕ) (r rest next : Fed)
    → r.header ≡ o
    → (o ≡ none → IsAlike rest next)
    → IsAlike (unless_found o (trimmed r) rest) (continue_with o r next)
unfolding unless_found continue_with trimmed trim_if_found
step-IsAlike (some t) r rest next e a = trimmed-IsAlike r
step-IsAlike none r rest next e a =
    let (h, k, s) = a refl in
    (h, k, (λ n. ap (λ o. trim_if_found o r.shown ++ rest.shown) e ∙ ap (◌++◌ r.shown) (s n)))

-- The pieces of what is fed and held behind the hold of a run.
hold-All :
    (hold p rest : Bytes)
    → All IsPlain (hold ++ (p ++ rest))
    → (search (hold ++ p)).header ≡ none
    → All IsPlain ((search (hold ++ p)).hold ++ rest)
hold-All hold p rest a e =
    let r = search (hold ++ p) in
    All-behind IsPlain r.shown (r.hold ++ rest) (
      subst (All IsPlain)
        (sym (append_assoc hold p rest)
          ∙ ap (λ k. k ++ rest) (sym (search-IsWhole (hold ++ p) e))
          ∙ append_assoc r.shown r.hold rest)
        a)

feed_all-IsAlike :
    (hold : Bytes) (ps : List Bytes)
    → search hold ≡ holding hold
    → All IsPlain (hold ++ joined ps)
    → IsAlike (feed_all hold ps) (search (hold ++ joined ps))
unfolding feed_all joined feed then_search trimmed
feed_all-IsAlike hold [] s a =
    subst (IsAlike (holding hold)) (sym s ∙ ap search (sym (append-nil hold)))
      (refl, refl, (λ e. refl))
feed_all-IsAlike hold (p ∷ ps) s a =
    let r = search (hold ++ p) in
    subst (IsAlike (feed_all hold (p ∷ ps)))
      (sym (
          search-append (hold ++ p) (joined ps) (
            All-front IsPlain (hold ++ p) (joined ps)
              (subst (All IsPlain) (sym (append_assoc hold p (joined ps))) a)))
        ∙ ap search (append_assoc hold p (joined ps)))
      (step-IsAlike r.header r _ _ refl (λ e.
        feed_all-IsAlike r.hold ps (search-IsSettled (hold ++ p))
          (hold-All hold p (joined ps) a e)))

-- A detector finds in a session's output, however it is cut into pieces, the header that it finds in the
-- whole output at once, and holds back the same bytes; and as long as it finds none, what it has shown and
-- what it holds are all the bytes of the output in their order: if no byte of the output is a digit
-- with its eighth bit set.
pub feed_all-feed :
    (ps : List Bytes)
    → All IsPlain (joined ps)
    → ((feed_all [] ps).header ≡ (feed [] (joined ps)).header)
      × ((feed_all [] ps).hold ≡ (feed [] (joined ps)).hold)
      × ((feed_all [] ps).header ≡ none
          → (feed_all [] ps).shown ++ (feed_all [] ps).hold ≡ joined ps)
unfolding feed trimmed
feed_all-feed ps a =
    let (h, k, s) = feed_all-IsAlike [] ps nil_settled a in
    (
      h,
      k,
      (λ n.
          ap (λ t. t ++ (feed_all [] ps).hold) (s n)
          ∙ ap (◌++◌ (search (joined ps)).shown) k
          ∙ search-IsWhole (joined ps) (sym h ∙ n)),
    )
