-- ===== src/Transfer/OptionsBounds.antt =====
-- Bounds on what a session of zmodem.go sends with, and what the outcome of a batch says of its files.
use go_serial_cli.Common.{
  ℕ, suc, ◌+◌, ◌≤◌, ◌<◌, ◌≡◌, refl, ap, ◌∙◌, Bool, true, false, ◌&&◌, ◌==◌, ltb, if◌then◌else◌,
  if_cases, max, List, [], ◌∷◌, arith,
}
use go_serial_cli.Zmodem.Header.{Header}
use go_serial_cli.Transfer.Options.{
  Options, or_default, bounded_subpacket, with_defaults, peer_buffer_of, window_of, max_block_of,
  use_receiver_init, Outcome, ok, resumed, skipped, refused, cancelled, failed, partial, Tally,
  bump, tally, sum_up, session_outcome,
}

or_default_positive : (value default : ℕ) → 0 < default → 0 < or_default value default
unfolding or_default
or_default_positive value default h = ground (arith, h)

bounded_subpacket_bounds : (n : ℕ) → (32 ≤ bounded_subpacket n) × (bounded_subpacket n ≤ 1024)
unfolding bounded_subpacket
bounded_subpacket_bounds n = ground arith

window_of_bounds :
    (window peer : ℕ)
    → 0 < window
    → (0 < window_of window peer)
      × (window_of window peer ≤ window)
      × (0 < peer → window_of window peer ≤ peer)
unfolding window_of
window_of_bounds window peer h = ground (arith, h)

max_block_of_bounds :
    (most peer : ℕ)
    → 32 ≤ most
    → (32 ≤ max_block_of most peer)
      × (max_block_of most peer ≤ most)
      × (0 < peer → max_block_of most peer ≤ max 32 peer)
unfolding max_block_of
max_block_of_bounds most peer h = ground (arith, h)

-- With any options of the caller and any ZRINIT of the receiver, subpackets are from 32 to 1024 bytes
-- long, the window is not empty, and neither is larger than the receiver's buffer, if it gives one, but
-- for the 32 bytes that a subpacket has at least.
pub use_receiver_init_bounds :
    (o : Options) (h : Header) (escape_ctl : Bool)
    → (32 ≤ (use_receiver_init (with_defaults o) h escape_ctl).max_block)
      × ((use_receiver_init (with_defaults o) h escape_ctl).max_block ≤ 1024)
      × (0 < (use_receiver_init (with_defaults o) h escape_ctl).send_window)
      × (0 < peer_buffer_of h
          → ((use_receiver_init (with_defaults o) h escape_ctl).send_window ≤ peer_buffer_of h)
            × ((use_receiver_init (with_defaults o) h escape_ctl).max_block
                ≤ max 32 (peer_buffer_of h)))
unfolding use_receiver_init with_defaults
use_receiver_init_bounds o h escape_ctl =
    let w =
      window_of_bounds _ (peer_buffer_of h)
        (or_default_positive o.send_window 32768 (omega arith)) in
    let (low, high) = bounded_subpacket_bounds o.max_subpacket in
    let b = max_block_of_bounds (bounded_subpacket o.max_subpacket) (peer_buffer_of h) low in
    (b.0, omega (arith, b.1, high), w.0, (λ p. (w.2 p, b.2 p)))

-- The outcomes that count as done.
abbrev pub is_done_outcome : Outcome → Bool
is_done_outcome ok = true
is_done_outcome resumed = true
is_done_outcome skipped = true
is_done_outcome refused = false
is_done_outcome cancelled = false
is_done_outcome failed = false
is_done_outcome partial = false

abbrev pub count_done : List Outcome → ℕ
count_done [] = 0
count_done (s ∷ rest) = if is_done_outcome s then suc (count_done rest) else count_done rest

abbrev pub count_left : List Outcome → ℕ
count_left [] = 0
count_left (s ∷ rest) = if is_done_outcome s then count_left rest else suc (count_left rest)

abbrev pub is_partial : Outcome → Bool
is_partial partial = true
is_partial ok = false
is_partial resumed = false
is_partial skipped = false
is_partial refused = false
is_partial cancelled = false
is_partial failed = false

tally_counts :
    (files : List Outcome)
    → ((tally files).oks + (tally files).resumes + (tally files).skips ≡ count_done files)
      × ((tally files).refusals + (tally files).failures ≡ count_left files)
unfolding tally bump
tally_counts [] = (omega arith, omega arith)
tally_counts (ok ∷ rest) = let (d, l) = tally_counts rest in (omega (arith, d), l)
tally_counts (resumed ∷ rest) = let (d, l) = tally_counts rest in (omega (arith, d), l)
tally_counts (skipped ∷ rest) = let (d, l) = tally_counts rest in (omega (arith, d), l)
tally_counts (refused ∷ rest) = let (d, l) = tally_counts rest in (d, omega (arith, l))
tally_counts (cancelled ∷ rest) = let (d, l) = tally_counts rest in (d, omega (arith, l))
tally_counts (failed ∷ rest) = let (d, l) = tally_counts rest in (d, omega (arith, l))
tally_counts (partial ∷ rest) = let (d, l) = tally_counts rest in (d, omega (arith, l))

sum_up_lem :
    (t : Tally)
    → (is_done_outcome (sum_up t) ≡ (t.refusals + t.failures == 0))
      × (is_partial (sum_up t)
          ≡ (ltb 0 (t.oks + t.resumes + t.skips) && ltb 0 (t.refusals + t.failures)))
unfolding sum_up
sum_up_lem t =
    let left = t.refusals + t.failures in
    let finished = t.oks + t.resumes + t.skips in
    let Good = λ (o : Outcome).
      (is_done_outcome o ≡ (left == 0)) × (is_partial o ≡ (ltb 0 finished && ltb 0 left)) in
    if_cases Good (left == 0 && ltb 0 t.resumes) _ _ (λ u. (ground (arith, u), ground (arith, u)))
      (λ u.
        if_cases Good (left == 0 && ltb 0 t.oks) _ _ (λ v. (ground (arith, v), ground (arith, v)))
          (λ v.
            if_cases Good (left == 0) _ _ (λ w. (ground (arith, w), ground (arith, w)))
              (λ w.
                if_cases Good (ltb 0 finished) _ _ (λ x. (ground (arith, w), ground (arith, w, x)))
                  (λ x.
                    if_cases Good (t.failures == 0) _ _
                      (λ y. (ground (arith, w), ground (arith, w, x)))
                      (λ y. (ground (arith, w), ground (arith, w, x)))))))

-- A batch counts as done just if none of its files was refused or failed, and as partial just if some
-- of its files were done and some were not.
pub session_outcome_lem :
    (files : List Outcome)
    → (is_done_outcome (session_outcome files) ≡ (count_left files == 0))
      × (is_partial (session_outcome files)
          ≡ (ltb 0 (count_done files) && ltb 0 (count_left files)))
unfolding session_outcome
session_outcome_lem [] = (refl, refl)
session_outcome_lem (s ∷ rest) =
    let (d, l) = tally_counts (s ∷ rest) in
    let (clean, mixed) = sum_up_lem (tally (s ∷ rest)) in
    (
      clean ∙ ap (λ n. n == 0) l,
      mixed
          ∙ ap (λ n. ltb 0 n && ltb 0 ((tally (s ∷ rest)).refusals + (tally (s ∷ rest)).failures)) d
          ∙ ap (λ n. ltb 0 (count_done (s ∷ rest)) && ltb 0 n) l,
    )
