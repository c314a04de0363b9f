-- ===== src/Worker/RetryDelay.antt =====
-- The delays of internal/worker/retry.go in closed form.
use go_serial_cli.Common.{
  ℕ, zero, suc, ◌+◌, ◌*◌, ◌%◌, ◌^◌, ◌≤◌, ◌<◌, ◌≡◌, ap, ◌∙◌, ltb, leb, if◌then◌else◌, if_cases, min,
  arith,
}
use go_serial_cli.Worker.Retry.{
  RetryPolicy, is_positive, signed_leb, signed_ltb, initial_of, max_of, doubled, delay,
}

signed_leb_small : (a b : ℕ) → a < 2 ^ 63 → b < 2 ^ 63 → signed_leb a b ≡ leb a b
unfolding signed_leb
signed_leb_small a b h k =
    let e : (a + 2 ^ 63) % 2 ^ 64 ≡ a + 2 ^ 63 = omega (arith, h) in
    let f : (b + 2 ^ 63) % 2 ^ 64 ≡ b + 2 ^ 63 = omega (arith, k) in rw (e, f) (ground arith)

signed_ltb_small : (a b : ℕ) → a < 2 ^ 63 → b < 2 ^ 63 → signed_ltb a b ≡ ltb a b
unfolding signed_ltb
signed_ltb_small a b h k =
    let e : (a + 2 ^ 63) % 2 ^ 64 ≡ a + 2 ^ 63 = omega (arith, h) in
    let f : (b + 2 ^ 63) % 2 ^ 64 ≡ b + 2 ^ 63 = omega (arith, k) in rw (e, f) (ground arith)

-- The delay without a bound.
abbrev pub times_doubled : ℕ → ℕ → ℕ
times_doubled zero d = d
times_doubled (suc n) d = times_doubled n (d * 2)

times_doubled_le : (n d : ℕ) → d ≤ times_doubled n d
times_doubled_le zero d = omega arith
times_doubled_le (suc n) d = omega (arith, times_doubled_le n (d * 2))

doubled_lem :
    (n most d : ℕ) → most ≤ 2 ^ 62 → d < 2 ^ 62 → doubled n most d ≡ min most (times_doubled n d)
unfolding doubled
doubled_lem zero most d h k =
    rw (signed_ltb_small most d (omega (arith, h)) (omega (arith, k))) (ground arith)
doubled_lem (suc n) most d h k =
    let e : d * 2 % 2 ^ 64 ≡ d * 2 = omega (arith, k) in
    let small : signed_leb most (d * 2) ≡ leb most (d * 2) =
      signed_leb_small most (d * 2) (omega (arith, h)) (omega (arith, k)) in
    ap (λ w. if signed_leb most w then most else doubled n most w) e
    ∙ ap (λ b. if b then most else doubled n most (d * 2)) small
    ∙ if_cases (λ r. r ≡ min most (times_doubled n (d * 2))) (leb most (d * 2)) _ _
        (λ t. ground (arith, t, times_doubled_le n (d * 2)))
        (λ f. doubled_lem n most (d * 2) h (ground (arith, f, h)))

initial_of_positive : (p : RetryPolicy) → 0 < initial_of p
unfolding initial_of is_positive
initial_of_positive p = ground arith

max_of_positive : (p : RetryPolicy) → 0 < max_of p
unfolding max_of is_positive
max_of_positive p = ground arith

-- If the initial delay and the bound are below 2 ^ 62 nanoseconds, the delay in front of a retry is the
-- initial one, doubled for each attempt before it, and at most the bound, without an overflow; it is
-- positive, so that no retry follows at once.
pub delay_lem :
    (p : RetryPolicy) (attempt : ℕ)
    → initial_of p < 2 ^ 62
    → max_of p < 2 ^ 62
    → (delay p attempt ≡ min (max_of p) (times_doubled attempt (initial_of p)))
      × (0 < delay p attempt)
      × (delay p attempt ≤ max_of p)
unfolding delay
delay_lem p attempt h k =
    let e = doubled_lem attempt (max_of p) (initial_of p) (omega (arith, k)) h in
    let low = times_doubled_le attempt (initial_of p) in
    (e, omega (arith, e, low, initial_of_positive p, max_of_positive p), omega (arith, e))
