-- ===== src/Worker/Retry.antt =====
-- internal/worker/retry.go. A time.Duration is an int64 in nanoseconds: a word below 2 ^ 64, negative from
-- 2 ^ 63 on.
use go_serial_cli.Common.{
  ℕ, zero, suc, ◌+◌, ◌*◌, ◌%◌, ◌^◌, Bool, true, false, ◌&&◌, ◌||◌, ltb, leb, if◌then◌else◌, List,
  [], ◌∷◌,
}

pub record RetryPolicy : Type 0 where
  pub initial : ℕ
  pub max_delay : ℕ

unfoldable pub is_positive : ℕ → Bool
is_positive w = ltb 0 w && ltb w (2 ^ 63)

-- a ≤ b as int64.
unfoldable pub signed_leb : ℕ → ℕ → Bool
signed_leb a b = leb ((a + 2 ^ 63) % 2 ^ 64) ((b + 2 ^ 63) % 2 ^ 64)

unfoldable pub signed_ltb : ℕ → ℕ → Bool
signed_ltb a b = ltb ((a + 2 ^ 63) % 2 ^ 64) ((b + 2 ^ 63) % 2 ^ 64)

abbrev pub default_initial : ℕ
default_initial = 250000000

abbrev pub default_max : ℕ
default_max = 5000000000

unfoldable pub initial_of : RetryPolicy → ℕ
initial_of p = if is_positive p.initial then p.initial else default_initial

unfoldable pub max_of : RetryPolicy → ℕ
max_of p = if is_positive p.max_delay then p.max_delay else default_max

-- The loop of Delay with its rounds left, and what is behind it.
unfoldable pub doubled : ℕ → ℕ → ℕ → ℕ
doubled zero most delay = if signed_ltb most delay then most else delay
doubled (suc n) most delay =
    let rest = doubled n most (delay * 2 % 2 ^ 64) in
    if signed_leb most (delay * 2 % 2 ^ 64) then most else rest

unfoldable pub delay : RetryPolicy → ℕ → ℕ
delay p attempt = doubled attempt (max_of p) (initial_of p)

-- What one call of fn and of the options' functions gives: nil, or an error that IsPermanent or
-- ShouldStop ends the loop at, or not.
pub data Attempt : Type 0 where
  done : Attempt
  error : Bool → Bool → Attempt

pub data Ran : Type 0 where
  returned : Bool → Ran
  runs_on : Ran

-- RunWithRetry from an attempt on: whether it returned nil, with the delays that it slept.
unfoldable pub run_from : RetryPolicy → ℕ → List Attempt → Ran × List ℕ
run_from p n [] = (runs_on, [])
run_from p n (done ∷ rest) = (returned true, [])
run_from p n (error permanent stop ∷ rest) =
    let more = run_from p (n + 1) rest in
    if permanent || stop then (returned false, []) else (more.0, delay p n ∷ more.1)
