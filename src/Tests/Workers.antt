-- ===== src/Tests/Workers.antt =====
-- The delays of a policy, and the theorem on them at one.
use go_serial_cli.Common.{◌≡◌, ◌≤◌, ◌<◌, ◌-◌, ◌^◌, refl, true, false, [], ◌∷◌, min, arith}
use go_serial_cli.Worker.Retry.{
  RetryPolicy, is_positive, signed_leb, signed_ltb, initial_of, max_of, doubled, delay, done, error,
  returned, run_from,
}
use go_serial_cli.Worker.RetryDelay.{times_doubled, delay_lem}

abbrev short_policy : RetryPolicy
short_policy = record { initial = 100; max_delay = 500 }

slept :
    run_from short_policy 0
      (error false false ∷ error false false ∷ error false false ∷ error false false ∷ done ∷ [])
    ≡ (returned true, 100 ∷ 200 ∷ 400 ∷ 500 ∷ [])
unfolding run_from delay doubled initial_of max_of is_positive signed_leb signed_ltb
slept = refl

-- An initial delay of 2 ^ 62 nanoseconds doubles to a negative one.
negative_delay : delay (record { initial = 2 ^ 62; max_delay = 2 ^ 63 - 1 }) 1 ≡ 2 ^ 63
unfolding delay doubled initial_of max_of is_positive signed_leb signed_ltb
negative_delay = refl

delay_lem_example :
    (delay short_policy 2 ≡ min (max_of short_policy) (times_doubled 2 (initial_of short_policy)))
    × (0 < delay short_policy 2)
    × (delay short_policy 2 ≤ max_of short_policy)
unfolding initial_of max_of is_positive
delay_lem_example = delay_lem short_policy 2 (omega arith) (omega arith)
