-- ===== src/Tests/Ports.antt =====
-- The claim, the requests and the lease of the port at concrete inputs.
use go_serial_cli.Common.{◌≡◌, refl, true, false, not, List, [], ◌∷◌, ◌++◌, none, arith, take, drop}
use go_serial_cli.Port.Claim.{
  PortClaim, answer, release, answer_claim, take_claim, is_free, is_owner,
}
use go_serial_cli.Port.ClaimHeld.{IsHeldBy, run_ops, run_ops-IsHeldBy}
use go_serial_cli.Port.Request.{
  Read, read_request, read_request_from, match_requests, has_prefix, session_server_requests,
  answered, request_port_release, port_release_preamble,
}
use go_serial_cli.Port.RequestBytes.{IsOutcome, stream_of, read_request-IsOutcome}
use go_serial_cli.Port.Lease.{
  current, new_port_lease, wait_port, wait_released, start_release, finish_idle, write_all, wrote,
}
use go_serial_cli.Port.LeaseSystem.{
  System, between, nobody, after_wait, after_start_release, Step, Reach, new_system,
}
use go_serial_cli.Port.LeaseHandles.{is_open, Reach-current}

abbrev no_claim : PortClaim
no_claim = record { owner = none }

no_claim_taken : (answer_claim no_claim 7).taken ≡ true
unfolding answer_claim take_claim is_free is_owner
no_claim_taken = refl

run_ops-IsHeldBy_example :
    IsHeldBy 7 8 (run_ops (answer_claim no_claim 7).claim (answer 8 ∷ release 8 ∷ answer 7 ∷ []))
run_ops-IsHeldBy_example =
    run_ops-IsHeldBy no_claim 7 8 (answer 8 ∷ release 8 ∷ answer 7 ∷ []) no_claim_taken
      ((λ e. cc), ((λ e. cc), ((λ e. cc), tt))) (λ e. omega arith)

-- A release in two pieces, with a byte behind it.
abbrev pieces : List Read
pieces =
    record { received = take 4 port_release_preamble; failed = false }
    ∷ record { received = drop 4 port_release_preamble ++ (b'x' ∷ []); failed = false }
    ∷ []

read_pieces :
    read_request pieces session_server_requests ≡ answered (b'x' ∷ []) request_port_release false []
unfolding read_request read_request_from match_requests has_prefix
read_pieces = refl

read_request-IsOutcome_example :
    IsOutcome session_server_requests
      (stream_of pieces)
      (read_request pieces session_server_requests)
read_request-IsOutcome_example = read_request-IsOutcome pieces session_server_requests

write_in_pieces :
    write_all
      (1 ∷ 2 ∷ 3 ∷ [])
      (record { count = 2; failed = false } ∷ record { count = 9; failed = false } ∷ [])
    ≡ (1 ∷ 2 ∷ 3 ∷ [], wrote)
unfolding write_all
write_in_pieces = refl

-- The port 3 is released while the read loop is about to wait for it.
abbrev lent_system : System
lent_system = record {
  lease = record { port = none; released = true; closed = false; idle_done = true };
  reader = between;
  holder = nobody;
  handle = none;
  leaving = none;
}

lent_system-Reach : Reach (new_system 3) lent_system
unfolding new_system new_port_lease start_release wait_port wait_released finish_idle after_wait
    after_start_release
lent_system-Reach =
    Reach.then_step
      (Reach.then_step
        (Reach.then_step
          (Reach.then_step (Reach.then_step Reach.start (Step.release_starts refl refl))
            (Step.reader_waits refl refl))
          (Step.reader_closes 3 refl refl))
        (Step.reader_tells refl refl))
      (Step.release_ends refl refl refl)

Reach-current_example :
    (lent_system.handle ≡ current lent_system.lease)
    × (is_open lent_system.handle ≡ not lent_system.lease.released)
Reach-current_example = Reach-current 3 lent_system-Reach refl refl
