-- ===== src/Port/LeaseLent.antt =====
-- The steps of a session whose port is being closed, is lent, or is being opened again.
use go_serial_cli.Common.{ℕ, ◌≡◌, refl, true, false, none, some, arith}
use go_serial_cli.Port.Lease.{
  wait_port, wait_released, has_port, retire, finish_idle, start_release, start_acquire,
  finish_acquire, close_lease,
}
use go_serial_cli.Port.LeaseSystem.{
  between, telling, closing_port, nobody, waits_idle, opens, installs, System, after_wait,
  after_retire, after_start_release, after_start_acquire, after_finish_acquire, Step,
}
use go_serial_cli.Port.LeasePhases.{
  lease_of, system_of, at_wait, Phase, held, tells, done, lent, opening, opened, ended, at_system,
}

pub closes_lem :
    (p : ℕ) {t : System}
    → Step (system_of (lease_of none true false) (closing_port p) waits_idle (some p)) t
    → Phase t
unfolding wait_port wait_released retire has_port finish_idle start_release start_acquire
    finish_acquire close_lease after_wait after_retire after_start_release after_start_acquire
    after_finish_acquire
closes_lem p (Step.reader_waits h e) = absurd cc
closes_lem p (Step.read_returns port h e) = absurd cc
closes_lem p (Step.read_fails port h d e) = absurd cc
closes_lem p (Step.reader_closes port h e) = at_system e tells
closes_lem p (Step.reader_tells h e) = absurd cc
closes_lem p (Step.release_starts h e) = absurd cc
closes_lem p (Step.release_ends h d e) = absurd cc
closes_lem p (Step.acquire_starts h e) = absurd cc
closes_lem p (Step.open_fails h e) = absurd cc
closes_lem p (Step.open_succeeds port h d e) = absurd cc
closes_lem p (Step.acquire_ends port h e) = absurd cc
closes_lem p (Step.refused_closes port h e) = absurd cc
closes_lem p (Step.session_ends e) = at_system e (ended refl)
closes_lem p (Step.session_closes port h e) = absurd cc

pub tells_lem :
    {t : System} → Step (system_of (lease_of none true false) telling waits_idle none) t → Phase t
unfolding wait_port wait_released retire has_port finish_idle start_release start_acquire
    finish_acquire close_lease after_wait after_retire after_start_release after_start_acquire
    after_finish_acquire
tells_lem (Step.reader_waits h e) = absurd cc
tells_lem (Step.read_returns port h e) = absurd cc
tells_lem (Step.read_fails port h d e) = absurd cc
tells_lem (Step.reader_closes port h e) = absurd cc
tells_lem (Step.reader_tells h e) = at_system e done
tells_lem (Step.release_starts h e) = absurd cc
tells_lem (Step.release_ends h d e) = absurd cc
tells_lem (Step.acquire_starts h e) = absurd cc
tells_lem (Step.open_fails h e) = absurd cc
tells_lem (Step.open_succeeds port h d e) = absurd cc
tells_lem (Step.acquire_ends port h e) = absurd cc
tells_lem (Step.refused_closes port h e) = absurd cc
tells_lem (Step.session_ends e) = at_system e (ended refl)
tells_lem (Step.session_closes port h e) = absurd cc

pub done_lem :
    {t : System} → Step (system_of (lease_of none true true) between waits_idle none) t → Phase t
unfolding wait_port wait_released retire has_port finish_idle start_release start_acquire
    finish_acquire close_lease after_wait after_retire after_start_release after_start_acquire
    after_finish_acquire
done_lem (Step.reader_waits h e) = at_system e done
done_lem (Step.read_returns port h e) = absurd cc
done_lem (Step.read_fails port h d e) = absurd cc
done_lem (Step.reader_closes port h e) = absurd cc
done_lem (Step.reader_tells h e) = absurd cc
done_lem (Step.release_starts h e) = absurd cc
done_lem (Step.release_ends h d e) = at_system e lent
done_lem (Step.acquire_starts h e) = absurd cc
done_lem (Step.open_fails h e) = absurd cc
done_lem (Step.open_succeeds port h d e) = absurd cc
done_lem (Step.acquire_ends port h e) = absurd cc
done_lem (Step.refused_closes port h e) = absurd cc
done_lem (Step.session_ends e) = at_system e (ended refl)
done_lem (Step.session_closes port h e) = absurd cc

pub lent_lem :
    {t : System} → Step (system_of (lease_of none true true) between nobody none) t → Phase t
unfolding wait_port wait_released retire has_port finish_idle start_release start_acquire
    finish_acquire close_lease after_wait after_retire after_start_release after_start_acquire
    after_finish_acquire
lent_lem (Step.reader_waits h e) = at_system e lent
lent_lem (Step.read_returns port h e) = absurd cc
lent_lem (Step.read_fails port h d e) = absurd cc
lent_lem (Step.reader_closes port h e) = absurd cc
lent_lem (Step.reader_tells h e) = absurd cc
lent_lem (Step.release_starts h e) = at_system e lent
lent_lem (Step.release_ends h d e) = absurd cc
lent_lem (Step.acquire_starts h e) = at_system e opening
lent_lem (Step.open_fails h e) = absurd cc
lent_lem (Step.open_succeeds port h d e) = absurd cc
lent_lem (Step.acquire_ends port h e) = absurd cc
lent_lem (Step.refused_closes port h e) = absurd cc
lent_lem (Step.session_ends e) = at_system e (ended refl)
lent_lem (Step.session_closes port h e) = absurd cc

pub opening_lem :
    {t : System} → Step (system_of (lease_of none true true) between opens none) t → Phase t
unfolding wait_port wait_released retire has_port finish_idle start_release start_acquire
    finish_acquire close_lease after_wait after_retire after_start_release after_start_acquire
    after_finish_acquire
opening_lem (Step.reader_waits h e) = at_system e opening
opening_lem (Step.read_returns port h e) = absurd cc
opening_lem (Step.read_fails port h d e) = absurd cc
opening_lem (Step.reader_closes port h e) = absurd cc
opening_lem (Step.reader_tells h e) = absurd cc
opening_lem (Step.release_starts h e) = absurd cc
opening_lem (Step.release_ends h d e) = absurd cc
opening_lem (Step.acquire_starts h e) = absurd cc
opening_lem (Step.open_fails h e) = at_system e lent
opening_lem (Step.open_succeeds port h d e) = at_system e (opened port)
opening_lem (Step.acquire_ends port h e) = absurd cc
opening_lem (Step.refused_closes port h e) = absurd cc
opening_lem (Step.session_ends e) = at_system e (ended refl)
opening_lem (Step.session_closes port h e) = absurd cc

opened_acquire_ends :
    (p port : ℕ) {t : System}
    → installs p ≡ installs port
    → (let r = finish_acquire (lease_of none true true) port in
        t ≡ record {
          lease = r.1;
          reader = between;
          holder = after_finish_acquire port r.0;
          handle = some p;
          leaving = none;
        })
    → t ≡ system_of (lease_of (some p) false false) between nobody (some p)
unfolding finish_acquire after_finish_acquire
opened_acquire_ends p port h e = ground arith

pub opened_lem :
    (p : ℕ) {t : System}
    → Step (system_of (lease_of none true true) between (installs p) (some p)) t
    → Phase t
unfolding wait_port wait_released retire has_port finish_idle start_release start_acquire
    finish_acquire close_lease after_wait after_retire after_start_release after_start_acquire
    after_finish_acquire
opened_lem p (Step.reader_waits h e) = at_system e (opened p)
opened_lem p (Step.read_returns port h e) = absurd cc
opened_lem p (Step.read_fails port h d e) = absurd cc
opened_lem p (Step.reader_closes port h e) = absurd cc
opened_lem p (Step.reader_tells h e) = absurd cc
opened_lem p (Step.release_starts h e) = absurd cc
opened_lem p (Step.release_ends h d e) = absurd cc
opened_lem p (Step.acquire_starts h e) = absurd cc
opened_lem p (Step.open_fails h e) = absurd cc
opened_lem p (Step.open_succeeds port h d e) = absurd cc
opened_lem p (Step.acquire_ends port h e) =
    at_system (opened_acquire_ends p port h e) (held p between at_wait)
opened_lem p (Step.refused_closes port h e) = absurd cc
opened_lem p (Step.session_ends e) = at_system e (ended refl)
opened_lem p (Step.session_closes port h e) = absurd cc
