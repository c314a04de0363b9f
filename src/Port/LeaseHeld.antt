-- ===== src/Port/LeaseHeld.antt =====
-- The steps of a session that has its port, and of one that a release waits for.
use go_serial_cli.Common.{ℕ, ◌≡◌, refl, true, false, none, some, arith}
use go_serial_cli.Port.Lease.{
  wait_port, wait_released, has_port, retire, keeps, finish_idle, start_release, start_acquire,
  finish_acquire, close_lease,
}
use go_serial_cli.Port.LeaseSystem.{
  Reader, between, returned, reading, closing_port, nobody, waits_idle, System, after_wait,
  after_retire, after_start_release, after_start_acquire, after_finish_acquire, Step,
}
use go_serial_cli.Port.LeasePhases.{
  lease_of, system_of, AtPort, at_wait, at_read, at_return, Phase, held, asked, closes, ended,
  at_system,
}

held_at_wait :
    (p : ℕ) {t : System}
    → Step (system_of (lease_of (some p) false false) between nobody (some p)) t
    → Phase t
unfolding wait_port wait_released retire has_port finish_idle start_release start_acquire
    finish_acquire close_lease after_wait after_retire after_start_release after_start_acquire
    after_finish_acquire
held_at_wait p (Step.reader_waits h e) = at_system e (held p (reading p) at_read)
held_at_wait p (Step.read_returns port h e) = absurd cc
held_at_wait p (Step.read_fails port h d e) = absurd cc
held_at_wait p (Step.reader_closes port h e) = absurd cc
held_at_wait p (Step.reader_tells h e) = absurd cc
held_at_wait p (Step.release_starts h e) = at_system e (asked p between at_wait)
held_at_wait p (Step.release_ends h d e) = absurd cc
held_at_wait p (Step.acquire_starts h e) = at_system e (held p between at_wait)
held_at_wait p (Step.open_fails h e) = absurd cc
held_at_wait p (Step.open_succeeds port h d e) = absurd cc
held_at_wait p (Step.acquire_ends port h e) = absurd cc
held_at_wait p (Step.refused_closes port h e) = absurd cc
held_at_wait p (Step.session_ends e) = at_system e (ended refl)
held_at_wait p (Step.session_closes port h e) = absurd cc

held_at_read :
    (p : ℕ) {t : System}
    → Step (system_of (lease_of (some p) false false) (reading p) nobody (some p)) t
    → Phase t
unfolding wait_port wait_released retire has_port finish_idle start_release start_acquire
    finish_acquire close_lease after_wait after_retire after_start_release after_start_acquire
    after_finish_acquire
held_at_read p (Step.reader_waits h e) = absurd cc
held_at_read p (Step.read_returns port h e) = at_system e (held p between at_wait)
held_at_read p (Step.read_fails port h d e) = at_system e (held p returned at_return)
held_at_read p (Step.reader_closes port h e) = absurd cc
held_at_read p (Step.reader_tells h e) = absurd cc
held_at_read p (Step.release_starts h e) = at_system e (asked p (reading p) at_read)
held_at_read p (Step.release_ends h d e) = absurd cc
held_at_read p (Step.acquire_starts h e) = at_system e (held p (reading p) at_read)
held_at_read p (Step.open_fails h e) = absurd cc
held_at_read p (Step.open_succeeds port h d e) = absurd cc
held_at_read p (Step.acquire_ends port h e) = absurd cc
held_at_read p (Step.refused_closes port h e) = absurd cc
held_at_read p (Step.session_ends e) = at_system e (ended refl)
held_at_read p (Step.session_closes port h e) = absurd cc

held_at_return :
    (p : ℕ) {t : System}
    → Step (system_of (lease_of (some p) false false) returned nobody (some p)) t
    → Phase t
unfolding wait_port wait_released retire has_port finish_idle start_release start_acquire
    finish_acquire close_lease after_wait after_retire after_start_release after_start_acquire
    after_finish_acquire
held_at_return p (Step.reader_waits h e) = absurd cc
held_at_return p (Step.read_returns port h e) = absurd cc
held_at_return p (Step.read_fails port h d e) = absurd cc
held_at_return p (Step.reader_closes port h e) = absurd cc
held_at_return p (Step.reader_tells h e) = absurd cc
held_at_return p (Step.release_starts h e) = at_system e (asked p returned at_return)
held_at_return p (Step.release_ends h d e) = absurd cc
held_at_return p (Step.acquire_starts h e) = at_system e (held p returned at_return)
held_at_return p (Step.open_fails h e) = absurd cc
held_at_return p (Step.open_succeeds port h d e) = absurd cc
held_at_return p (Step.acquire_ends port h e) = absurd cc
held_at_return p (Step.refused_closes port h e) = absurd cc
held_at_return p (Step.session_ends e) = at_system e (ended refl)
held_at_return p (Step.session_closes port h e) = absurd cc

asked_at_wait :
    (p : ℕ) {t : System}
    → Step (system_of (lease_of (some p) true false) between waits_idle (some p)) t
    → Phase t
unfolding wait_port wait_released retire has_port finish_idle start_release start_acquire
    finish_acquire close_lease after_wait after_retire after_start_release after_start_acquire
    after_finish_acquire
asked_at_wait p (Step.reader_waits h e) = at_system e (closes p)
asked_at_wait p (Step.read_returns port h e) = absurd cc
asked_at_wait p (Step.read_fails port h d e) = absurd cc
asked_at_wait p (Step.reader_closes port h e) = absurd cc
asked_at_wait p (Step.reader_tells h e) = absurd cc
asked_at_wait p (Step.release_starts h e) = absurd cc
asked_at_wait p (Step.release_ends h d e) = absurd cc
asked_at_wait p (Step.acquire_starts h e) = absurd cc
asked_at_wait p (Step.open_fails h e) = absurd cc
asked_at_wait p (Step.open_succeeds port h d e) = absurd cc
asked_at_wait p (Step.acquire_ends port h e) = absurd cc
asked_at_wait p (Step.refused_closes port h e) = absurd cc
asked_at_wait p (Step.session_ends e) = at_system e (ended refl)
asked_at_wait p (Step.session_closes port h e) = absurd cc

asked_read_returns :
    (p port : ℕ) {t : System}
    → reading p ≡ reading port
    → (let r = retire (lease_of (some p) true false) port in
        t ≡ record {
          lease = r.1;
          reader = after_retire port r.0;
          holder = waits_idle;
          handle = some p;
          leaving = none;
        })
    → t ≡ system_of (lease_of none true false) (closing_port p) waits_idle (some p)
unfolding retire has_port after_retire
asked_read_returns p port h e = ground arith

asked_read_fails :
    (p port : ℕ)
    → reading p ≡ reading port
    → ¬ ((retire (lease_of (some p) true false) port).0 ≡ keeps)
unfolding retire has_port
asked_read_fails p port h d = ground arith

asked_at_read :
    (p : ℕ) {t : System}
    → Step (system_of (lease_of (some p) true false) (reading p) waits_idle (some p)) t
    → Phase t
unfolding wait_port wait_released retire has_port finish_idle start_release start_acquire
    finish_acquire close_lease after_wait after_retire after_start_release after_start_acquire
    after_finish_acquire
asked_at_read p (Step.reader_waits h e) = absurd cc
asked_at_read p (Step.read_returns port h e) = at_system (asked_read_returns p port h e) (closes p)
asked_at_read p (Step.read_fails port h d e) = absurd (asked_read_fails p port h d)
asked_at_read p (Step.reader_closes port h e) = absurd cc
asked_at_read p (Step.reader_tells h e) = absurd cc
asked_at_read p (Step.release_starts h e) = absurd cc
asked_at_read p (Step.release_ends h d e) = absurd cc
asked_at_read p (Step.acquire_starts h e) = absurd cc
asked_at_read p (Step.open_fails h e) = absurd cc
asked_at_read p (Step.open_succeeds port h d e) = absurd cc
asked_at_read p (Step.acquire_ends port h e) = absurd cc
asked_at_read p (Step.refused_closes port h e) = absurd cc
asked_at_read p (Step.session_ends e) = at_system e (ended refl)
asked_at_read p (Step.session_closes port h e) = absurd cc

asked_at_return :
    (p : ℕ) {t : System}
    → Step (system_of (lease_of (some p) true false) returned waits_idle (some p)) t
    → Phase t
unfolding wait_port wait_released retire has_port finish_idle start_release start_acquire
    finish_acquire close_lease after_wait after_retire after_start_release after_start_acquire
    after_finish_acquire
asked_at_return p (Step.reader_waits h e) = absurd cc
asked_at_return p (Step.read_returns port h e) = absurd cc
asked_at_return p (Step.read_fails port h d e) = absurd cc
asked_at_return p (Step.reader_closes port h e) = absurd cc
asked_at_return p (Step.reader_tells h e) = absurd cc
asked_at_return p (Step.release_starts h e) = absurd cc
asked_at_return p (Step.release_ends h d e) = absurd cc
asked_at_return p (Step.acquire_starts h e) = absurd cc
asked_at_return p (Step.open_fails h e) = absurd cc
asked_at_return p (Step.open_succeeds port h d e) = absurd cc
asked_at_return p (Step.acquire_ends port h e) = absurd cc
asked_at_return p (Step.refused_closes port h e) = absurd cc
asked_at_return p (Step.session_ends e) = at_system e (ended refl)
asked_at_return p (Step.session_closes port h e) = absurd cc

pub held_lem :
    (p : ℕ) {r : Reader} {t : System}
    → AtPort p r
    → Step (system_of (lease_of (some p) false false) r nobody (some p)) t
    → Phase t
held_lem p at_wait st = held_at_wait p st
held_lem p at_read st = held_at_read p st
held_lem p at_return st = held_at_return p st

pub asked_lem :
    (p : ℕ) {r : Reader} {t : System}
    → AtPort p r
    → Step (system_of (lease_of (some p) true false) r waits_idle (some p)) t
    → Phase t
asked_lem p at_wait st = asked_at_wait p st
asked_lem p at_read st = asked_at_read p st
asked_lem p at_return st = asked_at_return p st
