-- ===== src/Port/LeasePhases.antt =====
-- The states that a session passes through while its port is held, lent and opened again:
-- portlease.go under the goroutines of serial.go.
use go_serial_cli.Common.{ℕ, ◌≡◌, sym, Bool, true, false, Option, none, some, arith}
use mathlib.Core.Path.{subst}
use go_serial_cli.Port.Lease.{
  PortLease, wait_port, retire, finish_idle, start_release, finish_acquire, close_lease,
}
use go_serial_cli.Port.LeaseSystem.{
  Reader, between, telling, returned, reading, closing_port, Holder, nobody, waits_idle, opens,
  installs, System, Step,
}

-- A lease that is not closed.
abbrev pub lease_of : Option ℕ → Bool → Bool → PortLease
lease_of port released idle_done = record {
  port = port;
  released = released;
  closed = false;
  idle_done = idle_done;
}

abbrev pub system_of : PortLease → Reader → Holder → Option ℕ → System
system_of lease reader holder handle = record {
  lease = lease;
  reader = reader;
  holder = holder;
  handle = handle;
  leaving = none;
}

-- The read loop while it has the port `p` to read.
pub data AtPort (p : ℕ) : Reader → Type 0 where
  at_wait : AtPort p between
  at_read : AtPort p (reading p)
  at_return : AtPort p returned

-- The states of a session: the port is held, a release waits for it in three stages, it is lent,
-- it is being opened again, or the session is at its end.
pub data Phase : System → Type 0 where
  held :
      (p : ℕ) (r : Reader)
      → AtPort p r
      → Phase (system_of (lease_of (some p) false false) r nobody (some p))
  asked :
      (p : ℕ) (r : Reader)
      → AtPort p r
      → Phase (system_of (lease_of (some p) true false) r waits_idle (some p))
  closes :
      (p : ℕ) → Phase (system_of (lease_of none true false) (closing_port p) waits_idle (some p))
  tells : Phase (system_of (lease_of none true false) telling waits_idle none)
  done : Phase (system_of (lease_of none true true) between waits_idle none)
  lent : Phase (system_of (lease_of none true true) between nobody none)
  opening : Phase (system_of (lease_of none true true) between opens none)
  opened : (p : ℕ) → Phase (system_of (lease_of none true true) between (installs p) (some p))
  ended : {s : System} → s.lease.closed ≡ true → Phase s

abbrev pub at_system : {s t : System} → t ≡ s → Phase s → Phase t
at_system e h = subst Phase (sym e) h

-- A closed lease stays closed.
pub Step-closed : {s t : System} → Step s t → s.lease.closed ≡ true → t.lease.closed ≡ true
unfolding wait_port retire finish_idle start_release finish_acquire close_lease
Step-closed (Step.reader_waits h e) c = ground arith
Step-closed (Step.read_returns port h e) c = ground arith
Step-closed (Step.read_fails port h d e) c = ground arith
Step-closed (Step.reader_closes port h e) c = ground arith
Step-closed (Step.reader_tells h e) c = ground arith
Step-closed (Step.release_starts h e) c = ground arith
Step-closed (Step.release_ends h d e) c = ground arith
Step-closed (Step.acquire_starts h e) c = ground arith
Step-closed (Step.open_fails h e) c = ground arith
Step-closed (Step.open_succeeds port h d e) c = ground arith
Step-closed (Step.acquire_ends port h e) c = ground arith
Step-closed (Step.refused_closes port h e) c = ground arith
Step-closed (Step.session_ends e) c = ground arith
Step-closed (Step.session_closes port h e) c = ground arith
