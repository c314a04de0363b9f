-- ===== src/Port/Lease.antt =====
-- The sections of `portLease` that run under its lock: portlease.go. A handle of the port is a
-- number; what a section leaves to do once the lock is free is its result.
use go_serial_cli.Common.{
  ℕ, Bool, true, false, not, ◌||◌, ◌==◌, if◌then◌else◌, Bytes, List, [], ◌∷◌, ◌++◌, Option, none,
  some, take, drop, length, min,
}

-- `idle_done` tells that the channel `idle` is closed.
pub record PortLease : Type 0 where
  pub port : Option ℕ
  pub released : Bool
  pub closed : Bool
  pub idle_done : Bool

unfoldable pub new_port_lease : ℕ → PortLease
new_port_lease port = record {
  port = some port;
  released = false;
  closed = false;
  idle_done = false;
}

-- One round of waitPort: it returns nil, closes the handle and tells, sleeps, or returns a port.
pub data WaitPort : Type 0 where
  shut sleeps : WaitPort
  lends : ℕ → WaitPort
  reads : Option ℕ → WaitPort

unfoldable pub wait_released : PortLease → WaitPort × PortLease
wait_released l = elim l.port [
  | none ↦ (sleeps, l)
  | some port ↦ (lends port, record l { port = none })
]

unfoldable pub wait_port : PortLease → WaitPort × PortLease
wait_port l =
    if l.closed then (shut, l) else if l.released then wait_released l else (reads l.port, l)

unfoldable pub current : PortLease → Option ℕ
current l = if l.closed || l.released then none else l.port

unfoldable pub has_port : PortLease → ℕ → Bool
has_port l port = elim l.port [ none ↦ false | some p ↦ p == port ]

-- `closing` is Go's (false, true), `keeps` its (false, false), `retires` its (true, false).
pub data Retire : Type 0 where
  closing keeps retires : Retire

unfoldable pub retire : PortLease → ℕ → Retire × PortLease
retire l port =
    if l.closed
    then (closing, l)
    else if not l.released || not (has_port l port)
    then (keeps, l)
    else (retires, record l { port = none })

unfoldable pub finish_idle : PortLease → PortLease
finish_idle l = record l { idle_done = true }

pub data StartRelease : Type 0 where
  release_refused release_again release_waits : StartRelease

unfoldable pub start_release : PortLease → StartRelease × PortLease
start_release l =
    if l.closed
    then (release_refused, l)
    else if l.released
    then (release_again, l)
    else (release_waits, record l { released = true })

pub data StartAcquire : Type 0 where
  acquire_refused acquire_needless acquire_opens : StartAcquire

unfoldable pub start_acquire : PortLease → StartAcquire
start_acquire l =
    if l.closed then acquire_refused else if not l.released then acquire_needless else acquire_opens

-- Behind a successful open: whether the lease takes the handle, which is closed otherwise.
unfoldable pub finish_acquire : PortLease → ℕ → Bool × PortLease
finish_acquire l port =
    if l.closed
    then (false, l)
    else (true, record l { port = some port; released = false; idle_done = false })

-- The handle that is left to close.
unfoldable pub close_lease : PortLease → Option ℕ × PortLease
close_lease l =
    if l.closed
    then (none, l)
    else (l.port, record l { port = none; closed = true; idle_done = true })

-- serial.go: one answer of the port per write, the bytes it took and whether it failed.
pub record PortWrite : Type 0 where
  pub count : ℕ
  pub failed : Bool

pub data WriteSerial : Type 0 where
  wrote port_failed no_bytes port_released blocked : WriteSerial

-- The bytes on the line and the result; `blocked` waits for an answer that does not come.
unfoldable pub write_all : Bytes → List PortWrite → Bytes × WriteSerial
write_all [] answers = ([], wrote)
write_all (b ∷ bytes) [] = ([], blocked)
write_all (b ∷ bytes) (a ∷ answers) =
    let n = min a.count (length (b ∷ bytes)) in
    let sent = take n (b ∷ bytes) in
    let rest = write_all (drop n (b ∷ bytes)) answers in
    if a.failed
    then (sent, port_failed)
    else if n == 0
    then ([], no_bytes)
    else (sent ++ rest.0, rest.1)

unfoldable pub write_serial : PortLease → Bytes → List PortWrite → Bytes × WriteSerial
write_serial l bytes answers = elim (current l) [
  | none ↦ ([], port_released)
  | some port ↦ write_all bytes answers
]
