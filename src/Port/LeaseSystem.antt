-- ===== src/Port/LeaseSystem.antt =====
-- The goroutines around a port lease: the read loop copyPortToClients, and the requests to
-- release and to acquire, which take turns under writeMu (serial.go). Each step is one section
-- under the lease's lock, or one call of the operating system, which opens a port only if no
-- handle of it is open. No step stands for a release that gives up after two seconds.
use go_serial_cli.Common.{ℕ, ◌≡◌, Bool, true, false, Option, none, some}
use go_serial_cli.Port.Lease.{
  PortLease, new_port_lease, WaitPort, shut, sleeps, lends, reads, wait_port, Retire, closing,
  keeps, retires, retire, finish_idle, StartRelease, release_waits, start_release, StartAcquire,
  acquire_opens, start_acquire, finish_acquire, close_lease,
}

-- Where the read loop is: in front of waitPort, in a read, at port.Close, at finishIdle, returned.
pub data Reader : Type 0 where
  between telling returned : Reader
  reading closing_port : ℕ → Reader

-- Where the holder of writeMu is, if any: waiting for `idle`, at open, at the installation of the
-- opened handle, at the closing of a handle that the lease refused.
pub data Holder : Type 0 where
  nobody waits_idle opens : Holder
  installs drops : ℕ → Holder

pub record System : Type 0 where
  pub lease : PortLease
  pub reader : Reader
  pub holder : Holder
  pub handle : Option ℕ
  pub leaving : Option ℕ

unfoldable pub after_wait : WaitPort → Reader
after_wait shut = returned
after_wait sleeps = between
after_wait (lends port) = closing_port port
after_wait (reads none) = returned
after_wait (reads (some port)) = reading port

unfoldable pub after_retire : ℕ → Retire → Reader
after_retire port closing = returned
after_retire port keeps = between
after_retire port retires = closing_port port

unfoldable pub after_start_release : StartRelease → Holder
after_start_release release_waits = waits_idle
after_start_release _ = nobody

unfoldable pub after_start_acquire : StartAcquire → Holder
after_start_acquire acquire_opens = opens
after_start_acquire _ = nobody

unfoldable pub after_finish_acquire : ℕ → Bool → Holder
after_finish_acquire port true = nobody
after_finish_acquire port false = drops port

-- One step of a goroutine.
pub data Step (s t : System) : Type 0 where
  reader_waits :
      s.reader ≡ between
      → t ≡ record s { lease = (wait_port s.lease).1; reader = after_wait (wait_port s.lease).0 }
      → Step s t
  read_returns :
      (port : ℕ)
      → s.reader ≡ reading port
      → t ≡ record s {
        lease = (retire s.lease port).1;
        reader = after_retire port (retire s.lease port).0;
      }
      → Step s t
  read_fails :
      (port : ℕ)
      → s.reader ≡ reading port
      → (retire s.lease port).0 ≡ keeps
      → t ≡ record s { reader = returned }
      → Step s t
  reader_closes :
      (port : ℕ)
      → s.reader ≡ closing_port port
      → t ≡ record s { handle = none; reader = telling }
      → Step s t
  reader_tells :
      s.reader ≡ telling → t ≡ record s { lease = finish_idle s.lease; reader = between } → Step s t
  release_starts :
      s.holder ≡ nobody
      → t ≡ record s {
        lease = (start_release s.lease).1;
        holder = after_start_release (start_release s.lease).0;
      }
      → Step s t
  release_ends :
      s.holder ≡ waits_idle → s.lease.idle_done ≡ true → t ≡ record s { holder = nobody } → Step s t
  acquire_starts :
      s.holder ≡ nobody
      → t ≡ record s { holder = after_start_acquire (start_acquire s.lease) }
      → Step s t
  open_fails : s.holder ≡ opens → t ≡ record s { holder = nobody } → Step s t
  open_succeeds :
      (port : ℕ)
      → s.holder ≡ opens
      → s.handle ≡ none
      → t ≡ record s { holder = installs port; handle = some port }
      → Step s t
  acquire_ends :
      (port : ℕ)
      → s.holder ≡ installs port
      → t ≡ record s {
        lease = (finish_acquire s.lease port).1;
        holder = after_finish_acquire port (finish_acquire s.lease port).0;
      }
      → Step s t
  refused_closes :
      (port : ℕ)
      → s.holder ≡ drops port
      → t ≡ record s { holder = nobody; handle = none }
      → Step s t
  session_ends :
      t ≡ record s { lease = (close_lease s.lease).1; leaving = (close_lease s.lease).0 } → Step s t
  session_closes :
      (port : ℕ) → s.leaving ≡ some port → t ≡ record s { leaving = none; handle = none } → Step s t

pub data Reach (s : System) : System → Type 0 where
  start : Reach s s
  then_step : {t u : System} → Reach s t → Step t u → Reach s u

-- A session as copyPortToClients finds it, with its port open.
unfoldable pub new_system : ℕ → System
new_system port = record {
  lease = new_port_lease port;
  reader = between;
  holder = nobody;
  handle = some port;
  leaving = none;
}
